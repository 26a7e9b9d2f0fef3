-- ===== src/Shell/Process/Pipeline/Joined.antt =====
-- p4: the commands of a pipeline are joined, and the shell is left without ends of pipes.
use sphere_multithreading_cp.Prelude.{
  Bool, List, Option, [], append_assoc, arith, false, length, map, none, refl, some, suc, sym, true,
  zero, ℕ, ◌++◌, ◌+◌, ◌∙◌, ◌∷◌, ◌≡◌, ◌≢◌, ◌≤◌,
}
use sphere_multithreading_cp.Shell.{Text}
use sphere_multithreading_cp.Shell.Operand.{same_op, Command, Operand, link_pipes}
use sphere_multithreading_cp.Shell.Run.{Status, skips, run}
use sphere_multithreading_cp.Shell.Process.{
  read_end, write_end, Fds, Child, Shell, redirect, close_modified, run_command,
}
use sphere_multithreading_cp.Shell.Process.Descriptors.{
  redirect-to, redirect-other, From, redirect-From,
}
use sphere_multithreading_cp.Shell.Process.Pipeline.{
  pipeline, Fresh, with_pipes, input_of, linked, link_from-linked, Piped, with_pipes-Piped,
}
use sphere_multithreading_cp.Shell.Process.Pipeline.Closing.{
  before, close_input-Piped, close_output-Piped,
}

-- The command number `k` reads from the pipe in front of it, if there is one, and neither it nor the shell
-- that waits for it has that pipe open for writing.
abbrev pub Reads : ℕ → Child → Type 0
Reads zero c = Unit
Reads (suc i) c = (c.fds 0 ≡ some (read_end i)) × From (suc i) c.fds × From (suc i) c.waiting

-- Each command of a pipeline with `n` pipes, from number `k` on, writes to the pipe behind it.
abbrev pub Joined : ℕ → ℕ → List Child → Type 0
Joined n k [] = Unit
Joined n k (c ∷ cs) = Reads k c × (k + 1 ≤ n → c.fds 1 ≡ some (write_end k)) × Joined n (suc k) cs

abbrev pub NoPipes : Fds → Type 0
NoPipes t = (d j : ℕ) → (t d ≢ some (read_end j)) × (t d ≢ some (write_end j))

module _ (pipe : ℕ → ℕ × ℕ) (fresh : Fresh pipe) where
  -- The table of the child behind the redirection of its input.
  input-reads :
      (k n : ℕ) (t : Fds)
      → Piped pipe fresh k (suc k) n t
      → k + 1 ≤ n
      → redirect (input_of pipe fresh (suc k)) 0 t 0 ≡ some (read_end k)
  input-reads k n t p l =
      redirect-to t (pipe k).0 0 (read_end k) (p.all_reads k (omega arith) l)
        (λ q. omega (arith, fresh.above_reads k))

  input-writes :
      (k n : ℕ) (t : Fds)
      → Piped pipe fresh (before k) k n t
      → k + 1 ≤ n
      → redirect (input_of pipe fresh k) 0 t (pipe k).1 ≡ some (write_end k)
  input-writes zero n t p l = p.all_writes 0 (omega arith) l
  input-writes (suc k) n t p l =
      redirect-other t (pipe k).0 0 (pipe (suc k)).1
        (λ q. omega (arith, fresh.above_writes (suc k))) (λ q. fresh.ends k (suc k) (sym q))
      ∙ p.all_writes (suc k) (omega arith) l

  Piped-From : (r k n : ℕ) (t : Fds) → Piped pipe fresh r k n t → From k t
  Piped-From r k n t p d j e = (p.only_writes d j e).1

  Piped-NoPipes : (k n : ℕ) (t : Fds) → Piped pipe fresh k k n t → n ≡ k → NoPipes t
  Piped-NoPipes k n t p h d j = (
    λ e. let (q, l, m) = p.only_reads d j e in omega arith,
    λ e. let (q, l, m) = p.only_writes d j e in omega arith,
  )

  -- The end of the pipe behind the command number `k`, if there is one.
  abbrev output_of : Bool → ℕ → Option ℕ
  output_of true k = some (pipe k).1
  output_of false k = none

  output-input : (b : Bool) (k : ℕ) (t : Fds) → redirect (output_of b k) 1 t 0 ≡ t 0
  output-input true k t =
      redirect-other t (pipe k).1 1 0 (λ q. omega arith) (λ q. omega (arith, fresh.above_writes k))
  output-input false k t = refl

  closed-From :
      (b : Bool) (k n : ℕ) (t : Fds)
      → Piped pipe fresh (before k) k n t
      → From k (close_modified (output_of b k) (close_modified (input_of pipe fresh k) t))
  closed-From true k n t p d j e =
      let l =
        Piped-From k (suc k) n _
          (close_output-Piped pipe fresh k n _ (close_input-Piped pipe fresh k n t p)) d j e in
      omega (arith, l)
  closed-From false k n t p d j e = Piped-From k k n _ (close_input-Piped pipe fresh k n t p) d j e

  child-Reads :
      (b : Bool) (k n : ℕ) (t : Fds) (args : List Text)
      → Piped pipe fresh (before k) k n t
      → k ≤ n
      → Reads k (record {
        args = args;
        fds = redirect (output_of b k) 1 (redirect (input_of pipe fresh k) 0 t);
        waiting = close_modified (output_of b k) (close_modified (input_of pipe fresh k) t);
      })
  child-Reads b zero n t args p l = tt
  child-Reads b (suc k) n t args p l = (
    output-input b (suc k) (redirect (some (pipe k).0) 0 t) ∙ input-reads k n t p (omega arith),
    redirect-From (suc k) (redirect (some (pipe k).0) 0 t) (output_of b (suc k)) 1
        (redirect-From (suc k) t (some (pipe k).0) 0 (Piped-From k (suc k) n t p)),
    closed-From b (suc k) n t p,
  )

  module _ (fork : Shell → ℕ) (waits : Shell → ℕ × Status) where
    -- What a run from `w` to `w'` has started and left.
    abbrev pub Done : ℕ → ℕ → List (List Text) → Shell → Shell → Type 0
    Done n k wss w w' =
        (cs : List Child) × (w'.started ≡ w.started ++ cs)
        × (map (λ c. c.args) cs ≡ wss)
        × Joined n k cs
        × NoPipes w'.fds

    run-Done :
        (k n : ℕ) (s : Status) (w : Shell) (ws : List Text) (vs : List (List Text))
        → Piped pipe fresh (before k) k n w.fds
        → n ≡ k + length vs
        → Done n k (ws ∷ vs) w (run (run_command fork waits) s w (linked pipe fresh k ws vs)).1
    unfolding run run_command skips same_op
    run-Done k n s w ws [] p h =
        let m : n ≡ k = omega (arith, h) in
        let q = close_input-Piped pipe fresh k n w.fds p in
        (
          _ ∷ [],
          refl,
          refl,
          (child-Reads false k n w.fds ws p (omega (arith, m)), λ l. absurd (omega arith), tt),
          Piped-NoPipes k n _ q m,
        )
    run-Done k n s w ws (v ∷ vs) p h =
        let c : Command ℕ = record {
          args = ws;
          fd_input = input_of pipe fresh k;
          fd_output = some (pipe k).1;
        } in
        let w' : Shell = (run_command fork waits c w).1 in
        let (cs, started, args, joined, none_left) =
          run-Done (suc k) n (run_command fork waits c w).0 w' v vs
            (close_output-Piped pipe fresh k n _ (close_input-Piped pipe fresh k n w.fds p))
            (omega (arith, h)) in
        (
          _ ∷ cs,
          started ∙ append_assoc w.started (_ ∷ []) cs,
          rw args refl,
          (
            child-Reads true k n w.fds ws p (omega (arith, h)),
            λ l.
                redirect-to (redirect (input_of pipe fresh k) 0 w.fds) (pipe k).1 1 (write_end k)
                  (input-writes k n w.fds p l) (λ q. omega (arith, fresh.above_writes k)),
            joined,
          ),
          none_left,
        )

    -- Where the shell holds no ends of pipes, and `pipe` gives descriptors that are distinct and not
    -- among the first three, a pipeline of commands that have no redirections of their own starts each
    -- command in order. Each reads what the one in front of it writes, and neither it nor the waiting
    -- shell holds that pipe open for writing. No ends of pipes stay open in the shell.
    pub pipeline-Joined :
        (s : Status) (w : Shell) (ws : List Text) (vs : List (List Text))
        → NoPipes w.fds
        → (operands : List (Operand ℕ)) × (link_pipes pipe 0 (pipeline ws vs) ≡ some operands)
          × Done
              (length vs)
              0
              (ws ∷ vs)
              w
              (run
                (run_command fork waits)
                s
                (record w { fds = with_pipes pipe fresh (length vs) w.fds })
                operands).1
    unfolding link_pipes
    pipeline-Joined s w ws vs h = (
      linked pipe fresh 0 ws vs,
      link_from-linked pipe fresh 0 ws vs,
      run-Done 0 (length vs) s (record w { fds = with_pipes pipe fresh (length vs) w.fds }) ws vs
          (with_pipes-Piped pipe fresh (length vs) w.fds h) (omega arith),
    )
