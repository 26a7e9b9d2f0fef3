-- ===== src/Shell/Process/Pipeline.antt =====
-- p4: a pipeline of commands without redirections of their own.
pub mod Closing
pub mod Joined
use sphere_multithreading_cp.Prelude.{
  Bool-cases, List, Option, [], arith, inl, inr, none, refl, some, suc, sym, zero, ℕ, ◌+◌, ◌==◌,
  ◌∙◌, ◌∷◌, ◌≡◌, ◌≢◌, ◌≤◌,
}
use sphere_multithreading_cp.Table.{update}
use sphere_multithreading_cp.Shell.{Text}
use sphere_multithreading_cp.Shell.Operand.{
  conveyor, Command, Operand, cmd, op, link_pipes, link_from, set_fd_input, set_fd_output,
}
use sphere_multithreading_cp.Shell.Run.{Status, run}
use sphere_multithreading_cp.Shell.Process.Descriptors.{update-same, update-other, update-cases}
use sphere_multithreading_cp.Shell.Process.{
  File, read_end, write_end, other, Fds, Child, Shell, redirect, close_modified, run_command,
}

-- What main makes of `ws | vs ...` before the pipes are there.
abbrev pub plain : List Text → Command ℕ
plain ws = record { args = ws; fd_input = none; fd_output = none }

abbrev pub rest_of : List (List Text) → List (Operand ℕ)
rest_of [] = []
rest_of (v ∷ vs) = op conveyor ∷ cmd (plain v) ∷ rest_of vs

abbrev pub pipeline : List Text → List (List Text) → List (Operand ℕ)
pipeline ws vs = cmd (plain ws) ∷ rest_of vs

-- The descriptors that the calls of `pipe` give: none of them stands for two ends, nor is it one of the
-- three that each process begins with.
pub record Fresh (pipe : ℕ → ℕ × ℕ) : Type 0 where
  pub above_reads : (j : ℕ) → 3 ≤ (pipe j).0
  pub above_writes : (j : ℕ) → 3 ≤ (pipe j).1
  pub reads : (i j : ℕ) → (pipe i).0 ≡ (pipe j).0 → i ≡ j
  pub writes : (i j : ℕ) → (pipe i).1 ≡ (pipe j).1 → i ≡ j
  pub ends : (i j : ℕ) → (pipe i).0 ≢ (pipe j).1

module _ (pipe : ℕ → ℕ × ℕ) (fresh : Fresh pipe) where
  -- The table behind `n` calls of `pipe`.
  abbrev pub with_pipes : ℕ → Fds → Fds
  with_pipes zero t = t
  with_pipes (suc n) t =
      update (update (with_pipes n t) (pipe n).0 (some (read_end n))) (pipe n).1
        (some (write_end n))

  abbrev pub input_of : ℕ → Option ℕ
  input_of zero = none
  input_of (suc k) = some (pipe k).0

  abbrev pub linked : ℕ → List Text → List (List Text) → List (Operand ℕ)
  linked k ws [] = cmd (record { args = ws; fd_input = input_of k; fd_output = none }) ∷ []
  linked k ws (v ∷ vs) =
      cmd (record { args = ws; fd_input = input_of k; fd_output = some (pipe k).1 })
      ∷ op conveyor
      ∷ linked (suc k) v vs

  pub link_from-linked :
      (k : ℕ) (ws : List Text) (vs : List (List Text))
      → link_from pipe k
          (record { args = ws; fd_input = input_of k; fd_output = none })
          (rest_of vs)
        ≡ some (linked k ws vs)
  unfolding link_from link_pipes set_fd_input set_fd_output
  link_from-linked k ws [] = refl
  link_from-linked k ws (v ∷ vs) = rw (link_from-linked (suc k) v vs) refl

  -- The table of the shell before the command number `k` of a pipeline with `n` pipes: the ends
  -- for reading from number `r` on, those for writing from `k` on.
  pub record Piped (r k n : ℕ) (t : Fds) : Type 0 where
    pub only_reads : (d j : ℕ) → t d ≡ some (read_end j) → (d ≡ (pipe j).0) × (r ≤ j) × (j + 1 ≤ n)
    pub only_writes :
        (d j : ℕ) → t d ≡ some (write_end j) → (d ≡ (pipe j).1) × (k ≤ j) × (j + 1 ≤ n)
    pub all_reads : (j : ℕ) → r ≤ j → j + 1 ≤ n → t (pipe j).0 ≡ some (read_end j)
    pub all_writes : (j : ℕ) → k ≤ j → j + 1 ≤ n → t (pipe j).1 ≡ some (write_end j)

  pub with_pipes-Piped :
      (n : ℕ) (t : Fds)
      → ((d j : ℕ) → (t d ≢ some (read_end j)) × (t d ≢ some (write_end j)))
      → Piped 0 0 n (with_pipes n t)
  with_pipes-Piped zero t h = record {
    only_reads = λ d j e. absurd ((h d j).0 e);
    only_writes = λ d j e. absurd ((h d j).1 e);
    all_reads = λ j l m. absurd (omega arith);
    all_writes = λ j l m. absurd (omega arith);
  }
  with_pipes-Piped (suc n) t h =
      let p = with_pipes-Piped n t h in
      let u : Fds = with_pipes n t in
      let r : Option File = some (read_end n) in
      let w : Option File = some (write_end n) in
      let v : Fds = update u (pipe n).0 r in
      record {
        only_reads = λ d j e. elim (update-cases v (pipe n).1 d w (some (read_end j)) e) [
          | inl (q, x) ↦ cc
          | inr (ne, e) ↦ elim (update-cases u (pipe n).0 d r (some (read_end j)) e) [
            | inl (q, x) ↦ let y : n ≡ j = cc in (cc, omega arith, omega arith)
            | inr (ne, e) ↦ let (q, l, m) = p.only_reads d j e in (q, l, omega arith)
          ]
        ];
        only_writes = λ d j e. elim (update-cases v (pipe n).1 d w (some (write_end j)) e) [
          | inl (q, x) ↦ let y : n ≡ j = cc in (cc, omega arith, omega arith)
          | inr (ne, e) ↦ elim (update-cases u (pipe n).0 d r (some (write_end j)) e) [
            | inl (q, x) ↦ cc
            | inr (ne, e) ↦ let (q, l, m) = p.only_writes d j e in (q, l, omega arith)
          ]
        ];
        all_reads = λ j l m.
            let behind = update-other v (pipe n).1 (pipe j).0 w (fresh.ends j n) in
            elim (Bool-cases (j == n)) [
              | inl e ↦
                  let e' : j ≡ n = ground arith in rw (behind, e') (update-same u (pipe n).0 r)
              | inr e ↦
                  behind
                  ∙ (update-other u (pipe n).0 (pipe j).0 r (λ q. ground (arith, fresh.reads j n q))
                      ∙ p.all_reads j l (ground arith))
            ];
        all_writes = λ j l m. elim (Bool-cases (j == n)) [
          | inl e ↦ let e' : j ≡ n = ground arith in rw e' (update-same v (pipe n).1 w)
          | inr e ↦
              update-other v (pipe n).1 (pipe j).1 w (λ q. ground (arith, fresh.writes j n q))
              ∙ (update-other u (pipe n).0 (pipe j).1 r (λ q. fresh.ends n j (sym q))
                  ∙ p.all_writes j l (ground arith))
        ];
      }
