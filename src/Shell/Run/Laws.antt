-- ===== src/Shell/Run/Laws.antt =====
-- `run` gives `&&` and `||` their meaning: equal precedence, grouped to the left.
use sphere_multithreading_cp.Prelude.{
  Bool, Bool-cases, List, Option, [], arith, false, if◌then◌else◌, inl, inr, none, not, refl, some,
  true, ◌∷◌, ◌≡◌,
}
use sphere_multithreading_cp.Shell.Operand.{OpType, logical_and, logical_or, same_op, Command}
use sphere_multithreading_cp.Shell.Operand.Chain.{operands_of}
use sphere_multithreading_cp.Shell.Run.{Status, succeeded, skips, run, run_skip}

-- Whether the command behind the operator runs, after the status of what stands before it.
pub goes_on : OpType → Status → Bool
goes_on logical_and s = succeeded s
goes_on logical_or s = not (succeeded s)
goes_on _ s = true

goes_on-skips : (o : OpType) (s : Status) → goes_on o s ≡ not (skips o s)
unfolding goes_on skips same_op
goes_on-skips logical_and s = ground arith
goes_on-skips _ s = ground arith

-- What skips by one operator goes on skipping by the same, and by no other.
goes_on-same :
    (o p : OpType) (s : Status) → skips o s ≡ true → same_op p o ≡ true → goes_on p s ≡ false
unfolding goes_on skips same_op
goes_on-same logical_and p s h e = ground arith
goes_on-same _ p s h e = ground arith

goes_on-other :
    (o p : OpType) (s : Status) → skips o s ≡ true → same_op p o ≡ false → goes_on p s ≡ true
unfolding goes_on skips same_op
goes_on-other logical_and p s h e = ground arith
goes_on-other _ p s h e = ground arith

module _ {Fd W : Type 0} (exec : Command Fd → W → Status × W) where
  -- `go`: the next command runs. One that does not leaves the status as it was.
  pub eval : Bool → Status → W → List (Command Fd × OpType) → Option (Command Fd) → Status × W
  eval go s w [] none = (s, w)
  eval go s w [] (some c) = if go then exec c w else (s, w)
  eval go s w ((c, o) ∷ r) l =
      let (s', w') = (if go then exec c w else (s, w)) in eval (goes_on o s') s' w' r l

  mutual
    unfolding run eval operands_of

    run-chain :
        (s : Status) (w : W) (r : List (Command Fd × OpType)) (l : Option (Command Fd))
        → run exec s w (operands_of r l) ≡ eval true s w r l
    run-chain s w [] none = refl
    run-chain s w [] (some c) = refl
    run-chain s w ((c, o) ∷ r) l =
        let s' = (exec c w).0 in
        let w' = (exec c w).1 in
        elim (Bool-cases (skips o s')) [
          | inl h ↦ rw (h, goes_on-skips o s', h) (run_skip-chain o s' w' r l h)
          | inr h ↦ rw (h, goes_on-skips o s', h) (run-chain s' w' r l)
        ]

    run_skip-chain :
        (o : OpType) (s : Status) (w : W) (r : List (Command Fd × OpType)) (l : Option (Command Fd))
        → skips o s ≡ true
        → run_skip exec o s w (operands_of r l) ≡ eval false s w r l
    run_skip-chain o s w [] none h = refl
    run_skip-chain o s w [] (some c) h = refl
    run_skip-chain o s w ((c, p) ∷ r) l h = elim (Bool-cases (same_op p o)) [
      | inl e ↦ rw (e, goes_on-same o p s h e) (run_skip-chain o s w r l h)
      | inr e ↦ rw (e, goes_on-other o p s h e) (run-chain s w r l)
    ]

  -- On alternating operands `run` executes a command behind `&&` exactly if the status before it is
  -- success, one behind `||` exactly if it is not, and any other in any case; the status is that of
  -- the last command that ran.
  pub run-eval :
      (s : Status) (w : W) (r : List (Command Fd × OpType)) (l : Option (Command Fd))
      → run exec s w (operands_of r l) ≡ eval true s w r l
  run-eval s w r l = run-chain s w r l
