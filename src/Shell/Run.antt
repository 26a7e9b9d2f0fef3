-- ===== src/Shell/Run.antt =====
-- `run` of p4/main.cpp: it executes the operands in order and skips by the operators.
pub mod Laws
use sphere_multithreading_cp.Prelude.{Bool, List, [], if◌then◌else◌, not, ℕ, ◌&&◌, ◌==◌, ◌||◌, ◌∷◌}
use sphere_multithreading_cp.Shell.Operand.{
  OpType, logical_and, logical_or, conveyor, background_mode, separator, same_op, Command, Operand,
  cmd, op,
}

-- What `wait` stores: `WIFEXITED` and `WEXITSTATUS`.
pub record Status : Type 0 where
  pub exited : Bool
  pub code : ℕ

pub succeeded : Status → Bool
succeeded s = s.exited && (s.code == 0)

-- The condition of the `if` over the operators.
unfoldable pub skips : OpType → Status → Bool
skips o s = (same_op o logical_or && succeeded s) || (same_op o logical_and && not (succeeded s))

-- `exec` is `Command::run`: it forks, executes and waits, and so changes the world.
module _ {Fd W : Type 0} (exec : Command Fd → W → Status × W) where
  -- `run_skip o` is the inner `for`, from the position behind one operator `o` on: it goes to the
  -- next operator that is not `o`, and the `i++` of the outer `for` steps over that one.
  unfoldable mutual
    pub run : Status → W → List (Operand Fd) → Status × W
    run s w [] = (s, w)
    run s w (cmd c ∷ r) = let (s', w') = exec c w in run s' w' r
    run s w (op o ∷ r) =
        let skipped = run_skip o s w r in
        let next = run s w r in if skips o s then skipped else next

    pub run_skip : OpType → Status → W → List (Operand Fd) → Status × W
    run_skip o s w [] = (s, w)
    run_skip o s w (cmd c ∷ r) = run_skip o s w r
    run_skip o s w (op p ∷ r) =
        let more = run_skip o s w r in let next = run s w r in if same_op p o then more else next
