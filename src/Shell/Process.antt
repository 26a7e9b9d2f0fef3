-- ===== src/Shell/Process.antt =====
-- p4: `Command::run` of p4/Operand.cpp and the descriptors that the shell and its commands hold. The
-- process numbers that `fork` gives, and what `wait` gives, are parameters.
pub mod Descriptors
pub mod Pipeline
mod Tests
use sphere_multithreading_cp.Prelude.{List, Option, [], erase, insert, none, some, ℕ, ◌++◌, ◌∷◌}
use sphere_multithreading_cp.Table.{update}
use sphere_multithreading_cp.Shell.{Text}
use sphere_multithreading_cp.Shell.Operand.{Command}
use sphere_multithreading_cp.Shell.Run.{Status}

-- What a descriptor stands for: an end of the pipe with the number, or something else.
pub data File : Type 0 where
  read_end write_end other : ℕ → File

-- The table of a process; `none` is a descriptor that is closed.
abbrev pub Fds : Type 0
Fds = ℕ → Option File

-- A process that has come to `execvp`; `waiting` is the table of the shell while it waits for it.
pub record Child : Type 0 where
  pub args : List Text
  pub fds : Fds
  pub waiting : Fds

-- `started` has the commands in the order in which they were started.
pub record Shell : Type 0 where
  pub fds : Fds
  pub slave_pids : List ℕ
  pub started : List Child

abbrev pub dup2 : ℕ → ℕ → Fds → Fds
dup2 old new t = elim (t old) [ none ↦ t | some f ↦ update t new (some f) ]

abbrev pub close : ℕ → Fds → Fds
close fd t = update t fd none

-- The two calls of the child for one of its redirections.
abbrev pub redirect : Option ℕ → ℕ → Fds → Fds
redirect none d t = t
redirect (some fd) d t = close fd (dup2 fd d t)

-- The call of the parent.
abbrev pub close_modified : Option ℕ → Fds → Fds
close_modified none t = t
close_modified (some fd) t = close fd t

-- `waits` is the process that `wait` takes, with its status, and need not be the one that was forked.
-- The side of the child ends with `execvp`, which is taken to succeed.
module _ (fork : Shell → ℕ) (waits : Shell → ℕ × Status) where
  pub run_command : Command ℕ → Shell → Status × Shell
  run_command c w =
      let fds : Fds = close_modified c.fd_output (close_modified c.fd_input w.fds) in
      let child : Child = record {
        args = c.args;
        fds = redirect c.fd_output 1 (redirect c.fd_input 0 w.fds);
        waiting = fds;
      } in
      let parent : Shell = record {
        fds = fds;
        slave_pids = insert (fork w) w.slave_pids;
        started = w.started ++ child ∷ [];
      } in
      let (pid, status) = waits parent in
      (status, record parent { slave_pids = erase pid parent.slave_pids })
