-- ===== src/Posix/Main.antt =====
-- p6: what p6/main.cpp opens for all processes, and its handler of SIGINT and SIGTERM. A semaphore is
-- known by the number in its name.
pub mod Cleans
mod Tests
use sphere_multithreading_cp.Prelude.{
  Bool, List, Option, [], false, if◌then◌else◌, none, some, suc, true, zero, ℕ, ◌∷◌,
}
use sphere_multithreading_cp.Kernel.{
  ◌>>=◌, ◌>>◌, Prog, pure, system_error, shm_open, shm_unlink, munmap, wait, ftruncate, mmap,
  sem_open, sem_close, sem_unlink, kill, close, ask, run, checked,
}
use sphere_multithreading_cp.Posix.Server.{Server, delete_server}
use sphere_multithreading_cp.Posix.Worker.Lifetime.{delete_worker}

abbrev pub num_sections : ℕ
num_sections = 8

-- `shmfd` and `shmaddr`.
pub create_shared_memory : Prog (ℕ × ℕ)
create_shared_memory = do
  shmfd ← checked system_error shm_open
  _ ← checked system_error (ftruncate shmfd)
  shmaddr ← checked system_error (mmap shmfd)
  pure (shmfd, shmaddr)

pub close_shared_memory : ℕ → Prog (Unit {0})
close_shared_memory shmfd = do run munmap; run (close shmfd)

pub delete_shared_memory : Prog (Unit {0})
delete_shared_memory = run shm_unlink

-- One call for each of `n` semaphores, from number `i` on.
pub for_semaphors : (ℕ → Prog (Unit {0})) → ℕ → ℕ → Prog (Unit {0})
for_semaphors body zero i = pure tt
for_semaphors body (suc n) i = do body i; for_semaphors body n (suc i)

pub create_semaphors : Prog (Unit {0})
create_semaphors = for_semaphors (λ i. run (sem_open i)) num_sections 0

pub close_semaphors : Prog (Unit {0})
close_semaphors = for_semaphors (λ i. run (sem_close i)) num_sections 0

pub delete_semaphors : Prog (Unit {0})
delete_semaphors = for_semaphors (λ i. run (sem_unlink i)) num_sections 0

pub kill_all : ℕ → List ℕ → Prog (Unit {0})
kill_all signum [] = pure tt
kill_all signum (pid ∷ pids) = do run (kill pid signum); kill_all signum pids

-- `wait(NULL) > 0`
abbrev pub positive : Option ℕ → Bool
positive none = false
positive (some zero) = false
positive (some (suc n)) = true

-- The `while` over it; `false` is that the fuel ran out.
pub wait_all : ℕ → Prog Bool
wait_all zero = pure false
wait_all (suc fuel) = do pid ← ask wait; if positive pid then wait_all fuel else pure true

-- What the process of the server does behind the `while`, up to `exit`.
pub clean_up : Server → Bool → Prog Bool
clean_up p_server false = pure false
clean_up p_server true = do
  delete_server p_server
  delete_semaphors
  delete_shared_memory
  pure true

pub handle_in_server : (fuel : ℕ) (signum : ℕ) (worker_pids : List ℕ) → Server → Prog Bool
handle_in_server fuel signum worker_pids p_server = do
  kill_all signum worker_pids
  done ← wait_all fuel
  clean_up p_server done

-- The other branch: the worker that there may be, with its clients, its reader, and `master_fd`.
pub handle_in_worker : Option (List ℕ × ℕ × ℕ) → (shmfd : ℕ) → Prog (Unit {0})
handle_in_worker none shmfd = do close_semaphors; close_shared_memory shmfd
handle_in_worker (some (slave_sockets, fd_passing_reader, master_fd)) shmfd = do
  delete_worker slave_sockets fd_passing_reader master_fd
  close_semaphors
  close_shared_memory shmfd
