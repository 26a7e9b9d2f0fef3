-- ===== src/Sysv/Workers.antt =====
-- p5: the worker processes (p5/main_worker.cpp) side by side. Each goes through the loop of `main` on its
-- own; they share the semaphores, which p5/Server.cpp sets to `NUM_WORKERS`.
pub mod Units
pub mod Exclusion
mod Tests
use sphere_multithreading_cp.Prelude.{
  Bool, List, Option, [], false, if◌then◌else◌, leb, ltb, negsuc, none, pos, some, suc, true, ℕ, ℤ,
  ◌++◌, ◌+◌, ◌-◌, ◌/◌, ◌∷◌, ◌≡◌,
}
use sphere_multithreading_cp.Table.{update, get_hash}
use sphere_multithreading_cp.Sysv.Protocol.{
  OpType, get_op, set_op, del_op, quit_op, Message, num_workers, num_sections, sem_up, sem_down,
}

-- `semop` of one operation: a semaphore that would go below 0 makes the caller wait (`none`), and for a
-- number that there is no semaphore of the call fails and nothing changes; nobody looks at its result.
unfoldable pub semop : ℕ → ℤ → (ℕ → ℕ) → Option (ℕ → ℕ)
semop i (pos c) s = if ltb i num_sections then some (update s i (s i + c)) else some s
semop i (negsuc c) s =
    if ltb i num_sections
    then if leb (suc c) (s i) then some (update s i (s i - suc c)) else none
    else some s

-- Where a worker is: at `msgrcv`, before `sem_down`, behind it, before `msgsnd`, or at its end.
pub data Phase : Type 0 where
  idle stopped : Phase
  asked inside replying : Message → Phase

pub record System : Type 0 where
  pub sems : ℕ → ℕ
  pub workers : List Phase

-- What `sem_down` takes and `sem_up` gives back.
pub units : OpType → ℕ
units get_op = 1
units set_op = num_workers
units del_op = num_workers
units quit_op = 0

abbrev pub is_quit : OpType → Bool
is_quit quit_op = true
is_quit get_op = false
is_quit set_op = false
is_quit del_op = false

pub new_system : System
new_system = record { sems = λ _. num_workers; workers = idle ∷ idle ∷ idle ∷ idle ∷ [] }

module _ (hash_int : ℤ → ℕ) where
  pub section : Message → ℕ
  section msg = get_hash hash_int msg.key / num_sections

  -- A step of one worker, while the others stand still.
  pub data Step (s s' : System) : Type 0 where
    receives :
        (front back : List Phase) (msg : Message)
        → s.workers ≡ front ++ idle ∷ back
        → s' ≡ record { sems = s.sems; workers = front ++ asked msg ∷ back }
        → Step s s'
    enters :
        (front back : List Phase) (msg : Message) (sems : ℕ → ℕ)
        → s.workers ≡ front ++ asked msg ∷ back
        → is_quit msg.op ≡ false
        → sem_down hash_int semop (section msg) (units msg.op) s.sems ≡ some sems
        → s' ≡ record { sems = sems; workers = front ++ inside msg ∷ back }
        → Step s s'
    leaves :
        (front back : List Phase) (msg : Message) (sems : ℕ → ℕ)
        → s.workers ≡ front ++ inside msg ∷ back
        → sem_up hash_int semop (section msg) (units msg.op) s.sems ≡ some sems
        → s' ≡ record { sems = sems; workers = front ++ replying msg ∷ back }
        → Step s s'
    replies :
        (front back : List Phase) (msg : Message)
        → s.workers ≡ front ++ replying msg ∷ back
        → s' ≡ record { sems = s.sems; workers = front ++ idle ∷ back }
        → Step s s'
    quits :
        (front back : List Phase) (msg : Message)
        → s.workers ≡ front ++ asked msg ∷ back
        → is_quit msg.op ≡ true
        → s' ≡ record { sems = s.sems; workers = front ++ stopped ∷ back }
        → Step s s'

  pub data Reach (s : System) : System → Type 0 where
    here : Reach s s
    next : {t u : System} → Reach s t → Step t u → Reach s u
