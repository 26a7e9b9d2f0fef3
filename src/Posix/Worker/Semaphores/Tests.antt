-- ===== src/Posix/Worker/Semaphores/Tests.antt =====
-- p6: the cleaner and a worker are in section 3, and a second worker comes in.
use sphere_multithreading_cp.Prelude.{[], arith, inl, refl, ◌++◌, ◌∷◌, ◌≡◌}
use sphere_multithreading_cp.Table.{update}
use sphere_multithreading_cp.Posix.Worker.{sem_down}
use sphere_multithreading_cp.Posix.Worker.Semaphores.{
  outside, inside, System, new_system, Step, cleans, enters, Reach, here, next, worker-goes_on,
}

abbrev cleaning : System
cleaning = record new_system { sems = update new_system.sems 3 0; cleaner = inside 3 }

abbrev shared : System
shared = record cleaning {
  sems = update cleaning.sems 3 1;
  workers = inside 3 ∷ outside ∷ outside ∷ outside ∷ [];
}

reached : Reach new_system shared
unfolding sem_down
reached =
    next (next here (cleans 3 cleaning.sems refl refl refl))
      (enters 3 [] (outside ∷ outside ∷ outside ∷ []) shared.sems refl refl refl)

worker-goes_on_example :
    (s' : System) × Step shared s'
    × (s'.workers ≡ (inside 3 ∷ []) ++ inside 3 ∷ outside ∷ outside ∷ [])
worker-goes_on_example =
    worker-goes_on 3 (inside 3 ∷ []) outside (outside ∷ outside ∷ []) reached (omega arith) refl
      (inl refl)
