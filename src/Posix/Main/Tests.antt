-- ===== src/Posix/Main/Tests.antt =====
-- p6: a server with two children is told to end.
use sphere_multithreading_cp.Prelude.{
  Bool-cases, Option, [], arith, false, if◌then◌else◌, inl, inr, ltb, none, refl, some, ℕ, ◌∷◌, ◌≡◌,
  ◌≤◌,
}
use sphere_multithreading_cp.Kernel.{Call, Trace, exec, wait}
use sphere_multithreading_cp.Posix.Server.{Server}
use sphere_multithreading_cp.Posix.Main.{positive, handle_in_server}
use sphere_multithreading_cp.Posix.Main.Cleans.{waited, Cleaned, handle_in_server-Cleaned}

abbrev os0 : Trace → Call → Option ℕ
os0 tr wait = if ltb (waited tr) 2 then some 8 else none
os0 tr c = some 1

abbrev server0 : Server
server0 = record { master_socket = 3; master_fd = 4; fd_passing_writers = 5 ∷ 6 ∷ [] }

two_children : (t : Trace) → 2 ≤ waited t → positive (os0 t wait) ≡ false
two_children t l = elim (Bool-cases (ltb (waited t) 2)) [
  | inl e ↦ absurd (ground arith)
  | inr e ↦ rw (os0, e) refl
]

handle_in_server-Cleaned_example :
    Cleaned 15 (8 ∷ 9 ∷ []) [] (exec os0 (handle_in_server 3 15 (8 ∷ 9 ∷ []) server0) [])
handle_in_server-Cleaned_example =
    handle_in_server-Cleaned os0 15 (8 ∷ 9 ∷ []) server0 [] (omega arith) two_children
