-- ===== src/Posix/Cleaner.antt =====
-- p6: `HashTableCleaner` of p6/main.cpp, which frees the expired nodes of the table. The clock gives
-- `now` throughout a pass.
pub mod Sweep
pub mod Laws
use sphere_multithreading_cp.Prelude.{
  Option, Result, err, false, if◌then◌else◌, ltb, none, ok, some, suc, true, zero, ℕ, ℤ, ◌&&◌, ◌+◌,
  ◌/◌, ◌==◌, ◌>>=◌,
}
use sphere_multithreading_cp.Table.{NodePtr, buffer_size, get_next, set_node_free}
use sphere_multithreading_cp.Posix.{Store, is_expired}
use sphere_multithreading_cp.Posix.Worker.{Halt, endless, num_sections, sem_post, sem_wait}

-- The `while` over a bucket; `none` means that the fuel ran out.
pub clean_chain : ℕ → ℤ → NodePtr → Store → Option Store
clean_chain fuel now none t = some t
clean_chain zero now (some i) t = none
clean_chain (suc fuel) now (some i) t =
    clean_chain fuel now (get_next (some i) t.p_data)
      (if is_expired now (t.p_data i).stored then set_node_free i t else t)

-- The inner `for`, with the position `i` that it ends at.
pub clean_section : ℕ → ℤ → (j i : ℕ) → Store → Option (ℕ × Store)
clean_section zero now j i t = none
clean_section (suc fuel) now j i t = elim ((i / num_sections == j) && ltb i num_sections) [
  | false ↦ some (i, t)
  | true ↦ elim (clean_chain buffer_size now (t.p_table i) t) [
    | none ↦ none
    | some t' ↦ clean_section fuel now j (i + 1) t'
  ]
]

-- The outer `for`, with so many sections left.
pub clean_from : ℕ → ℤ → (j i : ℕ) → (ℕ → ℕ) → Store → Result Halt ((ℕ → ℕ) × Store)
clean_from zero now j i sems t = ok (sems, t)
clean_from (suc left) now j i sems t = sem_wait j sems >>= λ sems'.
    elim (clean_section (num_sections + 1) now j i t) [
      | none ↦ err endless
      | some (i', t') ↦ sem_post j sems' >>= λ sems''. clean_from left now (j + 1) i' sems'' t'
    ]

pub clean : ℤ → (ℕ → ℕ) → Store → Result Halt ((ℕ → ℕ) × Store)
clean now sems t = clean_from num_sections now 0 0 sems t
