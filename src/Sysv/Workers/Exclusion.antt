-- ===== src/Sysv/Workers/Exclusion.antt =====
-- Who is inside a section of the table at once.
use sphere_multithreading_cp.Prelude.{
  ==_refl, All, Bool, Bool-cases, List, [], arith, false, inl, inr, not, refl, some, true, ℕ, ℤ,
  ◌&&◌, ◌++◌, ◌+◌, ◌<◌, ◌==◌, ◌∙◌, ◌∷◌, ◌≡◌,
}
use sphere_multithreading_cp.Sysv.Protocol.{
  OpType, get_op, set_op, del_op, quit_op, Message, num_workers, num_sections, sem_down,
}
use sphere_multithreading_cp.Sysv.Workers.{
  semop, Phase, idle, stopped, asked, inside, replying, System, units, is_quit, new_system, section,
  Reach,
}
use sphere_multithreading_cp.Sysv.Workers.Units.{
  held-append, held-middle, Reach-Balanced, down-enough, load, held, Balanced,
}

module _ (hash_int : ℤ → ℕ) where
  units_zero : (op : OpType) → units op ≡ 0 → is_quit op ≡ true
  unfolding units
  units_zero get_op h = absurd (omega arith)
  units_zero set_op h = absurd (omega arith)
  units_zero del_op h = absurd (omega arith)
  units_zero quit_op h = refl

  units_quit : (op : OpType) → is_quit op ≡ true → units op ≡ 0
  unfolding units
  units_quit get_op h = cc
  units_quit set_op h = cc
  units_quit del_op h = cc
  units_quit quit_op h = refl

  -- The worker is on a section of the table with an operation of a client.
  unfoldable pub works_in : ℕ → Phase → Bool
  works_in i idle = false
  works_in i stopped = false
  works_in i (asked msg) = false
  works_in i (inside msg) = (section hash_int msg == i) && not (is_quit msg.op)
  works_in i (replying msg) = false

  load-works_in : (i : ℕ) (p : Phase) → load hash_int i p ≡ 0 → works_in i p ≡ false
  unfolding load works_in
  load-works_in i idle h = refl
  load-works_in i stopped h = refl
  load-works_in i (asked msg) h = refl
  load-works_in i (inside msg) h = elim (Bool-cases (section hash_int msg == i)) [
    | inl y ↦ rw (y, units_zero msg.op (rw y at h)) refl
    | inr y ↦ rw y refl
  ]
  load-works_in i (replying msg) h = refl

  works_in-load : (i : ℕ) (p : Phase) → works_in i p ≡ false → load hash_int i p ≡ 0
  unfolding load works_in
  works_in-load i idle h = refl
  works_in-load i stopped h = refl
  works_in-load i (asked msg) h = refl
  works_in-load i (inside msg) h = elim (Bool-cases (section hash_int msg == i)) [
    | inl y ↦ rw y (units_quit msg.op (ground (arith, rw y at h)))
    | inr y ↦ rw y refl
  ]
  works_in-load i (replying msg) h = refl

  held-none :
      (i : ℕ) (ps : List Phase) → held hash_int i ps ≡ 0 → All (λ p. works_in i p ≡ false) ps
  unfolding held
  held-none i [] h = tt
  held-none i (p ∷ ps) h = (load-works_in i p (omega arith), held-none i ps (omega arith))

  none-held :
      (i : ℕ) (ps : List Phase) → All (λ p. works_in i p ≡ false) ps → held hash_int i ps ≡ 0
  unfolding held
  none-held i [] h = refl
  none-held i (p ∷ ps) h = omega (arith, works_in-load i p h.0, none-held i ps h.1)

  -- While one worker sets or deletes a key, no other is on the section of the key, if the section has a
  -- semaphore: there are eight, for sections 0 to 7.
  pub writer-alone :
      {s : System}
      → Reach hash_int new_system s
      → (front back : List Phase) (msg : Message) → s.workers ≡ front ++ inside msg ∷ back
      → section hash_int msg < num_sections
      → units msg.op ≡ num_workers
      → All (λ p. works_in (section hash_int msg) p ≡ false) (front ++ back)
  unfolding load Balanced
  writer-alone {s} r front back msg e l u =
      let i = section hash_int msg in
      let own : load hash_int i (inside msg) ≡ num_workers = rw (==_refl i, u) refl in
      let all : s.sems i
            + (load hash_int i (inside msg) + (held hash_int i front + held hash_int i back))
          ≡ num_workers =
        rw (e, held-middle hash_int i front (inside msg) back) at (Reach-Balanced hash_int r i l) in
      held-none i (front ++ back) (held-append hash_int i front back ∙ omega (arith, own, all))

  sem_full :
      {s : System}
      → Reach hash_int new_system s
      → (i : ℕ) (front back : List Phase) (msg : Message) → i < num_sections
      → s.workers ≡ front ++ asked msg ∷ back
      → All (λ p. works_in i p ≡ false) (front ++ back)
      → s.sems i ≡ num_workers
  unfolding load Balanced
  sem_full {s} r i front back msg l e h =
      let none_in = held-append hash_int i front back in
      let zero_in = none-held i (front ++ back) h in
      let all : s.sems i
            + (load hash_int i (asked msg) + (held hash_int i front + held hash_int i back))
          ≡ num_workers =
        rw (e, held-middle hash_int i front (asked msg) back) at (Reach-Balanced hash_int r i l) in
      omega (arith, none_in, zero_in, all)

  -- A worker does not wait for a section that no other worker is on.
  pub sem_down-free :
      {s : System}
      → Reach hash_int new_system s
      → (front back : List Phase) (msg : Message) → s.workers ≡ front ++ asked msg ∷ back
      → All (λ p. works_in (section hash_int msg) p ≡ false) (front ++ back)
      → (sems : ℕ → ℕ) × (sem_down hash_int semop (section hash_int msg) (units msg.op) s.sems
          ≡ some sems)
  sem_down-free {s} r front back msg e h =
      down-enough hash_int (section hash_int msg) msg.op s.sems
        (λ l. sem_full r (section hash_int msg) front back msg l e h)
