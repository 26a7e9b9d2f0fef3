-- ===== src/Sysv/Workers/Units.antt =====
-- The units of the semaphores: what the workers hold and what is left make up `NUM_WORKERS`.
use mathlib.Core.Option.{some-injective, some-ne-none}
use sphere_multithreading_cp.Prelude.{
  ==_refl, Bool-cases, List, [], ap, arith, false, if◌then◌else◌, inl, inr, leb, ltb, negsuc, pos,
  refl, some, suc, sym, true, ℕ, ℤ, ◌++◌, ◌+◌, ◌-◌, ◌<◌, ◌==◌, ◌∙◌, ◌∷◌, ◌≡◌,
}
use sphere_multithreading_cp.Table.{update}
use sphere_multithreading_cp.Sysv.Protocol.{
  OpType, get_op, set_op, del_op, quit_op, num_workers, num_sections, sem_up, sem_down,
}
use sphere_multithreading_cp.Sysv.Workers.{
  semop, Phase, idle, stopped, asked, inside, replying, System, units, is_quit, new_system, section,
  Step, receives, enters, leaves, replies, quits, Reach, here, next,
}

semop-take :
    (h k : ℕ) (s s' : ℕ → ℕ) (i : ℕ)
    → i < num_sections
    → semop h (negsuc k) s ≡ some s'
    → s' i + (if h == i then suc k else 0) ≡ s i
unfolding semop
semop-take h k s s' i l e = elim (Bool-cases (ltb h num_sections)) [
  | inl there ↦ elim (Bool-cases (leb (suc k) (s h))) [
    | inl enough ↦
        let new : update s h (s h - suc k) ≡ s' =
          some-injective (update s h (s h - suc k)) s' (rw (there, enough) at e) in
        rw (← new) (elim (Bool-cases (h == i)) [
          | inl y ↦
              let same : h ≡ i = ground arith in rw (same, ==_refl i) (ground (arith, ap s same))
          | inr y ↦ ground arith
        ])
    | inr short ↦ absurd (some-ne-none s' (sym (rw (there, short) at e)))
  ]
  | inr away ↦
      let new : s ≡ s' = some-injective s s' (rw away at e) in
      let other : (h == i) ≡ false = ground arith in rw (← new, other) (omega arith)
]

semop-give :
    (h c : ℕ) (s s' : ℕ → ℕ) (i : ℕ)
    → i < num_sections
    → semop h (pos c) s ≡ some s'
    → s' i ≡ s i + (if h == i then c else 0)
unfolding semop
semop-give h c s s' i l e = elim (Bool-cases (ltb h num_sections)) [
  | inl there ↦
      let new : update s h (s h + c) ≡ s' =
        some-injective (update s h (s h + c)) s' (rw there at e) in
      rw (← new) (elim (Bool-cases (h == i)) [
        | inl y ↦ let same : h ≡ i = ground arith in rw (same, ==_refl i) refl
        | inr y ↦ ground arith
      ])
  | inr away ↦
      let new : s ≡ s' = some-injective s s' (rw away at e) in
      let other : (h == i) ≡ false = ground arith in rw (← new, other) (omega arith)
]

semop-enough :
    (h k : ℕ) (s : ℕ → ℕ)
    → (h < num_sections → k < s h)
    → (s' : ℕ → ℕ) × (semop h (negsuc k) s ≡ some s')
unfolding semop
semop-enough h k s more = elim (Bool-cases (ltb h num_sections)) [
  | inl there ↦
      let enough : leb (suc k) (s h) ≡ true = ground (arith, more (ground arith)) in
      rw (there, enough) (update s h (s h - suc k), refl)
  | inr away ↦ rw away (s, refl)
]

module _ (hash_int : ℤ → ℕ) where
  -- The units of a section that a worker holds.
  unfoldable pub load : ℕ → Phase → ℕ
  load i idle = 0
  load i stopped = 0
  load i (asked msg) = 0
  load i (inside msg) = if section hash_int msg == i then units msg.op else 0
  load i (replying msg) = 0

  unfoldable pub held : ℕ → List Phase → ℕ
  held i [] = 0
  held i (p ∷ ps) = load i p + held i ps

  pub held-append : (i : ℕ) (ps qs : List Phase) → held i (ps ++ qs) ≡ held i ps + held i qs
  unfolding held
  held-append i [] qs = omega arith
  held-append i (p ∷ ps) qs = omega (arith, held-append i ps qs)

  pub held-middle :
      (i : ℕ) (front : List Phase) (p : Phase) (back : List Phase)
      → held i (front ++ p ∷ back) ≡ load i p + (held i front + held i back)
  unfolding held
  held-middle i front p back = omega (arith, held-append i front (p ∷ back))

  -- No unit is lost.
  unfoldable pub Balanced : System → Type 0
  Balanced s = (i : ℕ) → i < num_sections → s.sems i + held i s.workers ≡ num_workers

  sem_down-units :
      (h : ℕ) (op : OpType) (s s' : ℕ → ℕ) (i : ℕ)
      → i < num_sections
      → is_quit op ≡ false
      → sem_down hash_int semop h (units op) s ≡ some s'
      → s' i + (if h == i then units op else 0) ≡ s i
  unfolding sem_down units
  sem_down-units h get_op s s' i l q e = semop-take h 0 s s' i l e
  sem_down-units h set_op s s' i l q e = semop-take h 3 s s' i l e
  sem_down-units h del_op s s' i l q e = semop-take h 3 s s' i l e
  sem_down-units h quit_op s s' i l q e = cc

  pub down-enough :
      (h : ℕ) (op : OpType) (s : ℕ → ℕ)
      → (h < num_sections → s h ≡ num_workers)
      → (s' : ℕ → ℕ) × (sem_down hash_int semop h (units op) s ≡ some s')
  unfolding sem_down units semop
  down-enough h get_op s full = semop-enough h 0 s (λ l. omega (arith, full l))
  down-enough h set_op s full = semop-enough h 3 s (λ l. omega (arith, full l))
  down-enough h del_op s full = semop-enough h 3 s (λ l. omega (arith, full l))
  down-enough h quit_op s full = elim (Bool-cases (ltb h num_sections)) [
    | inl there ↦ rw there (update s h (s h + 0), refl)
    | inr away ↦ rw away (s, refl)
  ]

  sem_up-units :
      (h : ℕ) (op : OpType) (s s' : ℕ → ℕ) (i : ℕ)
      → i < num_sections
      → sem_up hash_int semop h (units op) s ≡ some s'
      → s' i ≡ s i + (if h == i then units op else 0)
  unfolding sem_up
  sem_up-units h op s s' i l e = semop-give h (units op) s s' i l e

  -- One worker goes on, and the semaphores make up for what it takes or gives.
  moved :
      (s s' : System) (i : ℕ) (front : List Phase) (p p' : Phase) (back : List Phase) (sems : ℕ → ℕ)
      → s.workers ≡ front ++ p ∷ back
      → s' ≡ record { sems = sems; workers = front ++ p' ∷ back }
      → sems i + load i p' ≡ s.sems i + load i p
      → s.sems i + held i s.workers ≡ num_workers
      → s'.sems i + held i s'.workers ≡ num_workers
  moved s s' i front p p' back sems e f k b =
      let before : s.sems i + (load i p + (held i front + held i back)) ≡ num_workers =
        rw (e, held-middle i front p back) at b in
      rw (f, held-middle i front p' back) (omega arith)

  Step-Balanced : {s s' : System} → Step hash_int s s' → Balanced s → Balanced s'
  unfolding Balanced load
  Step-Balanced {s} {s'} (receives front back msg e f) b i l =
      moved s s' i front idle (asked msg) back s.sems e f refl (b i l)
  Step-Balanced {s} {s'} (enters front back msg sems e q d f) b i l =
      let h = sem_down-units (section hash_int msg) msg.op s.sems sems i l q d in
      moved s s' i front (asked msg) (inside msg) back sems e f (h ∙ omega arith) (b i l)
  Step-Balanced {s} {s'} (leaves front back msg sems e d f) b i l =
      let h = sem_up-units (section hash_int msg) msg.op s.sems sems i l d in
      moved s s' i front (inside msg) (replying msg) back sems e f (omega (arith, h)) (b i l)
  Step-Balanced {s} {s'} (replies front back msg e f) b i l =
      moved s s' i front (replying msg) idle back s.sems e f refl (b i l)
  Step-Balanced {s} {s'} (quits front back msg e q f) b i l =
      moved s s' i front (asked msg) stopped back s.sems e f refl (b i l)

  pub Reach-Balanced : {s : System} → Reach hash_int new_system s → Balanced s
  unfolding Balanced new_system held load
  Reach-Balanced here = λ i l. refl
  Reach-Balanced (next r st) = Step-Balanced st (Reach-Balanced r)
