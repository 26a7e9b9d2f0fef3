-- ===== src/Posix/Worker/Semaphores.antt =====
-- p6: the semaphores of the sections between the workers (`execute_query` of p6/Worker.cpp) and the
-- cleaner (`HashTableCleaner::clean` of p6/main.cpp), which all run side by side.
mod Tests
use sphere_multithreading_cp.Prelude.{
  ==_refl, Bool-cases, List, Result, [], ap, arith, err, false, if◌then◌else◌, inl, inr, ltb, ok,
  refl, sym, true, ℕ, ◌++◌, ◌+◌, ◌-◌, ◌<◌, ◌==◌, ◌>>=◌, ◌∙◌, ◌∷◌, ◌≡◌, ◌≢◌, ◌≤◌, ◌⊎◌,
}
use sphere_multithreading_cp.Table.{update}
use sphere_multithreading_cp.Posix.Worker.{Halt, num_sections, sem_post, sem_wait, sem_up, sem_down}

-- Where a process is: in a section behind its first call for the semaphore, or not.
pub data Place : Type 0 where
  outside : Place
  inside : ℕ → Place

pub record System : Type 0 where
  pub sems : ℕ → ℕ
  pub workers : List Place
  pub cleaner : Place

-- Four workers, and semaphores that `create_semaphors` opens with 1.
abbrev pub new_system : System
new_system = record {
  sems = λ i. 1;
  workers = outside ∷ outside ∷ outside ∷ outside ∷ [];
  cleaner = outside;
}

-- A step of one process, while the others stand still.
pub data Step (s s' : System) : Type 0 where
  enters :
      (i : ℕ) (front back : List Place) (sems : ℕ → ℕ)
      → s.workers ≡ front ++ outside ∷ back
      → sem_down i s.sems ≡ ok sems
      → s' ≡ record s { sems = sems; workers = front ++ inside i ∷ back }
      → Step s s'
  leaves :
      (i : ℕ) (front back : List Place) (sems : ℕ → ℕ)
      → s.workers ≡ front ++ inside i ∷ back
      → sem_up i s.sems ≡ ok sems
      → s' ≡ record s { sems = sems; workers = front ++ outside ∷ back }
      → Step s s'
  cleans :
      (i : ℕ) (sems : ℕ → ℕ)
      → s.cleaner ≡ outside
      → sem_wait i s.sems ≡ ok sems
      → s' ≡ record s { sems = sems; cleaner = inside i }
      → Step s s'
  cleaned :
      (i : ℕ) (sems : ℕ → ℕ)
      → s.cleaner ≡ inside i
      → sem_post i s.sems ≡ ok sems
      → s' ≡ record s { sems = sems; cleaner = outside }
      → Step s s'

pub data Reach (s : System) : System → Type 0 where
  here : Reach s s
  next : {t u : System} → Reach s t → Step t u → Reach s u

abbrev in_section : ℕ → Place → ℕ
in_section i outside = 0
in_section i (inside j) = if j == i then 1 else 0

abbrev held : ℕ → List Place → ℕ
held i [] = 0
held i (p ∷ ps) = in_section i p + held i ps

held-middle :
    (i : ℕ) (front : List Place) (p : Place) (back : List Place)
    → held i (front ++ p ∷ back) ≡ in_section i p + (held i front + held i back)
held-middle i [] p back = omega arith
held-middle i (q ∷ front) p back = omega (arith, held-middle i front p back)

ok-injective : (a b : ℕ → ℕ) → ◌≡◌ {A = Result Halt (ℕ → ℕ)} (ok a) (ok b) → a ≡ b
ok-injective a b h = cc

ok-ne-err : {e : Halt} (a : ℕ → ℕ) → ◌≢◌ {A = Result Halt (ℕ → ℕ)} (ok a) (err e)
ok-ne-err a h = cc

post-count :
    (h : ℕ) (s s' : ℕ → ℕ) (i : ℕ) → sem_post h s ≡ ok s' → s' i ≡ s i + in_section i (inside h)
post-count h s s' i e = elim (Bool-cases (ltb h num_sections)) [
  | inr away ↦ absurd (ok-ne-err s' (sym (rw away at e)))
  | inl there ↦
      let new : update s h (s h + 1) ≡ s' = ok-injective _ s' (rw there at e) in
      rw (← new) (elim (Bool-cases (h == i)) [
        | inl y ↦ let same : h ≡ i = ground arith in rw (same, ==_refl i) refl
        | inr y ↦ ground arith
      ])
]

wait-count :
    (h : ℕ) (s s' : ℕ → ℕ) (i : ℕ) → sem_wait h s ≡ ok s' → s' i + in_section i (inside h) ≡ s i
wait-count h s s' i e = elim (Bool-cases (ltb h num_sections)) [
  | inr away ↦ absurd (ok-ne-err s' (sym (rw away at e)))
  | inl there ↦ elim (Bool-cases (s h == 0)) [
    | inl spent ↦ absurd (ok-ne-err s' (sym (rw (there, spent) at e)))
    | inr more ↦
        let new : update s h (s h - 1) ≡ s' = ok-injective _ s' (rw (there, more) at e) in
        rw (← new) (elim (Bool-cases (h == i)) [
          | inl y ↦
              let same : h ≡ i = ground arith in rw (same, ==_refl i) (ground (arith, ap s same))
          | inr y ↦ ground arith
        ])
  ]
]

-- A worker gives the semaphore what the cleaner takes from it.
Balanced : System → Type 0
Balanced s = (i : ℕ) → s.sems i + in_section i s.cleaner ≡ 1 + held i s.workers

-- One worker goes on, and the semaphores make up for it.
moved :
    (s : System) (i : ℕ) (front : List Place) (p p' : Place) (back : List Place) (sems : ℕ → ℕ)
    → s.workers ≡ front ++ p ∷ back
    → sems i + in_section i p ≡ s.sems i + in_section i p'
    → s.sems i + in_section i s.cleaner ≡ 1 + held i s.workers
    → sems i + in_section i s.cleaner ≡ 1 + held i (front ++ p' ∷ back)
moved s i front p p' back sems e k b =
    let before : s.sems i + in_section i s.cleaner
        ≡ 1 + (in_section i p + (held i front + held i back)) =
      rw (e, held-middle i front p back) at b in
    rw (held-middle i front p' back) (omega arith)

Step-Balanced : {s s' : System} → Step s s' → Balanced s → Balanced s'
unfolding Balanced sem_down sem_up
Step-Balanced {s} {s'} (enters h front back sems e d f) b i = rw f (
    moved s i front outside (inside h) back sems e (omega (arith, post-count h s.sems sems i d))
      (b i))
Step-Balanced {s} {s'} (leaves h front back sems e d f) b i = rw f (
    moved s i front (inside h) outside back sems e (omega (arith, wait-count h s.sems sems i d))
      (b i))
Step-Balanced {s} {s'} (cleans h sems e d f) b i =
    let before : s.sems i + 0 ≡ 1 + held i s.workers = rw e at (b i) in
    rw f (omega (arith, wait-count h s.sems sems i d))
Step-Balanced {s} {s'} (cleaned h sems e d f) b i =
    let before : s.sems i + in_section i (inside h) ≡ 1 + held i s.workers = rw e at (b i) in
    rw f (omega (arith, post-count h s.sems sems i d))

Reach-Balanced : {s : System} → Reach new_system s → Balanced s
unfolding Balanced
Reach-Balanced here = λ i. refl
Reach-Balanced (next r st) = Step-Balanced st (Reach-Balanced r)

-- Where a worker goes from a place, if it goes into the section `i`.
abbrev pub on : ℕ → Place → Place
on i outside = inside i
on i (inside j) = outside

in_section-le : (i : ℕ) (p : Place) → in_section i p ≤ 1
in_section-le i outside = omega arith
in_section-le i (inside j) = ground arith

inside-ne-outside : (j : ℕ) → inside j ≢ outside
inside-ne-outside j h = cc

-- The semaphores hold no worker back: as long as a section has one, a worker that is outside can
-- enter it, whoever is inside, the cleaner too; and a worker that is inside can leave.
pub worker-goes_on :
    {s : System} (i : ℕ) (front : List Place) (p : Place) (back : List Place)
    → Reach new_system s
    → i < num_sections
    → s.workers ≡ front ++ p ∷ back
    → (p ≡ outside) ⊎ (p ≡ inside i)
    → (s' : System) × Step s s' × (s'.workers ≡ front ++ on i p ∷ back)
unfolding sem_down sem_up Balanced
worker-goes_on {s} i front outside back r l e h =
    let there : ltb i num_sections ≡ true = ground arith in
    let sems : ℕ → ℕ = update s.sems i (s.sems i + 1) in
    (
      record s { sems = sems; workers = front ++ inside i ∷ back },
      enters i front back sems e (rw there) refl,
      refl,
    )
worker-goes_on {s} i front (inside j) back r l e (inl h) = absurd (inside-ne-outside j h)
worker-goes_on {s} i front (inside j) back r l e (inr h) =
    let at_i : s.workers ≡ front ++ inside i ∷ back = e ∙ ap (λ p. front ++ p ∷ back) h in
    let there : ltb i num_sections ≡ true = ground arith in
    let count : held i s.workers ≡ in_section i (inside i) + (held i front + held i back) =
      rw at_i (held-middle i front (inside i) back) in
    let more : (s.sems i == 0) ≡ false =
      ground (arith, Reach-Balanced r i, in_section-le i s.cleaner, count, ==_refl i) in
    let sems : ℕ → ℕ = update s.sems i (s.sems i - 1) in
    (
      record s { sems = sems; workers = front ++ outside ∷ back },
      leaves i front back sems at_i (rw (there, more)) refl,
      refl,
    )
