-- ===== src/Shell/Process/Descriptors.antt =====
-- p4: what `dup2` and `close` leave of a table of descriptors.
use sphere_multithreading_cp.Prelude.{
  ==_refl, Bool-cases, Option, Option-cases, arith, inl, inr, none, refl, some, ℕ, ◌==◌, ◌∙◌, ◌≡◌,
  ◌≢◌, ◌≤◌, ◌⊎◌,
}
use sphere_multithreading_cp.Table.{update}
use sphere_multithreading_cp.Shell.Process.{File, write_end, Fds, dup2, redirect}

pub update-same : {A : Type 0} (t : ℕ → A) (i : ℕ) (a : A) → update t i a i ≡ a
update-same t i a = rw (==_refl i) refl

pub update-other : {A : Type 0} (t : ℕ → A) (i j : ℕ) (a : A) → j ≢ i → update t i a j ≡ t j
update-other t i j a h = elim (Bool-cases (j == i)) [
  | inl e ↦ absurd (h (ground arith))
  | inr e ↦ rw e refl
]

pub update-cases :
    {A : Type 0} (t : ℕ → A) (i j : ℕ) (a b : A)
    → update t i a j ≡ b
    → ((j ≡ i) × (a ≡ b)) ⊎ ((j ≢ i) × (t j ≡ b))
update-cases t i j a b h = elim (Bool-cases (j == i)) [
  | inl e ↦ inl (ground arith, rw e at h)
  | inr e ↦ inr (ground arith, rw e at h)
]

pub redirect-to :
    (t : Fds) (fd d : ℕ) (f : File) → t fd ≡ some f → d ≢ fd → redirect (some fd) d t d ≡ some f
redirect-to t fd d f e h =
    update-other (dup2 fd d t) fd d none h ∙ rw (dup2, e) (update-same t d (some f))

pub redirect-other : (t : Fds) (fd d x : ℕ) → x ≢ d → x ≢ fd → redirect (some fd) d t x ≡ t x
redirect-other t fd d x h h' =
    update-other (dup2 fd d t) fd x none h' ∙ elim (Option-cases (t fd)) [
      | inl e ↦ rw (dup2, e) refl
      | inr (f, e) ↦ rw (dup2, e) (update-other t d x (some f) h)
    ]

-- The ends for writing that a table has are those of the pipes from number `k` on.
abbrev pub From : ℕ → Fds → Type 0
From k t = (d j : ℕ) → t d ≡ some (write_end j) → k ≤ j

pub redirect-From : (k : ℕ) (t : Fds) (o : Option ℕ) (d : ℕ) → From k t → From k (redirect o d t)
redirect-From k t none d h x j e = h x j e
redirect-From k t (some fd) d h x j e =
    elim (update-cases (dup2 fd d t) fd x none (some (write_end j)) e) [
      | inl (q, y) ↦ cc
      | inr (ne, e') ↦ elim (Option-cases (t fd)) [
        | inl n ↦ h x j (rw (dup2, n) at e')
        | inr (f, y) ↦
            elim (update-cases t d x (some f) (some (write_end j)) (rw (dup2, y) at e')) [
              | inl (q, z) ↦ h fd j (y ∙ z)
              | inr (q, z) ↦ h x j z
            ]
      ]
    ]
