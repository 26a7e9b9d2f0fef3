-- ===== src/Sort/Slices.antt =====
-- Parts of an array as lists, and what `memcpy` and the copies of `merge` do to them.
use sphere_multithreading_cp.Prelude.{
  Bool-cases, List, [], ap, arith, false, inl, inr, leb, ltb, refl, suc, true, zero, ℕ, ◌&&◌, ◌++◌,
  ◌+◌, ◌-◌, ◌<◌, ◌==◌, ◌∙◌, ◌∷◌, ◌≡◌, ◌≤◌, ◌⊎◌,
}
use sphere_multithreading_cp.Sort.{Cursor, memcpy, copy_left, copy_right}

module _ {A : Type 0} where
  -- The elements from a position on.
  unfoldable pub slice : (ℕ → A) → ℕ → ℕ → List A
  slice a i zero = []
  slice a i (suc n) = a i ∷ slice a (i + 1) n

  pub slice-same :
      (a b : ℕ → A) (i j n : ℕ)
      → ((x : ℕ) → x < n → a (i + x) ≡ b (j + x))
      → slice a i n ≡ slice b j n
  unfolding slice
  slice-same a b i j zero h = refl
  slice-same a b i j (suc n) h =
      let first : a i ≡ b j = ground (arith, h 0 (omega arith)) in
      rw (first, slice-same a b (i + 1) (j + 1) n (λ x l. ground (arith, h (x + 1) (omega arith))))

  pub slice-append : (a : ℕ → A) (i p q : ℕ) → slice a i (p + q) ≡ slice a i p ++ slice a (i + p) q
  unfolding slice
  slice-append a i zero q = ground arith
  slice-append a i (suc p) q = grind (arith, slice-append a (i + 1) p q)

  memcpy-inside :
      (dst src : ℕ → A) (to from n x : ℕ)
      → x < n
      → memcpy dst to src from n (to + x) ≡ src (from + x)
  unfolding memcpy
  memcpy-inside dst src to from n x l =
      let inside : leb to (to + x) && ltb (to + x) (to + n) ≡ true = ground arith in
      rw inside (ap (λ y. src (from + y)) (omega arith))

  pub memcpy-outside :
      (dst src : ℕ → A) (to from n x : ℕ)
      → (x < to) ⊎ (to + n ≤ x)
      → memcpy dst to src from n x ≡ dst x
  unfolding memcpy
  memcpy-outside dst src to from n x (inl l) = ground arith
  memcpy-outside dst src to from n x (inr l) = ground arith

  pub memcpy-slice :
      (dst src : ℕ → A) (to from n : ℕ) → slice (memcpy dst to src from n) to n ≡ slice src from n
  memcpy-slice dst src to from n = slice-same _ src to from n (memcpy-inside dst src to from n)

  -- `d` has the `n` elements from `from` on behind what `c` has.
  pub record Copied (a : ℕ → A) (from n : ℕ) (c d : Cursor A) : Type 0 where
    pub count : d.k ≡ c.k + n
    pub keeps : (x : ℕ) → x < c.k → d.tmp x ≡ c.tmp x
    pub same : slice d.tmp c.k n ≡ slice a from n

  none-Copied : (a : ℕ → A) (from : ℕ) (c : Cursor A) → Copied a from 0 c c
  unfolding slice
  none-Copied a from c = record { count = omega arith; keeps = λ x l. refl; same = refl }

  some-Copied :
      (a : ℕ → A) (from n : ℕ) (c : Cursor A)
      → Copied a from n c (record c { tmp = memcpy c.tmp c.k a from n; k = c.k + n })
  some-Copied a from n c = record {
    count = refl;
    keeps = λ x l. memcpy-outside c.tmp a c.k from n x (inl l);
    same = memcpy-slice c.tmp a c.k from n;
  }

  copy_left-Copied :
      (m p : ℕ) (a : ℕ → A) (c : Cursor A) → c.i + p ≡ m + 1 → Copied a c.i p c (copy_left m a c)
  unfolding copy_left
  copy_left-Copied m zero a c e =
      let none_left : m + 1 - c.i ≡ 0 = omega arith in rw none_left (none-Copied a c.i c)
  copy_left-Copied m (suc p) a c e =
      let some_left : m + 1 - c.i ≡ suc p = omega arith in
      let more : (suc p == 0) ≡ false = ground arith in
      rw (some_left, more) (some-Copied a c.i (suc p) c)

  copy_right-Copied :
      (r q : ℕ) (a : ℕ → A) (c : Cursor A) → c.j + q ≡ r + 1 → Copied a c.j q c (copy_right r a c)
  unfolding copy_right
  copy_right-Copied r zero a c e =
      let none_left : r + 1 - c.j ≡ 0 = omega arith in rw none_left (none-Copied a c.j c)
  copy_right-Copied r (suc q) a c e =
      let some_left : r + 1 - c.j ≡ suc q = omega arith in
      let more : (suc q == 0) ≡ false = ground arith in
      rw (some_left, more) (some-Copied a c.j (suc q) c)

  copy_left_none : (m : ℕ) (a : ℕ → A) (c : Cursor A) → c.i ≡ m + 1 → copy_left m a c ≡ c
  unfolding copy_left
  copy_left_none m a c e = let none_left : m + 1 - c.i ≡ 0 = omega arith in rw none_left refl

  copy_right_none : (r : ℕ) (a : ℕ → A) (c : Cursor A) → c.j ≡ r + 1 → copy_right r a c ≡ c
  unfolding copy_right
  copy_right_none r a c e = let none_left : r + 1 - c.j ≡ 0 = omega arith in rw none_left refl

  copy_left-j : (m : ℕ) (a : ℕ → A) (c : Cursor A) → (copy_left m a c).j ≡ c.j
  unfolding copy_left
  copy_left-j m a c = elim (Bool-cases (m + 1 - c.i == 0)) [ inl h ↦ rw h refl | inr h ↦ rw h refl ]

  unfoldable pub finish : (m r : ℕ) → (ℕ → A) → Cursor A → Cursor A
  finish m r a c = copy_right r a (copy_left m a c)

  pub finish_left :
      (m r q : ℕ) (a : ℕ → A) (c : Cursor A)
      → c.i ≡ m + 1
      → c.j + q ≡ r + 1
      → Copied a c.j q c (finish m r a c)
  unfolding finish
  finish_left m r q a c e f = rw (copy_left_none m a c e) (copy_right-Copied r q a c f)

  pub finish_right :
      (m r p : ℕ) (a : ℕ → A) (c : Cursor A)
      → c.i + p ≡ m + 1
      → c.j ≡ r + 1
      → Copied a c.i p c (finish m r a c)
  unfolding finish
  finish_right m r p a c e f =
      rw (copy_right_none r a (copy_left m a c) (copy_left-j m a c ∙ f))
        (copy_left-Copied m p a c e)
