-- ===== src/Sort/Merge.antt =====
-- `merge`: what it leaves in the array is a merge of the two sides.
use sphere_multithreading_cp.Prelude.{
  ==_refl, Bool, Bool-cases, List, [], arith, false, inl, inr, leb, refl, some, suc, true, zero, ℕ,
  ◌&&◌, ◌+◌, ◌-◌, ◌<◌, ◌∙◌, ◌∷◌, ◌≡◌, ◌≤◌, ◌⊎◌,
}
use sphere_multithreading_cp.Table.{update}
use sphere_multithreading_cp.Sort.{Cursor, memcpy, take_less, merge_loop, merge}
use sphere_multithreading_cp.Sort.Slices.{
  memcpy-slice, memcpy-outside, finish_left, finish_right, slice, finish, Copied,
}

module _ {A : Type 0} (less : A → A → Bool) where
  -- The outcomes of a merge of two lists: the first of the left one is taken if it is less.
  pub data Merged : List A → List A → List A → Type 0 where
    left_done : {ys : List A} → Merged [] ys ys
    right_done : {xs : List A} → Merged xs [] xs
    left :
        {x y : A} {xs ys zs : List A}
        → less x y ≡ true
        → Merged xs (y ∷ ys) zs
        → Merged (x ∷ xs) (y ∷ ys) (x ∷ zs)
    right :
        {x y : A} {xs ys zs : List A}
        → less x y ≡ false
        → Merged (x ∷ xs) ys zs
        → Merged (x ∷ xs) (y ∷ ys) (y ∷ zs)

  -- What `tmp` is to hold once `p` elements are left on one side and `q` on the other.
  record Filled (a : ℕ → A) (p q : ℕ) (c d : Cursor A) : Type 0 where
    count : d.k ≡ c.k + (p + q)
    keeps : (x : ℕ) → x < c.k → d.tmp x ≡ c.tmp x
    merged : Merged (slice a c.i p) (slice a c.j q) (slice d.tmp c.k (p + q))

  left_done-Filled : (a : ℕ → A) (q : ℕ) (c d : Cursor A) → Copied a c.j q c d → Filled a 0 q c d
  unfolding slice
  left_done-Filled a q c d h = record {
    count = ground (arith, h.count);
    keeps = h.keeps;
    merged = let e : 0 + q ≡ q = omega arith in rw (e, h.same) left_done;
  }

  right_done-Filled : (a : ℕ → A) (p : ℕ) (c d : Cursor A) → Copied a c.i p c d → Filled a p 0 c d
  unfolding slice
  right_done-Filled a p c d h = record {
    count = ground (arith, h.count);
    keeps = h.keeps;
    merged = let e : p + 0 ≡ p = omega arith in rw (e, h.same) right_done;
  }

  -- One element more in front.
  left-Filled :
      (a : ℕ → A) (p q : ℕ) (c d : Cursor A)
      → less (a c.i) (a c.j) ≡ true
      → Filled a p
          (suc q)
          (record { i = c.i + 1; j = c.j; k = c.k + 1; tmp = update c.tmp c.k (a c.i) })
          d
      → Filled a (suc p) (suc q) c d
  unfolding slice
  left-Filled a p q c d l h =
      let first : d.tmp c.k ≡ a c.i = h.keeps c.k (omega arith) ∙ rw (==_refl c.k) refl in
      let e : suc p + suc q ≡ suc (p + suc q) = omega arith in
      record {
        count = omega (arith, h.count);
        keeps = λ x u. ground (arith, h.keeps x (omega arith));
        merged = rw (e, first) (left l h.merged);
      }

  right-Filled :
      (a : ℕ → A) (p q : ℕ) (c d : Cursor A)
      → less (a c.i) (a c.j) ≡ false
      → Filled a
          (suc p)
          q
          (record { i = c.i; j = c.j + 1; k = c.k + 1; tmp = update c.tmp c.k (a c.j) })
          d
      → Filled a (suc p) (suc q) c d
  unfolding slice
  right-Filled a p q c d l h =
      let first : d.tmp c.k ≡ a c.j = h.keeps c.k (omega arith) ∙ rw (==_refl c.k) refl in
      let e : suc p + suc q ≡ suc (suc p + q) = omega arith in
      record {
        count = omega (arith, h.count);
        keeps = λ x u. ground (arith, h.keeps x (omega arith));
        merged = rw (e, first) (right l h.merged);
      }

  merge_loop-Filled :
      (fuel m r p q : ℕ) (a : ℕ → A) (c : Cursor A)
      → c.i + p ≡ m + 1
      → c.j + q ≡ r + 1
      → p + q < fuel
      → (c' : Cursor A) × (merge_loop less fuel m r a c ≡ some c')
        × Filled a p q c (finish m r a c')
  unfolding merge_loop take_less
  merge_loop-Filled zero m r p q a c e f n = absurd (omega arith)
  merge_loop-Filled (suc fuel) m r zero q a c e f n =
      let stop : leb c.i m && leb c.j r ≡ false = ground arith in
      rw stop
        (c, refl, left_done-Filled a q c (finish m r a c) (finish_left m r q a c (omega arith) f))
  merge_loop-Filled (suc fuel) m r (suc p) zero a c e f n =
      let stop : leb c.i m && leb c.j r ≡ false = ground arith in
      rw stop (
        c,
        refl,
        right_done-Filled a (suc p) c (finish m r a c)
            (finish_right m r (suc p) a c e (omega arith)),
      )
  merge_loop-Filled (suc fuel) m r (suc p) (suc q) a c e f n =
      let go_on : leb c.i m && leb c.j r ≡ true = ground arith in
      elim (Bool-cases (less (a c.i) (a c.j))) [
        | inl l ↦
            let (c', h, w) =
              merge_loop-Filled fuel m r p (suc q) a
                (record { i = c.i + 1; j = c.j; k = c.k + 1; tmp = update c.tmp c.k (a c.i) })
                (omega arith) f (omega arith) in
            rw (go_on, l) (c', h, left-Filled a p q c (finish m r a c') l w)
        | inr l ↦
            let (c', h, w) =
              merge_loop-Filled fuel m r (suc p) q a
                (record { i = c.i; j = c.j + 1; k = c.k + 1; tmp = update c.tmp c.k (a c.j) }) e
                (omega arith) (omega arith) in
            rw (go_on, l) (c', h, right-Filled a p q c (finish m r a c') l w)
      ]

  back :
      (a : ℕ → A) (d : Cursor A) (l n : ℕ)
      → d.k ≡ 0 + n
      → slice (memcpy a l d.tmp 0 d.k) l n ≡ slice d.tmp 0 n
  back a d l n e = let e' : d.k ≡ n = omega arith in rw e' (memcpy-slice a d.tmp l 0 n)

  -- `merge` leaves a merge of the two sides in their place, and the rest of the array as it was.
  pub merge-Merged :
      (junk a : ℕ → A) (l m r p q : ℕ)
      → l + p ≡ m + 1
      → m + 1 + q ≡ r + 1
      → (b : ℕ → A) × (merge less junk a l m r ≡ some b)
        × Merged (slice a l p) (slice a (m + 1) q) (slice b l (p + q))
        × ((x : ℕ) → (x < l) ⊎ (r < x) → b x ≡ a x)
  unfolding merge finish
  merge-Merged junk a l m r p q e f =
      let (c', h, w) =
        merge_loop-Filled (r + 2 - l) m r p q a (record { i = l; j = m + 1; k = 0; tmp = junk }) e f
          (omega arith) in
      let d = finish m r a c' in
      (
        memcpy a l d.tmp 0 d.k,
        rw h refl,
        rw (← back a d l (p + q) w.count) at w.merged,
        λ x o. memcpy-outside a d.tmp l 0 d.k x (beyond x d.k w.count o),
      )
    where
      beyond : (x k : ℕ) → k ≡ 0 + (p + q) → (x < l) ⊎ (r < x) → (x < l) ⊎ (l + k ≤ x)
      beyond x k u (inl h) = inl h
      beyond x k u (inr h) = inr (omega arith)
