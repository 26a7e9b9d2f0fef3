-- ===== src/Sort/Laws.antt =====
-- `mergesort` sorts an array in place.
use mathlib.Core.List.{Perm, perm_middle}
use mathlib.Core.List.Perm
use sphere_multithreading_cp.Prelude.{
  All, Bool, Bool-cases, List, [], append-nil, arith, false, inl, inr, ltb, refl, some, suc, true,
  zero, ℕ, ◌++◌, ◌+◌, ◌-◌, ◌/◌, ◌<◌, ◌^◌, ◌∙◌, ◌∷◌, ◌≡◌, ◌≤◌, ◌⊎◌,
}
use sphere_multithreading_cp.Sort.{merge, mergesort, p_mergesort}
use sphere_multithreading_cp.Sort.Slices.{slice, slice-same, slice-append}
use sphere_multithreading_cp.Sort.Merge.{Merged, left_done, right_done, left, right, merge-Merged}

module _ {A : Type 0} (less : A → A → Bool) where
  -- `<` is an order of classes of equal elements.
  unfoldable pub StrictWeak : Type 0
  StrictWeak =
      ((x y : A) → less x y ≡ true → less y x ≡ false)
      × ((x y z : A) → less x y ≡ false → less y z ≡ false → less x z ≡ false)

  -- No later element is less.
  unfoldable pub Sorted : List A → Type 0
  Sorted [] = Unit
  Sorted (x ∷ xs) = All (λ y. less y x ≡ false) xs × Sorted xs

  Merged-All :
      (P : A → Type 0) {xs ys zs : List A} → Merged less xs ys zs → All P xs → All P ys → All P zs
  Merged-All P left_done a b = b
  Merged-All P right_done a b = a
  Merged-All P (left l m) a b = (a.0, Merged-All P m a.1 b)
  Merged-All P (right l m) a b = (b.0, Merged-All P m a b.1)

  Merged-Perm : {xs ys zs : List A} → Merged less xs ys zs → Perm zs (xs ++ ys)
  Merged-Perm left_done = Perm.rfl
  Merged-Perm {xs} right_done = rw (append-nil xs) Perm.rfl
  Merged-Perm (left {x} l m) = Perm.cons x (Merged-Perm m)
  Merged-Perm (right {x} {y} {xs} {ys} l m) =
      Perm.trans (Perm.cons y (Merged-Perm m)) (Perm.symm (perm_middle (x ∷ xs) ys))

  All-not_less :
      (w : StrictWeak) (x y : A) (zs : List A)
      → less y x ≡ false
      → All (λ z. less z y ≡ false) zs
      → All (λ z. less z x ≡ false) zs
  unfolding StrictWeak
  All-not_less w x y [] h a = tt
  All-not_less w x y (z ∷ zs) h a = (w.1 z y x a.0 h, All-not_less w x y zs h a.1)

  Merged-Sorted :
      StrictWeak → {xs ys zs : List A} → Merged less xs ys zs → Sorted xs → Sorted ys → Sorted zs
  unfolding StrictWeak Sorted
  Merged-Sorted w left_done a b = b
  Merged-Sorted w right_done a b = a
  Merged-Sorted w (left {x} {y} {xs} {ys} l m) a b =
      let above = w.0 x y l in
      (
        Merged-All (λ z. less z x ≡ false) m a.0 (above, All-not_less w x y ys above b.0),
        Merged-Sorted w m a.1 b,
      )
  Merged-Sorted w (right {x} {y} {xs} {ys} l m) a b = (
    Merged-All (λ z. less z y ≡ false) m (l, All-not_less w y x xs l a.0) b.0,
    Merged-Sorted w m a b.1,
  )

  -- `b` is `a` with the `n` elements from `l` on put in order.
  pub record Sorts (l n : ℕ) (a b : ℕ → A) : Type 0 where
    pub sorted : Sorted (slice b l n)
    pub perm : Perm (slice b l n) (slice a l n)
    pub keeps : (x : ℕ) → (x < l) ⊎ (l + n ≤ x) → b x ≡ a x

  Sorts-short : (l n : ℕ) (a : ℕ → A) → n ≤ 1 → Sorts l n a a
  unfolding slice Sorted
  Sorts-short l zero a h = record { sorted = tt; perm = Perm.rfl; keeps = λ x o. refl }
  Sorts-short l (suc zero) a h = record { sorted = (tt, tt); perm = Perm.rfl; keeps = λ x o. refl }
  Sorts-short l (suc (suc n)) a h = absurd (omega arith)

  -- The `p` elements from `l` on and the `q` from `h` on, each part put in order.
  record Halves (l p h q : ℕ) (a c : ℕ → A) : Type 0 where
    left_sorted : Sorted (slice c l p)
    left_perm : Perm (slice c l p) (slice a l p)
    right_sorted : Sorted (slice c h q)
    right_perm : Perm (slice c h q) (slice a h q)
    keeps : (x : ℕ) → (x < l) ⊎ (h + q ≤ x) → c x ≡ a x

  left_first-Halves :
      (l p h q : ℕ) (a b c : ℕ → A) → h ≡ l + p → Sorts l p a b → Sorts h q b c → Halves l p h q a c
  left_first-Halves l p h q a b c e s t =
      let left_same : slice c l p ≡ slice b l p =
        slice-same c b l l p (λ x u. t.keeps (l + x) (inl (omega arith))) in
      let right_same : slice b h q ≡ slice a h q =
        slice-same b a h h q (λ x u. s.keeps (h + x) (inr (omega arith))) in
      record {
        left_sorted = rw left_same s.sorted;
        left_perm = rw left_same s.perm;
        right_sorted = t.sorted;
        right_perm = rw right_same at t.perm;
        keeps = λ x o. elim o [
          | inl u ↦ t.keeps x (inl (omega arith)) ∙ s.keeps x (inl u)
          | inr u ↦ t.keeps x (inr u) ∙ s.keeps x (inr (omega arith))
        ];
      }

  right_first-Halves :
      (l p h q : ℕ) (a b c : ℕ → A) → h ≡ l + p → Sorts h q a b → Sorts l p b c → Halves l p h q a c
  right_first-Halves l p h q a b c e s t =
      let right_same : slice c h q ≡ slice b h q =
        slice-same c b h h q (λ x u. t.keeps (h + x) (inr (omega arith))) in
      let left_same : slice b l p ≡ slice a l p =
        slice-same b a l l p (λ x u. s.keeps (l + x) (inl (omega arith))) in
      record {
        left_sorted = t.sorted;
        left_perm = rw left_same at t.perm;
        right_sorted = rw right_same s.sorted;
        right_perm = rw right_same s.perm;
        keeps = λ x o. elim o [
          | inl u ↦ t.keeps x (inl u) ∙ s.keeps x (inl (omega arith))
          | inr u ↦ t.keeps x (inr (omega arith)) ∙ s.keeps x (inr u)
        ];
      }

  -- Both halves and the merge of them.
  Sorts-merge :
      StrictWeak
      → (junk : ℕ → A) (l m r n p q : ℕ) (a c : ℕ → A) → l + p ≡ m + 1
      → m + 1 + q ≡ r + 1
      → l + n ≡ r + 1
      → Halves l p (m + 1) q a c
      → (d : ℕ → A) × (merge less junk c l m r ≡ some d) × Sorts l n a d
  Sorts-merge w junk l m r n p q a c u v e s =
      let all : n ≡ p + q = omega arith in
      let mid : m + 1 ≡ l + p = omega arith in
      let halves : slice a l n ≡ slice a l p ++ slice a (m + 1) q =
        rw (mid, all) (slice-append a l p q) in
      let (d, k, z, o) = merge-Merged less junk c l m r p q u v in
      (
        d,
        k,
        record {
          sorted = rw all (Merged-Sorted w z s.left_sorted s.right_sorted);
          perm =
              rw (halves, all) (Perm.trans (Merged-Perm z) (Perm.append s.left_perm s.right_perm));
          keeps = λ x y. elim y [
            | inl g ↦ o x (inl g) ∙ s.keeps x (inl g)
            | inr g ↦ o x (inr (omega arith)) ∙ s.keeps x (inr (omega arith))
          ];
        },
      )

  -- `mergesort` ends with an array that is sorted between the borders, has there what it had, and is
  -- else as it was, if no sum of two positions passes the largest `int`.
  pub mergesort-Sorts :
      StrictWeak
      → (fuel : ℕ) (junk a : ℕ → A) (l r n : ℕ) → l + n ≡ r + 1
      → n < fuel
      → r < 2 ^ 30
      → (b : ℕ → A) × (mergesort less fuel junk a l r ≡ some b) × Sorts l n a b
  unfolding mergesort
  mergesort-Sorts w zero junk a l r n e h u = absurd (omega arith)
  mergesort-Sorts w (suc fuel) junk a l r n e h u = elim (Bool-cases (ltb l r)) [
    | inr stop ↦ rw (mergesort, stop) (a, refl, Sorts-short l n a (ground arith))
    | inl go_on ↦
        let m = (l + r) / 2 in
        let p = m + 1 - l in
        let q = r - m in
        let fits : ltb (l + r) (2 ^ 31) ≡ true = ground arith in
        let (b, f, s) =
          mergesort-Sorts w fuel junk a l m p (ground arith) (ground arith) (ground arith) in
        let (c, g, t) = mergesort-Sorts w fuel junk b (m + 1) r q (ground arith) (ground arith) u in
        rw (mergesort, go_on, fits, f, g)
          (Sorts-merge w junk l m r n p q a c (ground arith) (ground arith) e
            (left_first-Halves l p (m + 1) q a b c (ground arith) s t))
  ]

  -- So does the sort with tasks, whichever half each call sorts first.
  pub p_mergesort-Sorts :
      StrictWeak
      → (left_first : ℕ → ℕ → Bool) (fuel : ℕ) (junk a : ℕ → A) (l r n : ℕ) → l + n ≡ r + 1
      → n < fuel
      → r < 2 ^ 30
      → (b : ℕ → A) × (p_mergesort less left_first fuel junk a l r ≡ some b) × Sorts l n a b
  unfolding p_mergesort
  p_mergesort-Sorts w left_first zero junk a l r n e h u = absurd (omega arith)
  p_mergesort-Sorts w left_first (suc fuel) junk a l r n e h u = elim (Bool-cases (ltb l r)) [
    | inr stop ↦ rw (p_mergesort, stop) (a, refl, Sorts-short l n a (ground arith))
    | inl go_on ↦
        let m = (l + r) / 2 in
        let p = m + 1 - l in
        let q = r - m in
        let fits : ltb (l + r) (2 ^ 31) ≡ true = ground arith in
        elim (Bool-cases (left_first l r)) [
          | inl y ↦
              let (b, f, s) =
                p_mergesort-Sorts w left_first fuel junk a l m p (ground arith) (ground arith)
                  (ground arith) in
              let (c, g, t) =
                p_mergesort-Sorts w left_first fuel junk b (m + 1) r q (ground arith) (ground arith)
                  u in
              rw (p_mergesort, go_on, fits, y, f, g)
                (Sorts-merge w junk l m r n p q a c (ground arith) (ground arith) e
                  (left_first-Halves l p (m + 1) q a b c (ground arith) s t))
          | inr y ↦
              let (b, f, s) =
                p_mergesort-Sorts w left_first fuel junk a (m + 1) r q (ground arith) (ground arith)
                  u in
              let (c, g, t) =
                p_mergesort-Sorts w left_first fuel junk b l m p (ground arith) (ground arith)
                  (ground arith) in
              rw (p_mergesort, go_on, fits, y, f, g)
                (Sorts-merge w junk l m r n p q a c (ground arith) (ground arith) e
                  (right_first-Halves l p (m + 1) q a b c (ground arith) s t))
        ]
  ]
