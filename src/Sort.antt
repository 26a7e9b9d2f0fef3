-- ===== src/Sort.antt =====
-- p9/n_merge_sort.cpp and p9/p_merge_sort.cpp: merge sort of an array in place. An array is a
-- function from positions; `less` is the type's `<`, and `junk` is what `tmp` holds at first. The two
-- tasks of a call of p_merge_sort.cpp run one behind the other, in either order.
pub mod Slices
pub mod Merge
pub mod Laws
use mathlib.Core.Option
use sphere_multithreading_cp.Prelude.{
  Bool, Option, false, if◌then◌else◌, leb, ltb, map, none, some, suc, true, zero, ℕ, ◌&&◌, ◌+◌, ◌-◌,
  ◌/◌, ◌==◌, ◌^◌,
}
use sphere_multithreading_cp.Table.{update}

-- `i`, `j`, `k` and `tmp` of `merge`.
pub record Cursor (A : Type 0) : Type 0 where
  pub i : ℕ
  pub j : ℕ
  pub k : ℕ
  pub tmp : ℕ → A

module _ {A : Type 0} where
  -- `memcpy(&dst[to], &src[from], n * sizeof(T))`
  pub memcpy : (ℕ → A) → ℕ → (ℕ → A) → ℕ → ℕ → ℕ → A
  memcpy dst to src from n x = if leb to x && ltb x (to + n) then src (from + (x - to)) else dst x

  -- The rest of one side behind what is in `tmp`.
  pub copy_left : (m_border : ℕ) → (ℕ → A) → Cursor A → Cursor A
  copy_left m a c =
      let n = m + 1 - c.i in
      if n == 0 then c else record c { tmp = memcpy c.tmp c.k a c.i n; k = c.k + n }

  pub copy_right : (r_border : ℕ) → (ℕ → A) → Cursor A → Cursor A
  copy_right r a c =
      let n = r + 1 - c.j in
      if n == 0 then c else record c { tmp = memcpy c.tmp c.k a c.j n; k = c.k + n }

module _ {A : Type 0} (less : A → A → Bool) where
  -- The body of the `for`.
  pub take_less : (ℕ → A) → Cursor A → Cursor A
  take_less a c =
      if less (a c.i) (a c.j)
      then record { i = c.i + 1; j = c.j; k = c.k + 1; tmp = update c.tmp c.k (a c.i) }
      else record { i = c.i; j = c.j + 1; k = c.k + 1; tmp = update c.tmp c.k (a c.j) }

  -- The `for`; `none` means that the fuel ran out.
  pub merge_loop : ℕ → (m_border r_border : ℕ) → (ℕ → A) → Cursor A → Option (Cursor A)
  merge_loop zero m r a c = none
  merge_loop (suc fuel) m r a c =
      let rest = merge_loop fuel m r a (take_less a c) in
      if leb c.i m && leb c.j r then rest else some c

  pub merge : (junk a : ℕ → A) → (l_border m_border r_border : ℕ) → Option (ℕ → A)
  merge junk a l m r =
      Option.map (λ c. let done = copy_right r a (copy_left m a c) in memcpy a l done.tmp 0 done.k)
        (merge_loop (r + 2 - l) m r a (record { i = l; j = m + 1; k = 0; tmp = junk }))

  -- An `int` is below `2 ^ 31`; a sum that is not has no meaning.
  pub mergesort : ℕ → (junk a : ℕ → A) → (l_border r_border : ℕ) → Option (ℕ → A)
  mergesort zero junk a l r = none
  mergesort (suc fuel) junk a l r =
      let m = (l + r) / 2 in
      elim (ltb l r) [
        | false ↦ some a
        | true ↦ elim (ltb (l + r) (2 ^ 31)) [
          | false ↦ none
          | true ↦ elim (mergesort fuel junk a l m) [
            | none ↦ none
            | some b ↦ elim (mergesort fuel junk b (m + 1) r) [
              | none ↦ none
              | some c ↦ merge junk c l m r
            ]
          ]
        ]
      ]

  -- The same with two tasks for the halves; `left_first` tells for the borders which one runs first.
  pub p_mergesort :
      (left_first : ℕ → ℕ → Bool) → ℕ → (junk a : ℕ → A) → (l_border r_border : ℕ) → Option (ℕ → A)
  p_mergesort left_first zero junk a l r = none
  p_mergesort left_first (suc fuel) junk a l r =
      let m = (l + r) / 2 in
      elim (ltb l r) [
        | false ↦ some a
        | true ↦ elim (ltb (l + r) (2 ^ 31)) [
          | false ↦ none
          | true ↦ elim (left_first l r) [
            | true ↦ elim (p_mergesort left_first fuel junk a l m) [
              | none ↦ none
              | some b ↦ elim (p_mergesort left_first fuel junk b (m + 1) r) [
                | none ↦ none
                | some c ↦ merge junk c l m r
              ]
            ]
            | false ↦ elim (p_mergesort left_first fuel junk a (m + 1) r) [
              | none ↦ none
              | some b ↦ elim (p_mergesort left_first fuel junk b l m) [
                | none ↦ none
                | some c ↦ merge junk c l m r
              ]
            ]
          ]
        ]
      ]
