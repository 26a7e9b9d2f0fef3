-- ===== src/Table/Scan.antt =====
-- The scan of the buckets in `set_node_free`.
use sphere_multithreading_cp.Prelude.{
  ==_iff, Bool-cases, arith, false, if◌then◌else◌, inl, inr, refl, suc, true, zero, ℕ, ◌+◌, ◌<◌,
  ◌==◌, ◌≡◌, ◌≤◌,
}
use sphere_multithreading_cp.Table.{NodePtr, points_to, unlink_table}

-- The scan from bucket `i` on leaves the buckets before it.
pub unlink_table_below :
    (k i n : ℕ) (q : NodePtr) (f : ℕ → NodePtr) (j : ℕ) → j < i → unlink_table k i n q f j ≡ f j
unfolding unlink_table
unlink_table_below zero i n q f j l = refl
unlink_table_below (suc k) i n q f j l = elim (Bool-cases (points_to (f i) n)) [
  | inl e ↦ rw e (ground arith)
  | inr e ↦ rw e (unlink_table_below k (suc i) n q f j (omega arith))
]

-- The scan changes the entries that hold `n`, if at most one does.
pub unlink_table-if :
    (k i n : ℕ) (q : NodePtr) (f : ℕ → NodePtr) (h j : ℕ)
    → ((a : ℕ) → a < i + k → points_to (f a) n ≡ true → a ≡ h)
    → i ≤ j
    → j < i + k
    → unlink_table k i n q f j ≡ (if points_to (f j) n then q else f j)
unfolding unlink_table
unlink_table-if zero i n q f h j one a b = absurd (omega arith)
unlink_table-if (suc k) i n q f h j one a b = elim (Bool-cases (points_to (f i) n)) [
  | inl e ↦ rw e (elim (Bool-cases (j == i)) [
    | inl s ↦ rw (s, (==_iff j i).0 s, e)
    | inr s ↦ rw (s, other (one i (omega arith) e) s)
  ])
  | inr e ↦ rw e (elim (Bool-cases (j == i)) [
    | inl s ↦ rw ((==_iff j i).0 s, e) (unlink_table_below k (suc i) n q f i (omega arith))
    | inr s ↦
        unlink_table-if k (suc i) n q f h j (λ c l. one c (omega arith)) (ground arith)
          (omega arith)
  ])
]
  where
    other : i ≡ h → (j == i) ≡ false → points_to (f j) n ≡ false
    other at s = elim (Bool-cases (points_to (f j) n)) [
      | inl t ↦ absurd (ground (arith, one j b t))
      | inr t ↦ t
    ]
