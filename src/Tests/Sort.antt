-- ===== src/Tests/Sort.antt =====
-- p9: an array of five numbers.
use sphere_multithreading_cp.Prelude.{arith, ltb, refl, some, ℕ, ◌-◌, ◌==◌, ◌≡◌}
use sphere_multithreading_cp.Sort.{mergesort, p_mergesort}
use sphere_multithreading_cp.Sort.Laws.{StrictWeak, Sorts, mergesort-Sorts, p_mergesort-Sorts}

ltb-StrictWeak : StrictWeak ltb
unfolding StrictWeak
ltb-StrictWeak = (λ x y h. ground arith, λ x y z h k. ground arith)

-- 3, 2, 1, 0, 0 and then zeros.
abbrev falling : ℕ → ℕ
falling i = 3 - i

mergesort-Sorts_example :
    (b : ℕ → ℕ) × (mergesort ltb 6 (λ _. 9) falling 0 4 ≡ some b) × Sorts ltb 0 5 falling b
mergesort-Sorts_example =
    mergesort-Sorts ltb ltb-StrictWeak 6 (λ _. 9) falling 0 4 5 refl (omega arith) (omega arith)

p_mergesort-Sorts_example :
    (b : ℕ → ℕ) × (p_mergesort ltb (λ l r. r == 2) 6 (λ _. 9) falling 0 4 ≡ some b)
    × Sorts ltb 0 5 falling b
p_mergesort-Sorts_example =
    p_mergesort-Sorts ltb ltb-StrictWeak (λ l r. r == 2) 6 (λ _. 9) falling 0 4 5 refl (omega arith)
      (omega arith)
