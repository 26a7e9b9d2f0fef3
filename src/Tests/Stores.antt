-- ===== src/Tests/Stores.antt =====
-- The stores of p5 and p6 begin in memory that was all zeros.
use sphere_multithreading_cp.Prelude.{none, pos_part, ℕ, ℤ}
use sphere_multithreading_cp.Table.{Table, buffer_size}
use sphere_multithreading_cp.Table.Model.{Model}

abbrev pub hash_key : ℤ → ℕ
hash_key k = pos_part k

abbrev pub zeros : {P : Type 0} → P → Table P
zeros p = record {
  p_table = λ _. none;
  free_node = none;
  p_data = λ _. record { stored = p; n_prev = none; n_next = none };
}

abbrev pub empty_model : {P : Type 0} → Model P
empty_model = record { entries = λ _. none; room = buffer_size }
