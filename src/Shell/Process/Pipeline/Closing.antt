-- ===== src/Shell/Process/Pipeline/Closing.antt =====
-- p4: a descriptor that the shell closes takes one end from its table.
use sphere_multithreading_cp.Prelude.{ap, arith, inl, inr, none, some, suc, sym, zero, ℕ, ◌∙◌, ◌≢◌}
use sphere_multithreading_cp.Shell.Process.{read_end, write_end, Fds, close, close_modified}
use sphere_multithreading_cp.Shell.Process.Descriptors.{update-other, update-cases}
use sphere_multithreading_cp.Shell.Process.Pipeline.{Fresh, input_of, Piped}

-- The number of the pipe that the command reads, or 0.
abbrev pub before : ℕ → ℕ
before zero = 0
before (suc k) = k

module _ (pipe : ℕ → ℕ × ℕ) (fresh : Fresh pipe) where
  pub close_input-Piped :
      (k n : ℕ) (t : Fds)
      → Piped pipe fresh (before k) k n t
      → Piped pipe fresh k k n (close_modified (input_of pipe fresh k) t)
  close_input-Piped zero n t p = p
  close_input-Piped (suc k) n t p = record {
    only_reads = λ d j e. elim (update-cases t (pipe k).0 d none (some (read_end j)) e) [
      | inl (q, x) ↦ cc
      | inr (ne, e') ↦
          let (q, l, m) = p.only_reads d j e' in
          let ne' : j ≢ k = λ x. ne (q ∙ ap (λ i. (pipe i).0) x) in (q, omega arith, m)
    ];
    only_writes = λ d j e. elim (update-cases t (pipe k).0 d none (some (write_end j)) e) [
      | inl (q, x) ↦ cc
      | inr (ne, e') ↦ p.only_writes d j e'
    ];
    all_reads = λ j l m.
        update-other t (pipe k).0 (pipe j).0 none (λ q. omega (arith, fresh.reads j k q))
        ∙ p.all_reads j (omega arith) m;
    all_writes = λ j l m.
        update-other t (pipe k).0 (pipe j).1 none (λ q. fresh.ends k j (sym q))
        ∙ p.all_writes j l m;
  }

  pub close_output-Piped :
      (k n : ℕ) (t : Fds)
      → Piped pipe fresh k k n t
      → Piped pipe fresh k (suc k) n (close (pipe k).1 t)
  close_output-Piped k n t p = record {
    only_reads = λ d j e. elim (update-cases t (pipe k).1 d none (some (read_end j)) e) [
      | inl (q, x) ↦ cc
      | inr (ne, e') ↦ p.only_reads d j e'
    ];
    only_writes = λ d j e. elim (update-cases t (pipe k).1 d none (some (write_end j)) e) [
      | inl (q, x) ↦ cc
      | inr (ne, e') ↦
          let (q, l, m) = p.only_writes d j e' in
          let ne' : j ≢ k = λ x. ne (q ∙ ap (λ i. (pipe i).1) x) in (q, omega arith, m)
    ];
    all_reads =
        λ j l m. update-other t (pipe k).1 (pipe j).0 none (fresh.ends j k) ∙ p.all_reads j l m;
    all_writes = λ j l m.
        update-other t (pipe k).1 (pipe j).1 none (λ q. omega (arith, fresh.writes j k q))
        ∙ p.all_writes j (omega arith) m;
  }
