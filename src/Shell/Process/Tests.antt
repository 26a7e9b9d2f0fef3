-- ===== src/Shell/Process/Tests.antt =====
-- p4: `a | b | c` in a shell that has its three descriptors.
use sphere_multithreading_cp.Prelude.{
  Bool-cases, List, [], arith, if◌then◌else◌, inl, inr, length, ltb, none, some, true, ℕ, ◌*◌, ◌+◌,
  ◌∷◌, ◌≡◌,
}
use sphere_multithreading_cp.Shell.{Text}
use sphere_multithreading_cp.Shell.Operand.{Operand, link_pipes}
use sphere_multithreading_cp.Shell.Run.{Status, run}
use sphere_multithreading_cp.Shell.Process.{other, Fds, Shell, run_command}
use sphere_multithreading_cp.Shell.Process.Pipeline.{pipeline, Fresh, with_pipes}
use sphere_multithreading_cp.Shell.Process.Pipeline.Joined.{NoPipes, Done, pipeline-Joined}

abbrev pipe0 : ℕ → ℕ × ℕ
pipe0 j = (2 * j + 3, 2 * j + 4)

fresh0 : Fresh pipe0
fresh0 = record {
  above_reads = λ j. omega arith;
  above_writes = λ j. omega arith;
  reads = λ i j h. omega arith;
  writes = λ i j h. omega arith;
  ends = λ i j h. omega arith;
}

abbrev fds0 : Fds
fds0 d = if ltb d 3 then some (other d) else none

abbrev shell0 : Shell
shell0 = record { fds = fds0; slave_pids = []; started = [] }

none_open : NoPipes fds0
none_open d j = elim (Bool-cases (ltb d 3)) [
  | inl e ↦ (λ h. let h' = rw e at h in cc, λ h. let h' = rw e at h in cc)
  | inr e ↦ (λ h. let h' = rw e at h in cc, λ h. let h' = rw e at h in cc)
]

abbrev status0 : Status
status0 = record { exited = true; code = 0 }

abbrev fork0 : Shell → ℕ
fork0 w = length w.started + 100

abbrev waits0 : Shell → ℕ × Status
waits0 w = (length w.started + 99, status0)

abbrev word : ℕ → List Text
word x = (x ∷ []) ∷ []

abbrev behind : List (List Text)
behind = word 98 ∷ word 99 ∷ []

pipeline-Joined_example :
    (operands : List (Operand ℕ)) × (link_pipes pipe0 0 (pipeline (word 97) behind) ≡ some operands)
    × Done pipe0 fresh0 fork0 waits0 2 0
        (word 97 ∷ behind)
        shell0
        (run
          (run_command fork0 waits0)
          status0
          (record shell0 { fds = with_pipes pipe0 fresh0 2 fds0 })
          operands).1
pipeline-Joined_example =
    pipeline-Joined pipe0 fresh0 fork0 waits0 status0 shell0 (word 97) behind none_open
