-- ===== src/Sysv/Workers/Tests.antt =====
-- p5: four workers, of which one sets a key and another has a message.
use sphere_multithreading_cp.Prelude.{All, [], arith, false, pos, refl, some, ℕ, ℤ, ◌∷◌, ◌≡◌}
use sphere_multithreading_cp.Table.{update, get_hash}
use sphere_multithreading_cp.Sysv.Protocol.{set_op, Message, sem_down}
use sphere_multithreading_cp.Sysv.Workers.{
  semop, idle, asked, inside, System, units, new_system, section, Step, receives, enters, here,
  next,
}
use sphere_multithreading_cp.Sysv.Workers.Exclusion.{works_in, writer-alone}

abbrev hash0 : ℤ → ℕ
hash0 _ = 0

abbrev set7 : Message
set7 = record { mtype = 2; op = set_op; key = pos 7; value = pos 1; err_code = 0; from = 5 }

abbrev asking : System
asking = record { sems = λ _. 4; workers = idle ∷ asked set7 ∷ idle ∷ idle ∷ [] }

abbrev setting : System
setting = record { sems = update (λ _. 4) 0 0; workers = idle ∷ inside set7 ∷ idle ∷ idle ∷ [] }

section_0 : section hash0 set7 ≡ 0
unfolding section get_hash
section_0 = refl

to_asking : Step hash0 new_system asking
unfolding new_system
to_asking = receives (idle ∷ []) (idle ∷ idle ∷ []) set7 refl refl

takes_4 :
    sem_down hash0 semop (section hash0 set7) (units set_op) (λ _. 4) ≡ some (update (λ _. 4) 0 0)
unfolding units sem_down semop section get_hash
takes_4 = refl

to_setting : Step hash0 asking setting
to_setting = enters (idle ∷ []) (idle ∷ idle ∷ []) set7 (update (λ _. 4) 0 0) refl refl takes_4 refl

writer-alone_example :
    All (λ p. works_in hash0 (section hash0 set7) p ≡ false) (idle ∷ idle ∷ idle ∷ [])
unfolding units
writer-alone_example =
    writer-alone hash0 (next (next here to_asking) to_setting) (idle ∷ []) (idle ∷ idle ∷ []) set7
      refl (rw section_0 (omega arith)) refl

none_works : All (λ p. works_in hash0 (section hash0 set7) p ≡ false) (idle ∷ idle ∷ idle ∷ [])
unfolding works_in
none_works = (refl, (refl, (refl, tt)))
