-- ===== src/Tests/Locks.antt =====
-- Examples for Kernel/Sync: two CPUs, of which the first holds the lock and the second spins with ticket 1.
use objective_hail_os.Prelude.{ℕ, ◌+◌, ◌-◌, ◌<◌, ◌≡◌, refl, ◌⊎◌, arith}
use objective_hail_os.SpinLock.{
  System, spinning, holding, initial, take_ticket, pass_on, go_to, enter, acquire, unlock, Reach,
  start, later,
}
use objective_hail_os.SpinLock.Safety.{mutual_exclusion, no_deadlock, no_overtaking, ahead}

abbrev first_in : System
first_in = go_to (take_ticket initial 0 (spinning 0)) 0 holding

abbrev second_waits : System
second_waits = take_ticket first_in 1 (spinning 1)

second_waits-Reach : Reach 2 second_waits
second_waits-Reach =
    later 1 (later 0 (later 0 start (omega arith) tt enter) (omega arith) tt (acquire refl))
      (omega arith) tt enter

mutual_exclusion_example : ◌≡◌ {A = ℕ} 0 0
mutual_exclusion_example =
    mutual_exclusion 2 second_waits 0 0 (omega arith) second_waits-Reach refl refl

no_deadlock_example :
    (j : ℕ) × ((second_waits.cpu j ≡ holding)
      ⊎ (second_waits.cpu j ≡ spinning second_waits.lock.owner))
no_deadlock_example = no_deadlock 2 second_waits 1 1 (omega arith) second_waits-Reach refl

no_overtaking_example :
    (ahead (pass_on second_waits 0) 1
        + ((pass_on second_waits 0).passed_on - second_waits.passed_on)
      ≡ ahead second_waits 1)
    × (ahead second_waits 1 < 2)
no_overtaking_example =
    no_overtaking 2 second_waits 0 holding (pass_on second_waits 0) 1 1 (omega arith)
      second_waits-Reach refl unlock refl
