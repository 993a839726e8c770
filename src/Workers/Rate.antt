-- ===== src/Workers/Rate.antt =====
-- Kernel/Core/KernelMain.cpp: how often WorkerB prints.
use objective_hail_os.Prelude.{ℕ, ◌+◌, ◌-◌, ◌*◌, ◌≤◌, ◌<◌, ◌≡◌, ◌^◌, arith, List, [], ◌∷◌}
use objective_hail_os.Workers.{WorkerB, worker_b, worker_b_round, worker_b_rounds}

-- Every tick count is at most `last`.
abbrev pub AllUpTo : ℕ → List ℕ → Type 0
AllUpTo last [] = Unit {0}
AllUpTo last (tick ∷ rest) = (tick ≤ last) × AllUpTo last rest

abbrev pub Paced : (start last : ℕ) → WorkerB → Type 0
Paced start last w =
    (w.next ≡ start + 4000 + w.messages * 4000) × (start + w.messages * 4000 ≤ last)

round-Paced :
    (start last tick : ℕ) (w : WorkerB)
    → last + 4000 < 2 ^ 64
    → tick ≤ last
    → Paced start last w
    → Paced start last (worker_b_round w tick)
unfolding worker_b_round
round-Paced start last tick w small le (next, behind) = (ground arith, ground arith)

rounds-Paced :
    (start last : ℕ) (ticks : List ℕ) (w : WorkerB)
    → last + 4000 < 2 ^ 64
    → AllUpTo last ticks
    → Paced start last w
    → Paced start last (worker_b_rounds w ticks)
unfolding worker_b_rounds
rounds-Paced start last [] w small up paced = paced
rounds-Paced start last (tick ∷ ticks) w small up paced =
    rounds-Paced start last ticks (worker_b_round w tick) small up.1
      (round-Paced start last tick w small up.0 paced)

-- WorkerB, started at the tick count `start`, has at the tick count `last`, which is far from the largest
-- number of 64 bits, printed at most one message for 4000 ticks that went by.
pub worker_b-messages :
    (start last : ℕ) (ticks : List ℕ)
    → last + 4000 < 2 ^ 64
    → start ≤ last
    → AllUpTo last ticks
    → (worker_b_rounds (worker_b start) ticks).messages * 4000 ≤ last - start
unfolding worker_b
worker_b-messages start last ticks small le up =
    let (next, behind) =
      rounds-Paced start last ticks (worker_b start) small up (omega arith, omega arith) in
    omega (arith, behind)
