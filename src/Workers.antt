-- ===== src/Workers.antt =====
-- Kernel/Core/KernelMain.cpp: the functions WorkerA and WorkerB of the two first threads, round by round.
-- The waits between the rounds, SleepMs and Yield, are with the timers and the scheduler.
pub mod Pages
pub mod Rate
use objective_hail_os.Prelude.{
  ℕ, zero, suc, ◌+◌, Bool, Option, none, some, List, [], ◌∷◌, leb, if◌then◌else◌, ◌>>=◌, codes,
}
use objective_hail_os.Prelude.Words.{u64}
use objective_hail_os.Output.{OutputDevice}
use objective_hail_os.OperatorNew.{operator_delete_sized}
use objective_hail_os.RefCount.{Store, destruct}
use objective_hail_os.RefCount.Consoles.{caller}
use objective_hail_os.RefCount.Consoles.{get_bootstrap_console as get_bootstrap_pointer}
use objective_hail_os.Panic.{Report, Machine, Call, came_back, halted, get_bootstrap_console}

-- A machine with the reference counts of the objects on its heap.
pub record Counting (S : Type 0) : Type 0 where
  pub call : Call S
  pub counts : Store

module _ {S : Type 0} (con : OutputDevice S) (size object_size : ℕ) (new_report : Report) where
  -- `delete this`, which `Release` calls when the count was 1, for the object at `p`.
  unfoldable pub delete_if_gone : Store → ℕ → Machine S → Machine S
  delete_if_gone counts p m =
      if counts.live p
      then m
      else record m { heap = operator_delete_sized size m.heap p object_size }

  -- WorkerA behind its call of GetBootstrapConsole: `con` with the new object, the message, and the end of
  -- the block, where `con` releases the object.
  unfoldable pub greet : Store → Call S → Option (Counting S)
  unfolding get_bootstrap_pointer destruct delete_if_gone
  greet counts (halted m) = some (record { call = halted m; counts = counts })
  greet counts (came_back p m) = do
    s ←
        con.put_string m.out
          (codes "Hello, Scheduled tasks! This message must be shown once per a second!\n")
    let held = get_bootstrap_pointer counts caller p
    let released = destruct held caller
    some (record {
      call = came_back p (delete_if_gone released p (record m { out = s }));
      counts = released;
    })

  -- What comes behind a call, if the call comes back.
  abbrev pub go_on : (Store → Machine S → Option (Counting S)) → Counting S → Option (Counting S)
  go_on rest r = elim r.call [ halted m ↦ some r | came_back p m ↦ rest r.counts m ]

  -- `n` rounds of WorkerA.
  unfoldable pub worker_a : (fuel n : ℕ) → Store → Machine S → Option (Counting S)
  unfolding greet get_bootstrap_console
  worker_a fuel zero counts m = some (record { call = came_back 0 m; counts = counts })
  worker_a fuel (suc n) counts m = do
    call ← get_bootstrap_console con size object_size new_report fuel m
    greeted ← greet counts call
    go_on (worker_a fuel n) greeted

-- `next` of WorkerB, and the number of its messages.
pub record WorkerB : Type 0 where
  pub next : ℕ
  pub messages : ℕ

-- WorkerB before its loop, at a tick count.
unfoldable pub worker_b : (tick_count : ℕ) → WorkerB
worker_b tick_count = record { next = u64 (tick_count + 4000); messages = 0 }

-- A round of WorkerB at the tick count that it reads, and rounds.
unfoldable pub worker_b_round : WorkerB → (tick_count : ℕ) → WorkerB
worker_b_round w tick_count =
    if leb w.next tick_count
    then record { next = u64 (w.next + 4000); messages = w.messages + 1 }
    else w

unfoldable pub worker_b_rounds : WorkerB → List ℕ → WorkerB
unfolding worker_b_round
worker_b_rounds w [] = w
worker_b_rounds w (tick_count ∷ rest) = worker_b_rounds (worker_b_round w tick_count) rest
