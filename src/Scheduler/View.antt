-- ===== src/Scheduler/View.antt =====
-- Kernel/Core/Scheduler/Scheduler.cpp: the scheduler as a list of threads that wait.
use objective_hail_os.Prelude.{
  ℕ, ◌≡◌, ◌≢◌, Bool, true, false, not, ◌&&◌, Option, some, List, [], ◌∷◌, ◌++◌, ◌==◌, if◌then◌else◌,
}
use objective_hail_os.RunQueue.{ready, Threads, null, RunQueue}
use objective_hail_os.RunQueue.Chain.{has, IsQueue, Chain-frame}
use objective_hail_os.Scheduler.{Sched, is_running}

-- The thread that runs, whether its state says so, and the threads that wait.
pub record View : Type 0 where
  pub current : ℕ
  pub marked : Bool
  pub waiting : List ℕ

-- The step: the first of the threads that wait runs, or the idle thread if there is none. A thread
-- that is switched to itself is not marked again.
unfoldable pub take_next : ℕ → ℕ → Bool → List ℕ → View
take_next idle current marked [] =
    if idle == current
    then record { current = current; marked = marked; waiting = [] }
    else record { current = idle; marked = true; waiting = [] }
take_next idle current marked (x ∷ xs) =
    if x == current
    then record { current = current; marked = marked; waiting = xs }
    else record { current = x; marked = true; waiting = xs }

unfoldable pub view_yield : ℕ → ℕ → View → View
view_yield idle bootstrap v =
    if not (v.current == idle) && not (v.current == bootstrap) && v.marked
    then take_next idle v.current false (v.waiting ++ v.current ∷ [])
    else take_next idle v.current v.marked v.waiting

-- The state `s` is described by the view.
pub record Represents (s : Sched) (v : View) : Type 0 where
  pub queue : IsQueue s.threads s.run_queue v.waiting
  pub current : s.current ≡ v.current
  pub marked : is_running (s.threads s.current).state ≡ v.marked
  pub ready_all : (a : ℕ) → has a v.waiting ≡ true → (s.threads a).state ≡ ready
  pub current_out : has s.current v.waiting ≡ false
  pub idle_out : has s.idle v.waiting ≡ false
  pub bootstrap_out : has s.bootstrap v.waiting ≡ false
  pub current_ne : s.current ≢ null
  pub idle_ne : s.idle ≢ null

-- The links are all that a queue reads of its threads.
pub IsQueue-frame :
    (th th' : Threads) (q : RunQueue) (xs : List ℕ)
    → ((a : ℕ) → ((th' a).next ≡ (th a).next) × ((th' a).prev ≡ (th a).prev))
    → IsQueue th q xs
    → IsQueue th' q xs
IsQueue-frame th th' q xs same is = record {
  chain = Chain-frame th th' null q.head q.tail xs (λ a m. same a) is.chain;
  distinct = is.distinct;
}

-- What a step to the view `v` must end in.
abbrev pub EndsIn : Sched → Option Sched → View → Type 0
EndsIn s o v =
    (s' : Sched) × (o ≡ some s')
    × Represents s' v
    × (s'.idle ≡ s.idle)
    × (s'.bootstrap ≡ s.bootstrap)
