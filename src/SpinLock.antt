-- ===== src/SpinLock.antt =====
-- Kernel/Sync/SpinLock.hpp: the ticket lock, taken by several CPUs one atomic access at a time, and the
-- interrupt flag that LockIRQSave keeps.
pub mod Count
pub mod Invariant
pub mod Keeps
pub mod Safety
pub mod Flag
use objective_hail_os.Prelude.{
  ℕ, ◌+◌, ◌-◌, ◌/◌, ◌%◌, ◌^◌, ◌<◌, ◌≡◌, ◌≢◌, Bool, true, false, not, bit_and, ◌==◌, if◌then◌else◌,
  update,
}
use objective_hail_os.Prelude.Words.{u32}

-- TicketSpinLock.
pub record TicketSpinLock : Type 0 where
  pub next : ℕ
  pub owner : ℕ

-- Where a CPU stands, with the local variables that are live there. `stamp` is no variable of the
-- program: it says how many tickets were passed on before the first load of `TryLock`.
pub data Cpu : Type 0 where
  outside : Cpu
  spinning : (t : ℕ) → Cpu
  loaded_owner : (o stamp : ℕ) → Cpu
  before_exchange : (n stamp : ℕ) → Cpu
  holding : Cpu

-- One lock, the CPUs, and how many tickets were handed out and passed on since the start.
pub record System : Type 0 where
  pub lock : TicketSpinLock
  pub handed_out : ℕ
  pub passed_on : ℕ
  pub cpu : ℕ → Cpu

-- The fetch-and-add of `Lock` and the exchange of `TryLock` hand out a ticket.
abbrev pub take_ticket : System → ℕ → Cpu → System
take_ticket s i c = record {
  lock = record { next = u32 (s.lock.next + 1); owner = s.lock.owner };
  handed_out = s.handed_out + 1;
  passed_on = s.passed_on;
  cpu = update s.cpu i c;
}

-- The fetch-and-add of `Unlock`.
abbrev pub pass_on : System → ℕ → System
pass_on s i = record {
  lock = record { next = s.lock.next; owner = u32 (s.lock.owner + 1) };
  handed_out = s.handed_out;
  passed_on = s.passed_on + 1;
  cpu = update s.cpu i outside;
}

abbrev pub go_to : System → ℕ → Cpu → System
go_to s i c = record s { cpu = update s.cpu i c }

-- One access of CPU `i`, by where it stands: `Lock` (enter, spin, acquire), `TryLock` (load_owner,
-- load_busy, load_free, exchange, exchange_lost) and `Unlock`.
pub data Access (s : System) (i : ℕ) : Cpu → System → Type 0 where
  enter : Access s i outside (take_ticket s i (spinning s.lock.next))
  spin : {t : ℕ} → s.lock.owner ≢ t → Access s i (spinning t) (go_to s i (spinning t))
  acquire : {t : ℕ} → s.lock.owner ≡ t → Access s i (spinning t) (go_to s i holding)
  load_owner : Access s i outside (go_to s i (loaded_owner s.lock.owner s.passed_on))
  load_busy :
      {o stamp : ℕ} → o ≢ s.lock.next → Access s i (loaded_owner o stamp) (go_to s i outside)
  load_free :
      {o stamp : ℕ}
      → o ≡ s.lock.next
      → Access s i (loaded_owner o stamp) (go_to s i (before_exchange s.lock.next stamp))
  exchange :
      {n stamp : ℕ}
      → s.lock.next ≡ n
      → Access s i (before_exchange n stamp) (take_ticket s i holding)
  exchange_lost :
      {n stamp : ℕ} → s.lock.next ≢ n → Access s i (before_exchange n stamp) (go_to s i outside)
  unlock : Access s i holding (pass_on s i)

-- The state at the start.
abbrev pub initial : System
initial = record {
  lock = record { next = 0; owner = 0 };
  handed_out = 0;
  passed_on = 0;
  cpu = λ i. outside;
}

-- The access is no exchange of a `TryLock` that 2 ^ 32 tickets have overtaken: those handed out after
-- the ticket that its first load found served.
abbrev pub Prompt : System → Cpu → Type 0
Prompt s (before_exchange n stamp) = s.handed_out < stamp + 2 ^ 32
Prompt s _ = Unit {0}

-- The states that `n` CPUs reach, when no `TryLock` is overtaken by 2 ^ 32 tickets.
pub data Reach (n : ℕ) : System → Type 0 where
  start : Reach n initial
  later :
      {s t : System} (i : ℕ)
      → Reach n s
      → i < n
      → Prompt s (s.cpu i)
      → Access s i (s.cpu i) t
      → Reach n t
