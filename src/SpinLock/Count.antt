-- ===== src/SpinLock/Count.antt =====
-- Kernel/Sync/SpinLock.hpp: the CPUs that have a ticket, counted.
use objective_hail_os.Prelude.{
  ℕ, zero, suc, ◌+◌, ◌≤◌, ◌<◌, ◌≡◌, refl, true, false, arith, ◌==◌, update, dec_lt,
}
use objective_hail_os.SpinLock.{Cpu, outside, spinning, loaded_owner, before_exchange, holding}

-- A CPU that spins or holds the lock has a ticket.
abbrev pub has_ticket : Cpu → ℕ
has_ticket (spinning _) = 1
has_ticket holding = 1
has_ticket _ = 0

has_ticket-le : (c : Cpu) → has_ticket c ≤ 1
has_ticket-le outside = omega arith
has_ticket-le (spinning t) = omega arith
has_ticket-le (loaded_owner o s) = omega arith
has_ticket-le (before_exchange n s) = omega arith
has_ticket-le holding = omega arith

-- How many of the first `n` CPUs have one.
unfoldable pub tickets : ℕ → (ℕ → Cpu) → ℕ
tickets zero cpu = 0
tickets (suc n) cpu = tickets n cpu + has_ticket (cpu n)

pub tickets-le : (n : ℕ) (cpu : ℕ → Cpu) → tickets n cpu ≤ n
unfolding tickets
tickets-le zero cpu = omega arith
tickets-le (suc n) cpu = omega (arith, tickets-le n cpu, has_ticket-le (cpu n))

tickets_beyond :
    (n : ℕ) (cpu : ℕ → Cpu) (i : ℕ) (c : Cpu) → n ≤ i → tickets n (update cpu i c) ≡ tickets n cpu
unfolding tickets
tickets_beyond zero cpu i c h = refl
tickets_beyond (suc n) cpu i c h =
    let other : (i == n) ≡ false = ground arith in
    let ih = tickets_beyond n cpu i c (omega arith) in rw (other, ih) refl

-- A move of one CPU changes the count by its own part.
pub tickets-update :
    (n : ℕ) (cpu : ℕ → Cpu) (i : ℕ) (c : Cpu)
    → i < n
    → tickets n (update cpu i c) + has_ticket (cpu i) ≡ tickets n cpu + has_ticket c
unfolding tickets
tickets-update zero cpu i c h = absurd (omega arith)
tickets-update (suc n) cpu i c h = elim (dec_lt i n) [
  | yes below ↦
      let other : (i == n) ≡ false = ground arith in
      let ih = tickets-update n cpu i c below in rw other (omega (arith, ih))
  | no last ↦
      let e : n ≡ i = omega arith in
      let out = tickets_beyond i cpu i c (omega arith) in
      let self : (i == i) ≡ true = ground arith in rw (e, self) (omega (arith, out))
]
