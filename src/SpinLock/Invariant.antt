-- ===== src/SpinLock/Invariant.antt =====
-- Kernel/Sync/SpinLock.hpp: how the two counters of the lock and the CPUs' tickets hang together.
use objective_hail_os.Prelude.{
  ℕ, ◌+◌, ◌%◌, ◌^◌, ◌≤◌, ◌<◌, ◌≡◌, ◌≢◌, arith, ◌==◌, true, false, update, ℕ_discrete,
}
use objective_hail_os.SpinLock.{
  System, Cpu, outside, spinning, loaded_owner, before_exchange, holding,
}
use objective_hail_os.SpinLock.Count.{has_ticket, tickets}

-- What a CPU's local variables say, when its ticket counts as number `mine`.
abbrev pub Local : (passed_on handed_out mine : ℕ) → Cpu → Type 0
Local passed_on handed_out mine outside = Unit {0}
Local passed_on handed_out mine (spinning t) =
    (t ≡ mine % 2 ^ 32) × (passed_on ≤ mine) × (mine < handed_out)
Local passed_on handed_out mine (loaded_owner o stamp) = (o ≡ stamp % 2 ^ 32) × (stamp ≤ passed_on)
Local passed_on handed_out mine (before_exchange n stamp) =
    (n ≡ stamp % 2 ^ 32) × (stamp ≤ passed_on)
Local passed_on handed_out mine holding = (mine ≡ passed_on) × (passed_on < handed_out)

-- The counters of the lock are the true counts modulo 2 ^ 32; a CPU with a ticket has one of those that
-- were handed out and not passed on, no two CPUs the same, and each of those is a CPU's.
pub record Inv (n : ℕ) (s : System) : Type 0 where
  pub mine : ℕ → ℕ
  pub next_counts : s.lock.next ≡ s.handed_out % 2 ^ 32
  pub owner_counts : s.lock.owner ≡ s.passed_on % 2 ^ 32
  pub total : s.passed_on + tickets n s.cpu ≡ s.handed_out
  pub local : (i : ℕ) → Local s.passed_on s.handed_out (mine i) (s.cpu i)
  pub unique :
      (i j : ℕ) → has_ticket (s.cpu i) ≡ 1 → has_ticket (s.cpu j) ≡ 1 → mine i ≡ mine j → i ≡ j
  pub covered :
      (k : ℕ)
      → s.passed_on ≤ k
      → k < s.handed_out
      → (j : ℕ) × (has_ticket (s.cpu j) ≡ 1) × (mine j ≡ k)

-- A claim about every CPU after one has moved.
pub all-update {ℓ} :
    {A : Type ℓ} (P : ℕ → A → Type 0) (f : ℕ → A) (i : ℕ) (c : A)
    → P i c
    → ((j : ℕ) → i ≢ j → P j (f j))
    → (j : ℕ) → P j (update f i c j)
all-update P f i c here others j = elim (ℕ_discrete i j) [
  | yes e ↦ let self : (i == j) ≡ true = ground arith in rw (self, ← e) here
  | no ne ↦ let other : (i == j) ≡ false = ground arith in rw other (others j ne)
]
