-- ===== src/SpinLock/Safety.antt =====
-- Kernel/Sync/SpinLock.hpp: what holds of the lock in every reachable state.
use objective_hail_os.Prelude.{
  ℕ, ◌+◌, ◌-◌, ◌%◌, ◌^◌, ◌≤◌, ◌<◌, ◌≡◌, refl, sym, ◌∙◌, ap, arith, inl, inr, ◌⊎◌, ℕ_discrete,
}
use objective_hail_os.Prelude.Words.{u32}
use objective_hail_os.SpinLock.{
  System, Cpu, outside, spinning, loaded_owner, before_exchange, holding, Access, enter, spin,
  acquire, load_owner, load_busy, load_free, exchange, exchange_lost, unlock, Reach,
}
use objective_hail_os.SpinLock.Count.{has_ticket, tickets-le}
use objective_hail_os.SpinLock.Invariant.{Local, Inv}
use objective_hail_os.SpinLock.Keeps.{Reach-Inv}

-- Of at most 2 ^ 32 CPUs two never hold the lock at once, in any interleaving of `Lock`, `TryLock` and
-- `Unlock` in which no `TryLock` is overtaken by 2 ^ 32 tickets.
pub mutual_exclusion :
    (n : ℕ) (s : System) (i j : ℕ)
    → n ≤ 2 ^ 32
    → Reach n s
    → s.cpu i ≡ holding
    → s.cpu j ≡ holding
    → i ≡ j
mutual_exclusion n s i j few r in_i in_j =
    let inv = Reach-Inv n s few r in
    inv.unique i j (ap has_ticket in_i) (ap has_ticket in_j)
      ((rw in_i at (inv.local i)).0 ∙ sym (rw in_j at (inv.local j)).0)

-- Who has the ticket that is served holds the lock or finds it free at its next look.
served :
    (p h m owner : ℕ) (c : Cpu)
    → owner ≡ p % 2 ^ 32
    → has_ticket c ≡ 1
    → m ≡ p
    → Local p h m c
    → (c ≡ holding) ⊎ (c ≡ spinning owner)
served p h m owner outside e has at l = absurd (omega arith)
served p h m owner (spinning t) e has at l =
    inr (ap spinning (l.0 ∙ ap (λ (x : ℕ). x % 2 ^ 32) at ∙ sym e))
served p h m owner (loaded_owner o stamp) e has at l = absurd (omega arith)
served p h m owner (before_exchange o stamp) e has at l = absurd (omega arith)
served p h m owner holding e has at l = inl refl

-- While a CPU spins, some CPU holds the lock or spins with the ticket that is served, under the same
-- conditions.
pub no_deadlock :
    (n : ℕ) (s : System) (i t : ℕ)
    → n ≤ 2 ^ 32
    → Reach n s
    → s.cpu i ≡ spinning t
    → (j : ℕ) × ((s.cpu j ≡ holding) ⊎ (s.cpu j ≡ spinning s.lock.owner))
no_deadlock n s i t few r at =
    let inv = Reach-Inv n s few r in
    let l = rw at at (inv.local i) in
    let (j, has, is) = inv.covered s.passed_on (omega arith) (omega (arith, l.1, l.2)) in
    (
      j,
      served s.passed_on s.handed_out (inv.mine j) s.lock.owner (s.cpu j) inv.owner_counts has is
          (inv.local j),
    )

-- How many CPUs must pass the lock on before ticket `t` is served.
unfoldable pub ahead : System → ℕ → ℕ
ahead s t = (t + 2 ^ 32 - s.lock.owner) % 2 ^ 32

ahead_lem :
    (n : ℕ) (s : System) (j t : ℕ) (inv : Inv n s)
    → n ≤ 2 ^ 32
    → s.cpu j ≡ spinning t
    → (ahead s t + s.passed_on ≡ inv.mine j) × (ahead s t < n)
unfolding ahead
ahead_lem n s j t inv few at =
    let l = rw at at (inv.local j) in
    let most = tickets-le n s.cpu in
    (
      omega (arith, l, inv.owner_counts, inv.total, most),
      omega (arith, l, inv.owner_counts, inv.total, most),
    )

-- 1 for a CPU that spins.
abbrev spins : Cpu → ℕ
spins (spinning _) = 1
spins _ = 0

-- An access leaves the served ticket alone, or is an `Unlock`.
counters :
    (s : System) (i : ℕ) (c : Cpu) (s' : System)
    → Access s i c s'
    → ((s'.lock.owner ≡ s.lock.owner) × (s'.passed_on ≡ s.passed_on))
      ⊎ ((c ≡ holding)
          × (s'.lock.owner ≡ u32 (s.lock.owner + 1))
          × (s'.passed_on ≡ s.passed_on + 1))
counters s i c s' enter = inl (refl, refl)
counters s i c s' (spin ne) = inl (refl, refl)
counters s i c s' (acquire e) = inl (refl, refl)
counters s i c s' load_owner = inl (refl, refl)
counters s i c s' (load_busy ne) = inl (refl, refl)
counters s i c s' (load_free e) = inl (refl, refl)
counters s i c s' (exchange e) = inl (refl, refl)
counters s i c s' (exchange_lost ne) = inl (refl, refl)
counters s i c s' unlock = inr (refl, refl, refl)

-- Who spins while another holds the lock has a later ticket than the served one.
behind :
    (n : ℕ) (s : System) (i j t : ℕ) (inv : Inv n s)
    → s.cpu i ≡ holding
    → s.cpu j ≡ spinning t
    → s.passed_on < inv.mine j
behind n s i j t inv in_i at =
    let l = rw at at (inv.local j) in
    let own = (rw in_i at (inv.local i)).0 in
    elim (ℕ_discrete (inv.mine j) s.passed_on) [
      | yes same ↦
          let e = inv.unique i j (ap has_ticket in_i) (ap has_ticket at) (own ∙ sym same) in
          let clash : holding ≡ spinning t = sym in_i ∙ ap s.cpu e ∙ at in
          absurd (omega (arith, ap spins clash))
      | no ne ↦ omega (arith, l.1, ne)
    ]

-- No access of any CPU moves a CPU that spins further from its turn, and each `Unlock` brings it one
-- closer; fewer CPUs are ahead of it than there are CPUs. This is under the same conditions.
pub no_overtaking :
    (n : ℕ) (s : System) (i : ℕ) (c : Cpu) (s' : System) (j t : ℕ)
    → n ≤ 2 ^ 32
    → Reach n s
    → s.cpu i ≡ c
    → Access s i c s'
    → s.cpu j ≡ spinning t
    → (ahead s' t + (s'.passed_on - s.passed_on) ≡ ahead s t) × (ahead s t < n)
unfolding ahead
no_overtaking n s i c s' j t few r ci access at =
    let inv = Reach-Inv n s few r in
    let here = ahead_lem n s j t inv few at in
    elim (counters s i c s' access) [
      | inl kept ↦ (omega (arith, kept.0, kept.1), here.1)
      | inr passed ↦
          let later = behind n s i j t inv (ci ∙ passed.0) at in
          let l = rw at at (inv.local j) in
          let most = tickets-le n s.cpu in
          (omega (arith, passed.1, passed.2, later, l, inv.owner_counts, inv.total, most), here.1)
    ]
