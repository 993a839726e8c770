-- ===== src/SpinLock/Keeps.antt =====
-- Kernel/Sync/SpinLock.hpp: each access keeps the counters and the tickets in order.
use objective_hail_os.Prelude.{
  ℕ, zero, suc, ◌+◌, ◌^◌, ◌≤◌, ◌<◌, ◌≡◌, ◌≢◌, refl, sym, ◌∙◌, ap, arith, update, update_self,
  update_ne, inl, inr, ◌⊎◌, ℕ_discrete,
}
use objective_hail_os.SpinLock.{
  System, Cpu, outside, spinning, loaded_owner, before_exchange, holding, take_ticket, pass_on,
  go_to, Access, enter, spin, acquire, load_owner, load_busy, load_free, exchange, exchange_lost,
  unlock, Prompt, Reach, start, later, initial,
}
use objective_hail_os.SpinLock.Count.{has_ticket, tickets, tickets-le, tickets-update}
use objective_hail_os.SpinLock.Invariant.{Local, Inv, all-update}

-- A ticket that was handed out is below the count, and a later one changes nothing for its CPU.
Local-older : (p h m : ℕ) (c : Cpu) → has_ticket c ≡ 1 → Local p h m c → (p ≤ m) × (m < h)
Local-older p h m outside has l = absurd (omega arith)
Local-older p h m (spinning t) has l = (l.1, l.2)
Local-older p h m (loaded_owner o stamp) has l = absurd (omega arith)
Local-older p h m (before_exchange o stamp) has l = absurd (omega arith)
Local-older p h m holding has l = (omega (arith, l.0), omega (arith, l.0, l.1))

Local-later : (p h m : ℕ) (c : Cpu) → Local p h m c → Local p (h + 1) m c
Local-later p h m outside l = tt
Local-later p h m (spinning t) l = (l.0, l.1, omega (arith, l.2))
Local-later p h m (loaded_owner o stamp) l = l
Local-later p h m (before_exchange o stamp) l = l
Local-later p h m holding l = (l.0, omega (arith, l.1))

-- Passing a ticket on changes nothing for the CPUs with other tickets.
Local-passed :
    (p h m : ℕ) (c : Cpu) → (has_ticket c ≡ 1 → m ≢ p) → Local p h m c → Local (p + 1) h m c
Local-passed p h m outside other l = tt
Local-passed p h m (spinning t) other l = (l.0, omega (arith, l.1, other refl), l.2)
Local-passed p h m (loaded_owner o stamp) other l = (l.0, omega (arith, l.1))
Local-passed p h m (before_exchange o stamp) other l = (l.0, omega (arith, l.1))
Local-passed p h m holding other l = absurd (other refl l.0)

module _ (n : ℕ) (s : System) (i : ℕ) (inv : Inv n s) (i_lt : i < n) where
  -- A move without a change of the counters, to a place with as many tickets.
  go_to-Inv :
      (c : Cpu)
      → has_ticket c ≡ has_ticket (s.cpu i)
      → Local s.passed_on s.handed_out (inv.mine i) c
      → Inv n (go_to s i c)
  go_to-Inv c same here =
      let kept =
        all-update (λ j d. has_ticket d ≡ has_ticket (s.cpu j)) s.cpu i c same (λ j ne. refl) in
      record {
        mine = inv.mine;
        next_counts = inv.next_counts;
        owner_counts = inv.owner_counts;
        total = omega (arith, inv.total, tickets-update n s.cpu i c i_lt);
        local =
            all-update (λ j d. Local s.passed_on s.handed_out (inv.mine j) d) s.cpu i c here
              (λ j ne. inv.local j);
        unique = λ j k hj hk e. inv.unique j k (sym (kept j) ∙ hj) (sym (kept k) ∙ hk) e;
        covered = λ k lo hi. let (j, has, is) = inv.covered k lo hi in (j, kept j ∙ has, is);
      }

  -- A CPU without a ticket takes the next one.
  module _ (c : Cpu) (had : has_ticket (s.cpu i) ≡ 0) (has : has_ticket c ≡ 1)
      (here : Local s.passed_on (s.handed_out + 1) s.handed_out c) where
    abbrev mine' : ℕ → ℕ
    mine' = update inv.mine i s.handed_out

    older : (j : ℕ) → has_ticket (s.cpu j) ≡ 1 → inv.mine j < s.handed_out
    older j h = (Local-older s.passed_on s.handed_out (inv.mine j) (s.cpu j) h (inv.local j)).1

    -- Where a CPU with a ticket stands then: it is CPU `i`, or it had its ticket before.
    owned :
        (j : ℕ)
        → has_ticket (update s.cpu i c j) ≡ 1
        → ((i ≡ j) × (mine' j ≡ s.handed_out)) ⊎ (has_ticket (s.cpu j) ≡ 1) × (mine' j ≡ inv.mine j)
    owned j h = elim (ℕ_discrete i j) [
      | yes e ↦ inl (e, rw (← e) (update_self inv.mine i s.handed_out))
      | no ne ↦ inr (
        ap has_ticket (sym (update_ne s.cpu i j c ne)) ∙ h,
        update_ne inv.mine i j s.handed_out ne,
      )
    ]

    one_each :
        (j k : ℕ)
        → has_ticket (update s.cpu i c j) ≡ 1
        → has_ticket (update s.cpu i c k) ≡ 1
        → mine' j ≡ mine' k
        → j ≡ k
    one_each j k hj hk e = elim (owned j hj) [
      | inl a ↦ elim (owned k hk) [
        | inl b ↦ sym a.0 ∙ b.0
        | inr b ↦ absurd (omega (arith, a.1, b.1, e, older k b.0))
      ]
      | inr a ↦ elim (owned k hk) [
        | inl b ↦ absurd (omega (arith, a.1, b.1, e, older j a.0))
        | inr b ↦ inv.unique j k a.0 b.0 (sym a.1 ∙ e ∙ b.1)
      ]
    ]

    each_owned :
        (k : ℕ)
        → s.passed_on ≤ k
        → k < s.handed_out + 1
        → (j : ℕ) × (has_ticket (update s.cpu i c j) ≡ 1) × (mine' j ≡ k)
    each_owned k lo hi = elim (ℕ_discrete k s.handed_out) [
      | yes e ↦ (
        i,
        ap has_ticket (update_self s.cpu i c) ∙ has,
        update_self inv.mine i s.handed_out ∙ sym e,
      )
      | no ne ↦
          let (j, holds, is) = inv.covered k lo (omega arith) in
          let other : i ≢ j =
            λ e. absurd (ground (arith, had, holds, ap (λ x. has_ticket (s.cpu x)) e)) in
          (
            j,
            ap has_ticket (update_ne s.cpu i j c other) ∙ holds,
            update_ne inv.mine i j s.handed_out other ∙ is,
          )
    ]

    take_ticket-Inv : Inv n (take_ticket s i c)
    take_ticket-Inv = record {
      mine = mine';
      next_counts = omega (arith, inv.next_counts);
      owner_counts = inv.owner_counts;
      total = omega (arith, inv.total, tickets-update n s.cpu i c i_lt);
      local =
          all-update (λ j d. Local s.passed_on (s.handed_out + 1) (mine' j) d) s.cpu i c
            (rw (update_self inv.mine i s.handed_out) here)
            (λ j ne.
              rw (update_ne inv.mine i j s.handed_out ne)
                (Local-later s.passed_on s.handed_out (inv.mine j) (s.cpu j) (inv.local j)));
      unique = one_each;
      covered = each_owned;
    }

  -- The CPU that holds the lock passes it on.
  module _ (holds : s.cpu i ≡ holding) where
    first : inv.mine i ≡ s.passed_on
    first = (rw holds at (inv.local i)).0

    others : (j : ℕ) → i ≢ j → has_ticket (s.cpu j) ≡ 1 → inv.mine j ≢ s.passed_on
    others j ne h e = ne (inv.unique i j (ap has_ticket holds) h (first ∙ sym e))

    still : (j : ℕ) → has_ticket (update s.cpu i outside j) ≡ 1 → has_ticket (s.cpu j) ≡ 1
    still j h = elim (ℕ_discrete i j) [
      | yes e ↦ absurd (
          ground
            (arith, h, update_self s.cpu i outside, ap has_ticket (update_self s.cpu i outside), e))
      | no ne ↦ ap has_ticket (sym (update_ne s.cpu i j outside ne)) ∙ h
    ]

    pass_on-Inv : Inv n (pass_on s i)
    pass_on-Inv = record {
      mine = inv.mine;
      next_counts = inv.next_counts;
      owner_counts = omega (arith, inv.owner_counts);
      total = omega (arith, inv.total, tickets-update n s.cpu i outside i_lt, ap has_ticket holds);
      local =
          all-update (λ j d. Local (s.passed_on + 1) s.handed_out (inv.mine j) d) s.cpu i outside tt
            (λ j ne.
              Local-passed s.passed_on s.handed_out (inv.mine j) (s.cpu j) (others j ne)
                (inv.local j));
      unique = λ j k hj hk e. inv.unique j k (still j hj) (still k hk) e;
      covered = λ k lo hi.
          let (j, h, is) = inv.covered k (omega arith) hi in
          let other : i ≢ j = λ e. absurd (omega (arith, first, is, lo, ap inv.mine e)) in
          (j, ap has_ticket (update_ne s.cpu i j outside other) ∙ h, is);
    }

-- Every access, but an exchange that was overtaken, keeps them in order, for at most 2 ^ 32 CPUs.
Access-Inv :
    (n : ℕ) (s : System) (i : ℕ) (c : Cpu) (t : System)
    → n ≤ 2 ^ 32
    → Inv n s
    → i < n
    → s.cpu i ≡ c
    → Prompt s c
    → Access s i c t
    → Inv n t
Access-Inv n s i outside t few inv lt at ok enter =
    take_ticket-Inv n s i inv lt (spinning s.lock.next) (ap has_ticket at) refl
      (inv.next_counts, omega (arith, inv.total), omega arith)
Access-Inv n s i (spinning x) t few inv lt at ok (spin ne) =
    go_to-Inv n s i inv lt (spinning x) (sym (ap has_ticket at)) (rw at at (inv.local i))
Access-Inv n s i (spinning x) t few inv lt at ok (acquire own) =
    let l = rw at at (inv.local i) in
    go_to-Inv n s i inv lt holding (sym (ap has_ticket at))
      (omega (arith, l, own, inv.owner_counts, inv.total, tickets-le n s.cpu), omega (arith, l))
Access-Inv n s i outside t few inv lt at ok load_owner =
    go_to-Inv n s i inv lt (loaded_owner s.lock.owner s.passed_on) (sym (ap has_ticket at))
      (inv.owner_counts, omega arith)
Access-Inv n s i (loaded_owner o stamp) t few inv lt at ok (load_busy ne) =
    go_to-Inv n s i inv lt outside (sym (ap has_ticket at)) tt
Access-Inv n s i (loaded_owner o stamp) t few inv lt at ok (load_free e) =
    let l = rw at at (inv.local i) in
    go_to-Inv n s i inv lt (before_exchange s.lock.next stamp) (sym (ap has_ticket at))
      (sym e ∙ l.0, l.1)
Access-Inv n s i (before_exchange m stamp) t few inv lt at ok (exchange e) =
    let l = rw at at (inv.local i) in
    take_ticket-Inv n s i inv lt holding (ap has_ticket at) refl
      (omega (arith, l, e, ok, inv.next_counts, inv.total), omega (arith, inv.total))
Access-Inv n s i (before_exchange m stamp) t few inv lt at ok (exchange_lost ne) =
    go_to-Inv n s i inv lt outside (sym (ap has_ticket at)) tt
Access-Inv n s i holding t few inv lt at ok unlock = pass_on-Inv n s i inv lt at

tickets-none : (n : ℕ) → tickets n (λ i. outside) ≡ 0
unfolding tickets
tickets-none zero = refl
tickets-none (suc n) = omega (arith, tickets-none n)

initial-Inv : (n : ℕ) → Inv n initial
initial-Inv n = record {
  mine = λ i. 0;
  next_counts = refl;
  owner_counts = refl;
  total = omega (arith, tickets-none n);
  local = λ i. tt;
  unique = λ i j h k e. absurd (omega arith);
  covered = λ k lo hi. absurd (omega arith);
}

pub Reach-Inv : (n : ℕ) (s : System) → n ≤ 2 ^ 32 → Reach n s → Inv n s
Reach-Inv n s few start = initial-Inv n
Reach-Inv n t few (later {s} i r lt ok access) =
    Access-Inv n s i (s.cpu i) t few (Reach-Inv n s few r) lt refl ok access
