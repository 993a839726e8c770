-- ===== src/RunQueue/Chain.antt =====
-- Kernel/Core/Scheduler/RunQueue.hpp: the list of threads that the links of a queue describe.
use objective_hail_os.Prelude.{ℕ, ◌≡◌, ◌≢◌, Bool, true, false, ◌||◌, List, [], ◌∷◌, arith, ◌==◌}
use objective_hail_os.RunQueue.{Threads, RunQueue, null}

abbrev pub has : ℕ → List ℕ → Bool
has a [] = false
has a (x ∷ xs) = (a == x) || has a xs

abbrev pub Distinct : List ℕ → Type 0
Distinct [] = Unit {0}
Distinct (x ∷ xs) = (has x xs ≡ false) × Distinct xs

-- From `p`, whose predecessor is `prev`, the links lead through `xs` to the last thread `tail`.
abbrev pub Chain : Threads → (prev p tail : ℕ) → List ℕ → Type 0
Chain th prev p tail [] = (p ≡ null) × (tail ≡ prev)
Chain th prev p tail (x ∷ xs) =
    (p ≡ x) × (x ≢ null) × ((th x).prev ≡ prev) × Chain th x (th x).next tail xs

-- The queue holds the threads `xs`, in this order.
pub record IsQueue (th : Threads) (q : RunQueue) (xs : List ℕ) : Type 0 where
  pub chain : Chain th null q.head q.tail xs
  pub distinct : Distinct xs

pub tail-mem :
    (th : Threads) (prev p tail x : ℕ) (xs : List ℕ)
    → Chain th prev p tail (x ∷ xs)
    → has tail (x ∷ xs) ≡ true
tail-mem th prev p tail x [] c = ground arith
tail-mem th prev p tail x (y ∷ xs) c = ground (arith, tail-mem th x (th x).next tail y xs c.3)

-- A chain survives changes that spare its threads' links.
pub Chain-frame :
    (th th' : Threads) (prev p tail : ℕ) (xs : List ℕ)
    → ((a : ℕ) → has a xs ≡ true → ((th' a).next ≡ (th a).next) × ((th' a).prev ≡ (th a).prev))
    → Chain th prev p tail xs
    → Chain th' prev p tail xs
Chain-frame th th' prev p tail [] same c = c
Chain-frame th th' prev p tail (x ∷ xs) same c =
    let here = same x (ground arith) in
    let rest = Chain-frame th th' x (th x).next tail xs (λ a m. same a (ground arith)) c.3 in
    (c.0, c.1, ground arith, rw here.0 rest)
