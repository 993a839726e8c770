-- ===== src/Scheduler/Rotation.antt =====
-- Kernel/Core/Scheduler/Scheduler.cpp: what a row of `Yield` calls does to the threads that wait.
use mathlib.Core.List.{append_assoc}
use objective_hail_os.Prelude.{
  ℕ, zero, suc, ◌≡◌, ◌≢◌, refl, sym, ◌∙◌, Bool, true, false, Option, none, some, List, [], ◌∷◌,
  ◌++◌, arith, ap,
}
use objective_hail_os.Scheduler.{Sched, yield_cpu}
use objective_hail_os.Scheduler.View.{View, Represents, take_next, view_yield, EndsIn}
use objective_hail_os.Scheduler.Refine.{yield_cpu-Represents}

infixl 5 ◌>>=◌
abbrev ◌>>=◌ : Option Sched → (Sched → Option Sched) → Option Sched
none >>= f = none
some s >>= f = f s

-- `n` calls of `Yield`, each made by the thread that runs then.
unfoldable pub yields : ℕ → Sched → Option Sched
yields zero s = some s
yields (suc n) s = do s' ← yield_cpu s; yields n s'

abbrev pub length : List ℕ → ℕ
length [] = 0
length (x ∷ xs) = suc (length xs)

yields-suc : (n : ℕ) (s s' : Sched) → yield_cpu s ≡ some s' → yields (suc n) s ≡ yields n s'
unfolding yields
yields-suc n s s' h = rw (h, yields)

-- One step, and what follows it from any state that the next view describes.
first_step :
    (n : ℕ) (s : Sched) (v v' w : View)
    → Represents s v
    → view_yield s.idle s.bootstrap v ≡ v'
    → ((s' : Sched)
        → Represents s' v'
        → s'.idle ≡ s.idle
        → s'.bootstrap ≡ s.bootstrap
        → EndsIn s' (yields n s') w)
    → EndsIn s (yields (suc n) s) w
first_step n s v v' w is e rest =
    let (s', stepped, is', i, b) = yield_cpu-Represents s v is in
    let (t, ended, described, i', b') = rest s' (rw e at is') i b in
    (t, yields-suc n s s' stepped ∙ ended, described, i' ∙ i, b' ∙ b)

no_step : (s : Sched) (v : View) → Represents s v → EndsIn s (yields 0 s) v
unfolding yields
no_step s v is = (s, refl, is, refl, refl)

abbrev pub view : ℕ → Bool → List ℕ → View
view c b xs = record { current = c; marked = b; waiting = xs }

-- A step of a thread that is neither the idle nor the bootstrap thread, with others waiting.
view_yield-cons :
    (idle bootstrap c x : ℕ) (xs : List ℕ)
    → c ≢ idle
    → c ≢ bootstrap
    → x ≢ c
    → view_yield idle bootstrap (view c true (x ∷ xs)) ≡ view x true (xs ++ c ∷ [])
unfolding view_yield take_next
view_yield-cons idle bootstrap c x xs h k l = ground arith

-- When the current thread is marked as running and is neither the idle nor the bootstrap thread,
-- and `x` waits behind the threads `front`, then after as many yields as `front` has threads and
-- one more, each by the thread that runs then, `x` runs, and those behind `x`, the thread that ran
-- first and `front` wait, in this order.
pub round_robin :
    (front back : List ℕ) (s : Sched) (c x : ℕ)
    → Represents s (view c true (front ++ x ∷ back))
    → c ≢ s.idle
    → c ≢ s.bootstrap
    → EndsIn s (yields (suc (length front)) s) (view x true (back ++ c ∷ front))
round_robin [] back s c x is h k =
    let other : x ≢ c = ground (arith, is.current, is.current_out) in
    first_step 0 s (view c true (x ∷ back)) (view x true (back ++ c ∷ [])) _ is
      (view_yield-cons s.idle s.bootstrap c x back h k other) (λ s' is' i b. no_step s' _ is')
round_robin (y ∷ front) back s c x is h k =
    let other : y ≢ c = ground (arith, is.current, is.current_out) in
    first_step (suc (length front)) s (view c true (y ∷ front ++ x ∷ back))
      (view y true (front ++ x ∷ (back ++ c ∷ []))) _ is
      (view_yield-cons s.idle s.bootstrap c y (front ++ x ∷ back) h k other
        ∙ ap (λ (r : List ℕ). view y true r) (append_assoc front (x ∷ back) (c ∷ [])))
      (λ s' is' i b. rw (← append_assoc back (c ∷ []) (y ∷ front)) (
        round_robin front (back ++ c ∷ []) s' y x is' (rw i (ground (arith, is.idle_out)))
          (rw b (ground (arith, is.bootstrap_out)))))

-- The idle thread with nothing waiting runs on.
idle_yields :
    (n : ℕ) (s : Sched) (idle : ℕ)
    → idle ≡ s.idle
    → Represents s (view idle true [])
    → EndsIn s (yields n s) (view idle true [])
idle_yields zero s idle own is = no_step s _ is
idle_yields (suc n) s idle own is =
    first_step n s (view idle true []) (view idle true []) _ is
      (unfold view_yield take_next in ground arith)
      (λ s' is' i b. idle_yields n s' idle (own ∙ sym i) is')

-- When a running thread that is neither the idle nor the bootstrap thread yields while no other
-- waits, then after two yields or more the idle thread runs and nothing waits: the thread is lost.
pub lone_thread_lost :
    (n : ℕ) (s : Sched) (c : ℕ)
    → Represents s (view c true [])
    → c ≢ s.idle
    → c ≢ s.bootstrap
    → EndsIn s (yields (suc (suc n)) s) (view s.idle true [])
lone_thread_lost n s c is h k =
    first_step (suc n) s (view c true []) (view c false []) _ is
      (unfold view_yield take_next in ground arith)
      (λ s1 is1 i1 b1.
        first_step n s1 (view c false []) (view s.idle true []) _ is1
          (unfold view_yield take_next in ground arith)
          (λ s2 is2 i2 b2. idle_yields n s2 s.idle (sym i1 ∙ sym i2) is2))
