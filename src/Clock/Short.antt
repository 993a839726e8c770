-- ===== src/Clock/Short.antt =====
-- Kernel/Core/Timer/Timer.cpp and the sleeps of Kernel/Core/Scheduler/Thread.cpp: when waits end.
use objective_hail_os.Prelude.{
  ℕ, zero, suc, ◌+◌, ◌-◌, ◌*◌, ◌/◌, ◌^◌, ◌≤◌, ◌<◌, ◌≡◌, refl, true, false, some, ltb, ◌==◌, arith,
}
use native.Mathlib.Nat.{div-eq_of_lt}
use objective_hail_os.Prelude.Words.{u64}
use objective_hail_os.Clock.{Timer, wait_loop, stop_timer, wait_clock, sleep, sleep_until_tick}

wait_loop-first :
    (fuel : ℕ) (counter : ℕ → ℕ) (read limit k : ℕ)
    → k < fuel
    → limit ≤ counter (read + k)
    → ((j : ℕ) → j < k → counter (read + j) < limit)
    → wait_loop fuel counter read limit ≡ some k
unfolding wait_loop
wait_loop-first zero counter read limit k h past before = absurd (omega arith)
wait_loop-first (suc fuel) counter read limit zero h past before =
    let here : read + 0 ≡ read = omega arith in
    let at : limit ≤ counter read = rw (here) at past in
    let test : ltb (counter read) limit ≡ false = ground arith in rw test refl
wait_loop-first (suc fuel) counter read limit (suc k) h past before =
    let here : read + 0 ≡ read = omega arith in
    let there : read + suc k ≡ read + 1 + k = omega arith in
    let at : counter read < limit = rw (here) at (before 0 (omega arith)) in
    let test : ltb (counter read) limit ≡ true = ground arith in
    let ih =
      wait_loop-first fuel counter (read + 1) limit k (omega arith) (rw (there) at past) (λ j less.
        let shift : read + suc j ≡ read + 1 + j = omega arith in
        rw (shift) at (before (suc j) (omega arith))) in
    let more : k + 1 ≡ suc k = omega arith in rw (test, ih, more) refl

-- `SleepUntilTick` calls `Yield` exactly as often as the tick count is read below the target before it is
-- first read at or above the target, and ends there.
pub sleep_until_tick_lem :
    (fuel : ℕ) (ticks : ℕ → ℕ) (read target k : ℕ)
    → k < fuel
    → target ≤ ticks (read + k)
    → ((j : ℕ) → j < k → ticks (read + j) < target)
    → sleep_until_tick fuel ticks read target ≡ some k
unfolding sleep_until_tick
sleep_until_tick_lem fuel ticks read target k h past before =
    wait_loop-first fuel ticks read target k h past before

module _ (round : ℕ → ℕ) (exact : (n : ℕ) → n ≤ 2 ^ 53 → round n ≡ n) where
  -- `StopTimer` measures a time of less than a second as 0 in every scale, when `double` holds the
  -- whole numbers up to 2 ^ 53.
  pub stop_timer_short :
      (t : Timer) (tsc scale : ℕ)
      → u64 (tsc + 2 ^ 64 - t.last_stamp) < t.freq
      → stop_timer round t tsc scale ≡ some 0
  unfolding stop_timer
  stop_timer_short t tsc scale short =
      let some_freq : (t.freq == 0) ≡ false = ground arith in
      let whole : u64 (tsc + 2 ^ 64 - t.last_stamp) / t.freq ≡ 0 = div-eq_of_lt short in
      let none_yet : 0 * round scale ≡ 0 = omega arith in
      rw (some_freq, whole, exact 0 (omega arith), none_yet, exact 0 (omega arith)) refl

  -- `Sleep` of less than a second, in milliseconds or a finer scale, does not wait: its loop ends at
  -- its first read, when the counter does not run backwards.
  pub sleep_short :
      (fuel : ℕ) (counter : ℕ → ℕ) (t : Timer) (value scale : ℕ)
      → 0 < fuel
      → value < scale
      → counter 0 < 2 ^ 64
      → counter 0 ≤ counter 1
      → sleep round fuel counter t value scale ≡ some 0
  unfolding sleep wait_clock
  sleep_short fuel counter t value scale pos short word forward =
      let whole : value / scale ≡ 0 = div-eq_of_lt short in
      let nothing : round (t.freq) * 0 ≡ 0 = omega arith in
      let limit : u64 (counter 0 + 0) ≡ counter 0 = omega arith in
      rw (whole, exact 0 (omega arith), nothing, exact 0 (omega arith), limit)
        (wait_loop-first fuel counter 1 (counter 0) 0 pos forward (λ j less. absurd (omega arith)))
