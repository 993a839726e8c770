-- ===== src/Clock.antt =====
-- Kernel/Core/Timer/Timer.cpp, the frequency in Kernel/Arch/x86_64/Utility/TSC.hpp, and SleepUntilTick and
-- SleepMs of Kernel/Core/Scheduler/Thread.cpp. What the counters hold at each read and what CPUID returns
-- are parameters; so is `round`, the conversion of a whole number to `double`, whose products are
-- rounded the same way. Loops on a counter run on fuel.
pub mod Short
use objective_hail_os.Prelude.{
  ℕ, zero, suc, ◌+◌, ◌-◌, ◌*◌, ◌/◌, ◌%◌, ◌^◌, bit_and, bit_or, Bool, true, false, not, ◌&&◌, Option,
  none, some, ltb, ◌==◌, if◌then◌else◌,
}
use objective_hail_os.Prelude.Words.{u32, u64}

abbrev pub seconds : ℕ
seconds = 1

abbrev pub milliseconds : ℕ
milliseconds = 1000

abbrev pub nanosecounds : ℕ
nanosecounds = 1000000000

-- `Timer`; its type is always TSC_TIMER.
pub record Timer : Type 0 where
  pub freq : ℕ
  pub last_stamp : ℕ
  pub time_scale : ℕ

-- The two constructors; `tsc_freq` is that of the clock information.
abbrev pub timer : (tsc_freq : ℕ) → Timer
timer tsc_freq = record { freq = tsc_freq; last_stamp = 0; time_scale = milliseconds }

abbrev pub set_time_scale : Timer → ℕ → Timer
set_time_scale t scale = record t { time_scale = scale }

-- `StartTimer` and `RestartTimer`, when the counter holds `tsc`.
unfoldable pub start_timer : Timer → (tsc : ℕ) → Timer
start_timer t tsc = record t { last_stamp = tsc }

-- A loop that ends at the first read that is not below `limit`; the number of reads before it.
unfoldable pub wait_loop : ℕ → (counter : ℕ → ℕ) → (read limit : ℕ) → Option ℕ
wait_loop zero counter read limit = none
wait_loop (suc fuel) counter read limit =
    let rest = wait_loop fuel counter (read + 1) limit in
    if ltb (counter read) limit then elim rest [ none ↦ none | some n ↦ some (n + 1) ] else some 0

module _ (round : ℕ → ℕ) where
  -- `StopTimer` and `LapTimer`; `none` is a division by zero.
  unfoldable pub stop_timer : Timer → (tsc scale : ℕ) → Option ℕ
  stop_timer t tsc scale =
      let delta = u64 (tsc + 2 ^ 64 - t.last_stamp) in
      if t.freq == 0 then none else some (u64 (round (round (delta / t.freq) * round scale)))

  -- The clocks that `Sleep` waits for.
  unfoldable pub wait_clock : Timer → (value scale : ℕ) → ℕ
  wait_clock t value scale = u64 (round (round t.freq * round (value / scale)))

  -- `Sleep`: the number of reads of the counter in its loop before the last.
  unfoldable pub sleep : ℕ → (counter : ℕ → ℕ) → Timer → (value scale : ℕ) → Option ℕ
  sleep fuel counter t value scale =
      let begin = counter 0 in wait_loop fuel counter 1 (u64 (begin + wait_clock t value scale))

-- `SleepUntilTick`, when the tick count is read for the `read`th time: the number of calls of `Yield`.
unfoldable pub sleep_until_tick : ℕ → (ticks : ℕ → ℕ) → (read target : ℕ) → Option ℕ
sleep_until_tick fuel ticks read target = wait_loop fuel ticks read target

-- `SleepMs`.
unfoldable pub sleep_ms : ℕ → (ticks : ℕ → ℕ) → (ms : ℕ) → Option ℕ
sleep_ms fuel ticks ms = sleep_until_tick fuel ticks 1 (u64 (ticks 0 + ms))

-- The registers that CPUID returns.
pub record Cpuid : Type 0 where
  pub eax : ℕ
  pub ebx : ℕ
  pub ecx : ℕ
  pub edx : ℕ

-- `TSC::TryGetTSCFreq` and `TSC::InternalIsInvaliantTSC`.
unfoldable pub try_get_tsc_freq : (cpuid : ℕ → Cpuid) → ℕ
try_get_tsc_freq cpuid =
    let r = cpuid 0x15 in
    let base = bit_and (cpuid 0x16).eax 0xffff in
    if not (r.eax == 0) && (not (r.ebx == 0) && not (r.ecx == 0))
    then u64 (r.ecx * r.ebx) / r.eax
    else (if not (base == 0) then u64 (base * 1000 * 1000) else 0)

unfoldable pub is_invaliant_tsc : (cpuid : ℕ → Cpuid) → Bool
is_invaliant_tsc cpuid = not (bit_and (cpuid 0x80000007).edx (2 ^ 8) == 0)

-- `ReadTSC`: the halves that `rdtsc` returns.
unfoldable pub read_tsc : (lo hi : ℕ) → ℕ
read_tsc lo hi = bit_or (u64 (hi * 2 ^ 32)) lo

-- The forms of `Sleep`, `StopTimer` and `LapTimer` without a scale.
module _ (round : ℕ → ℕ) where
  abbrev pub sleep_scaled : ℕ → (counter : ℕ → ℕ) → Timer → (value : ℕ) → Option ℕ
  sleep_scaled fuel counter t value = sleep round fuel counter t value t.time_scale

  abbrev pub stop_timer_scaled : Timer → (tsc : ℕ) → Option ℕ
  stop_timer_scaled t tsc = stop_timer round t tsc t.time_scale

  abbrev pub lap_timer_scaled : Timer → (tsc : ℕ) → Option ℕ
  lap_timer_scaled t tsc = stop_timer round t tsc t.time_scale

-- `GetFrequency`, `GetCurrentStamp` and `GetTimeScale` of a timer.
abbrev pub get_frequency : Timer → ℕ
get_frequency t = t.freq

abbrev pub get_current_stamp : Timer → (tsc : ℕ) → ℕ
get_current_stamp t tsc = tsc

abbrev pub get_time_scale : Timer → ℕ
get_time_scale t = t.time_scale

-- The class `TSC` and its two constructors.
pub record Tsc : Type 0 where
  pub is_invaliant : Bool
  pub freq : ℕ

abbrev pub tsc_detected : (cpuid : ℕ → Cpuid) → Tsc
unfolding try_get_tsc_freq is_invaliant_tsc
tsc_detected cpuid = record { is_invaliant = is_invaliant_tsc cpuid; freq = try_get_tsc_freq cpuid }

abbrev pub tsc_given : (cpuid : ℕ → Cpuid) → (tsc_freq : ℕ) → Tsc
unfolding is_invaliant_tsc
tsc_given cpuid tsc_freq = record { is_invaliant = is_invaliant_tsc cpuid; freq = tsc_freq }
