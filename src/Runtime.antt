-- ===== src/Runtime.antt =====
-- Kernel/Core/CppRuntime.cpp: the functions that compiled code calls around a static variable of a
-- function. The calls themselves are the compiler's: the guard's byte, the acquisition, the initialization,
-- and the release, once for each time that the declaration is reached.
use objective_hail_os.Prelude.{ℕ, zero, suc, ◌≡◌, refl, not, ◌==◌, if◌then◌else◌}

-- `__guard`: the byte `initialized`.
abbrev pub Guard : Type 0
Guard = ℕ

-- `__cxa_guard_acquire`, `__cxa_guard_release` and `__cxa_guard_abort`.
unfoldable pub cxa_guard_acquire : Guard → ℕ
cxa_guard_acquire g = if g == 0 then 1 else 0

abbrev pub cxa_guard_release : Guard → Guard
cxa_guard_release g = 1

abbrev pub cxa_guard_abort : Guard → Guard
cxa_guard_abort g = g

-- `__cxa_atexit`: nothing is recorded, and the answer is that of a success.
abbrev pub cxa_atexit : ℕ
cxa_atexit = 0

module _ {ℓ} {S : Type ℓ} (initialize : S → S) where
  -- The declaration of a static variable: the guard and the rest of the state.
  unfoldable pub declare_static : Guard × S → Guard × S
  unfolding cxa_guard_acquire
  declare_static (g, s) =
      if not (cxa_guard_acquire g == 0) then (cxa_guard_release g, initialize s) else (g, s)

  unfoldable pub declare_times : ℕ → Guard × S → Guard × S
  unfolding declare_static
  declare_times zero state = state
  declare_times (suc n) state = declare_times n (declare_static state)

  declared : (n : ℕ) (s : S) → declare_times n (1, s) ≡ (1, s)
  unfolding declare_times declare_static cxa_guard_acquire
  declared zero s = refl
  declared (suc n) s = declared n s

  -- A declaration that is reached at least once, from a guard that is 0, initializes its variable exactly
  -- once.
  pub declare_times-once : (n : ℕ) (s : S) → declare_times (suc n) (0, s) ≡ (1, initialize s)
  unfolding declare_times declare_static cxa_guard_acquire
  declare_times-once n s = declared n (initialize s)
