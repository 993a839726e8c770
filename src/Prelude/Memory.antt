-- ===== src/Prelude/Memory.antt =====
-- Arrays of the program as functions from the index: an access is never out of the model's range,
-- so what lies behind an array is a value too. `update` is a write.
use Prim.Native.Nat.{ℕ, ◌<◌}
use mathlib.Core.Path.{◌≡◌}
use mathlib.Core.Logic.{◌≢◌}
use native.Mathlib.Omega.{arith}
use objective_hail_os.Prelude.Tests.{◌==◌, if◌then◌else◌}

module _ {ℓ} {A : Type ℓ} where
  abbrev pub update : (ℕ → A) → ℕ → A → ℕ → A
  update data_at i v j = if i == j then v else data_at j

  pub update_self : (m : ℕ → A) (i : ℕ) (v : A) → update m i v i ≡ v
  update_self m i v = ground arith

  pub update_ne : (m : ℕ → A) (i j : ℕ) (v : A) → i ≢ j → update m i v j ≡ m j
  update_ne m i j v h = ground arith

-- Every element of the array is a byte.
abbrev pub IsBytes : (ℕ → ℕ) → Type 0
IsBytes m = (i : ℕ) → m i < 256

pub update-IsBytes : (m : ℕ → ℕ) (i v : ℕ) → IsBytes m → v < 256 → IsBytes (update m i v)
update-IsBytes m i v h lt j = ground (arith, h j)
