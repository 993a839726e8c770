-- ===== src/Identity.antt =====
-- Kernel/Core/UUID/UUID.cpp, Kernel/Include/Object/Interface/InterfaceID.hpp, QueryInterface of
-- Kernel/Include/Object/RefCountedBase.hpp, and the random numbers of
-- Kernel/Arch/x86_64/Utility/Random.hpp. The results of RDRAND, one after the other, and the time stamp
-- counter are parameters.
pub mod Query
use objective_hail_os.Prelude.{
  ℕ, zero, suc, ◌+◌, ◌/◌, ◌%◌, ◌^◌, Bool, true, false, not, ◌-◌, ◌*◌, ltb, leb, ◌||◌, Option, none,
  some, ◌==◌, if◌then◌else◌, update,
}
use Prim.Native.Nat.{bit_xor}
use objective_hail_os.Prelude.Words.{u16, u32}
use objective_hail_os.MemoryUtility.{copy_memory, compare_memory}
use objective_hail_os.RefCount.{Store, add_ref}

-- `sizeof(m_Bytes)`.
abbrev pub size_of_uuid : ℕ
size_of_uuid = 16

-- The copying constructors of `UUID`, from the bytes at `src` to the object's at `dest`.
unfoldable pub uuid_copy : (ℕ → ℕ) → (src dest : ℕ) → ℕ → ℕ
uuid_copy m src dest = copy_memory m src dest size_of_uuid

-- `UUID::operator==` and `UUID::operator!=` of the object at `this`.
unfoldable pub uuid_equal : (ℕ → ℕ) → (this rhs : ℕ) → Bool
uuid_equal m this rhs = compare_memory m rhs this size_of_uuid

unfoldable pub uuid_unequal : (ℕ → ℕ) → (this rhs : ℕ) → Bool
unfolding uuid_equal
uuid_unequal m this rhs = not (uuid_equal m this rhs)

-- The bytes of an `InterfaceID`.
abbrev pub InterfaceId : Type 0
InterfaceId = ℕ → ℕ

-- The loop of `InterfaceID::operator==` at byte `i`.
unfoldable pub id_loop : ℕ → InterfaceId → InterfaceId → ℕ → Bool
id_loop zero a b i = true
id_loop (suc left) a b i =
    let rest = id_loop left a b (i + 1) in if not (a i == b i) then false else rest

unfoldable pub id_equal : InterfaceId → InterfaceId → Bool
id_equal a b = id_loop 16 a b 0

-- `QueryInterface` of the object at `this`: the result, the pointers in memory and the objects. `kernel_object`
-- is IID_IKernelObject, and `out` the address at which the pointer is stored.
unfoldable pub query_interface :
    (kernel_object : InterfaceId)
    → Store
    → (pointers : ℕ → ℕ) → (this : ℕ) → InterfaceId
    → (out : ℕ) → Bool × (ℕ → ℕ) × Store
query_interface kernel_object st pointers this iid out =
    if out == 0
    then (false, pointers, st)
    else (if id_equal iid kernel_object
        then (true, update pointers out this, add_ref st this)
        else (false, update pointers out 0, st))

-- The loop of `HwGenerateRandom64`: the first of the results that is there.
unfoldable pub try_loop : ℕ → (rdrand : ℕ → Option ℕ) → ℕ → Option ℕ
try_loop zero rdrand i = none
try_loop (suc left) rdrand i =
    let rest = try_loop left rdrand (i + 1) in elim (rdrand i) [ none ↦ rest | some v ↦ some v ]

abbrev pub rdrand_try_max : ℕ
rdrand_try_max = 10

-- `HwGenerateRandom16`, `32` and `64`: the counter is read at `tsc` and then at `tsc'`.
module _ (rdrand : ℕ → Option ℕ) (tsc tsc' : ℕ) where
  unfoldable pub hw_generate_random_16 : ℕ
  hw_generate_random_16 = elim (try_loop rdrand_try_max rdrand 0) [
    | none ↦ u16 (bit_xor tsc (tsc' / 2 ^ 16))
    | some v ↦ v
  ]

  unfoldable pub hw_generate_random_32 : ℕ
  hw_generate_random_32 = elim (try_loop rdrand_try_max rdrand 0) [
    | none ↦ u32 (bit_xor tsc (tsc' / 2 ^ 20))
    | some v ↦ v
  ]

  unfoldable pub hw_generate_random_64 : ℕ
  hw_generate_random_64 = elim (try_loop rdrand_try_max rdrand 0) [
    | none ↦ bit_xor tsc (tsc' / 2 ^ 24)
    | some v ↦ v
  ]

-- `HardwareRandomDevice`: `Generate16`, `32` and `64`.
abbrev pub generate_16 : (rdrand : ℕ → Option ℕ) (tsc tsc' : ℕ) → ℕ
generate_16 = hw_generate_random_16

abbrev pub generate_32 : (rdrand : ℕ → Option ℕ) (tsc tsc' : ℕ) → ℕ
generate_32 = hw_generate_random_32

abbrev pub generate_64 : (rdrand : ℕ → Option ℕ) (tsc tsc' : ℕ) → ℕ
generate_64 = hw_generate_random_64

-- `UUID(rd)`: the two numbers as the bytes of the object at `this`, the lowest byte first.
unfoldable pub uuid_random : (ℕ → ℕ) → (this first second : ℕ) → ℕ → ℕ
uuid_random m this first second a =
    if ltb a this || leb (this + size_of_uuid) a
    then m a
    else (if ltb a (this + 8)
        then first / 2 ^ (8 * (a - this)) % 256
        else second / 2 ^ (8 * (a - this - 8)) % 256)
