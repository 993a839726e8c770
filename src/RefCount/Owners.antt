-- ===== src/RefCount/Owners.antt =====
-- Kernel/Include/Utility/RefPtr.hpp: the owners of an object, counted.
use objective_hail_os.Prelude.{
  ℕ, zero, suc, ◌+◌, ◌≤◌, ◌<◌, ◌≡◌, refl, true, false, arith, ◌==◌, if◌then◌else◌, update, dec_lt,
}
use objective_hail_os.RefCount.{Store}

-- How many of the first `n` variables hold the object.
unfoldable pub holders : ℕ → (ℕ → ℕ) → ℕ → ℕ
holders zero ptr a = 0
holders (suc n) ptr a = let rest = holders n ptr a in if ptr n == a then rest + 1 else rest

pub holders-le : (n : ℕ) (ptr : ℕ → ℕ) (a : ℕ) → holders n ptr a ≤ n
unfolding holders
holders-le zero ptr a = omega arith
holders-le (suc n) ptr a = let ih = holders-le n ptr a in ground arith

holders_outside :
    (n : ℕ) (ptr : ℕ → ℕ) (i v a : ℕ) → n ≤ i → holders n (update ptr i v) a ≡ holders n ptr a
unfolding holders
holders_outside zero ptr i v a h = refl
holders_outside (suc n) ptr i v a h =
    let ih = holders_outside n ptr i v a (omega arith) in ground arith

-- A write to a variable moves one holder.
pub holders-update :
    (n : ℕ) (ptr : ℕ → ℕ) (i v a : ℕ)
    → i < n
    → holders n (update ptr i v) a + (if ptr i == a then 1 else 0)
      ≡ holders n ptr a + (if v == a then 1 else 0)
unfolding holders
holders-update zero ptr i v a h = absurd (omega arith)
holders-update (suc n) ptr i v a h = elim (dec_lt i n) [
  | yes l ↦ let ih = holders-update n ptr i v a l in ground arith
  | no g ↦
      let e : i ≡ n = omega arith in
      let out = holders_outside n ptr n v a (omega arith) in rw e (ground arith)
]

pub holders-pos : (n : ℕ) (ptr : ℕ → ℕ) (i : ℕ) → i < n → 0 < holders n ptr (ptr i)
unfolding holders
holders-pos zero ptr i h = absurd (omega arith)
holders-pos (suc n) ptr i h = elim (dec_lt i n) [
  | yes l ↦ let ih = holders-pos n ptr i l in ground arith
  | no g ↦ let e : i ≡ n = omega arith in rw e (ground arith)
]

-- The state between two calls, with `n` variables and `raw` references that no variable holds (the 1
-- that an object starts with): the count of an object that is not destroyed is the number of its
-- references and is not 0; a destroyed object has no references.
pub record Counted (n : ℕ) (raw : ℕ → ℕ) (st : Store) : Type 0 where
  pub counted : (a : ℕ) → 0 < a → st.live a ≡ true → st.ref_count a ≡ holders n st.ptr a + raw a
  pub referenced : (a : ℕ) → 0 < a → st.live a ≡ true → 0 < holders n st.ptr a + raw a
  pub destroyed : (a : ℕ) → 0 < a → st.live a ≡ false → holders n st.ptr a + raw a ≡ 0
