-- ===== src/Prelude/Chain.antt =====
-- Chains of calls that may not come to an end: `none` stands for a call that is not over.
use mathlib.Core.Path.{◌≡◌, refl}
use mathlib.Core.Option.{Option, none, some}

infixl 5 ◌>>=◌
abbrev pub ◌>>=◌ {ℓ κ} : {A : Type ℓ} {B : Type κ} → Option A → (A → Option B) → Option B
none >>= next = none
some a >>= next = next a

pub >>=-none {ℓ κ} :
    {A : Type ℓ} {B : Type κ} (call : Option A) → ◌>>=◌ {B = B} call (λ _. none) ≡ none
>>=-none none = refl
>>=-none (some a) = refl

module _ {ℓ κ} {A : Type ℓ} {B : Type κ} where
  pub >>=-ext :
      (call : Option A) {f g : A → Option B} → ((a : A) → f a ≡ g a) → (call >>= f) ≡ (call >>= g)
  >>=-ext none same = refl
  >>=-ext (some a) same = same a

pub >>=_assoc {ℓ κ μ} :
    {A : Type ℓ} {B : Type κ} {C : Type μ} (call : Option A) (f : A → Option B) (g : B → Option C)
    → ((call >>= f) >>= g) ≡ (call >>= λ a. f a >>= g)
>>=_assoc none f g = refl
>>=_assoc (some a) f g = refl

abbrev pub some_pair {ℓ κ} : {A : Type ℓ} {B : Type κ} → A → B → Option (A × B)
some_pair a b = some (a, b)

-- Two chains on different states, one behind the other or call by call.
pub interleave {ℓ κ} :
    {A B : Type ℓ} {C D : Type κ} (one : Option A) (then_one : A → Option C) (two : Option B)
    (then_two : B → Option D)
    → ((one >>= then_one) >>= λ c. (two >>= then_two) >>= λ d. some_pair c d) ≡ (
        (one >>= λ a. two >>= λ b. some_pair a b) >>= λ t.
        then_one t.0 >>= λ c. then_two t.1 >>= λ d. some_pair c d)
interleave none then_one two then_two = refl
interleave (some a) then_one none then_two = >>=-none (then_one a)
interleave (some a) then_one (some b) then_two = refl
