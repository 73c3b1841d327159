-- ===== src/Js/Exn.antt =====
-- A JavaScript expression that may throw, as a value.
use webtransport_gos.Prelude.{◌≡◌}

-- `range_error` is thrown by the runtime (a typed array written out of bounds, or of a negative
-- length), and `type_error` too; the others are the `throw new Error(...)` of helper/NetString.js, by their messages.
pub data Error : Type 0 where
  range_error : Error
  type_error : Error
  find_leading_zeros : Error
  must_start_with_a_number : Error
  more_than_9_digits : Error
  miss_the_colon : Error
  miss_the_space : Error
  miss_the_comma : Error

pub data Result {ℓ} (A : Type ℓ) : Type ℓ where
  ok : A → Result A
  err : Error → Result A

infixl 5 ◌>>=◌
abbrev pub ◌>>=◌ {ℓ κ} : {A : Type ℓ} {B : Type κ} → Result A → (A → Result B) → Result B
ok a >>= f = f a
err e >>= f = err e

pub >>=-ok {ℓ κ μ} :
    {A : Type ℓ} {B : Type κ} {C : Type μ} (m : Result A) (f : A → Result B) (g : B → Result C)
    {b : B}
    → (m >>= f) ≡ ok b
    → (m >>= λ a. f a >>= g) ≡ g b
>>=-ok (ok a) f g e = rw e
>>=-ok (err x) f g e = cc
