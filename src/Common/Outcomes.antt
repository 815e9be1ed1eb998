-- ===== src/Common/Outcomes.antt =====
-- What running a piece of the code comes to.
use mathlib.Core.Bool.{Bool, true, false}

-- `failed_assert` is an `assert` that does not hold; `out_of_fuel` is a loop cut off before its end.
pub data Result {ℓ} (A : Type ℓ) : Type ℓ where
  ok : A → Result A
  failed_assert : Result A
  out_of_fuel : Result A

-- The macro `assert`.
abbrev pub assert : Bool → Result (Unit {0})
assert false = failed_assert
assert true = ok tt

-- One step of the code, and the code behind it.
module _ {ℓ κ} {A : Type ℓ} {B : Type κ} where
  infixl 5 ◌>>=◌
  abbrev pub ◌>>=◌ : Result A → (A → Result B) → Result B
  failed_assert >>= later = failed_assert
  out_of_fuel >>= later = out_of_fuel
  ok result >>= later = later result

module _ {ℓ} {B : Type ℓ} where
  infixl 5 ◌>>◌
  abbrev pub ◌>>◌ : Result (Unit {0}) → Result B → Result B
  check >> later = check >>= λ _. later
