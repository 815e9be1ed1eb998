-- ===== src/App/Text.antt =====
-- Numbers and searches in text, as the handlers use them of the C++ library.
use Prim.Native.Char.{code}
use Prim.Native.String.{String}
use mathlib.Core.Option
use cloud_storage.Common.{
  ℕ, zero, suc, ◌+◌, ◌-◌, ◌/◌, ◌%◌, ◌^◌, Bool, true, false, ◌&&◌, [], ◌∷◌, ◌++◌, Option, none, some,
  Bytes, ltb, leb, ◌==◌, if◌then◌else◌, is_digit, skip_spaces, digits_value,
}

abbrev encoded : ℕ → Bytes
encoded c =
    if ltb c 128
    then c ∷ []
    else if ltb c 2048
    then (192 + c / 64) ∷ (128 + c % 64) ∷ []
    else if ltb c 65536
    then (224 + c / 4096) ∷ (128 + c / 64 % 64) ∷ (128 + c % 64) ∷ []
    else (240 + c / 262144) ∷ (128 + c / 4096 % 64) ∷ (128 + c / 64 % 64) ∷ (128 + c % 64) ∷ []

-- A literal of a source file that is in UTF-8.
abbrev pub utf8 : String → Bytes
utf8 String.[] = []
utf8 (String.◌∷◌ c s) = encoded (code c) ++ utf8 s

-- `int`, and what the code computes from one. `negsuc n` is -(n + 1).
pub data ℤ : Type 0 where
  pos : ℕ → ℤ
  negsuc : ℕ → ℤ

unfoldable pub int_eq : ℤ → ℤ → Bool
int_eq (pos m) (pos n) = m == n
int_eq (negsuc m) (negsuc n) = m == n
int_eq _ _ = false

unfoldable pub is_positive : ℤ → Bool
is_positive (pos n) = ltb 0 n
is_positive (negsuc n) = false

-- The digits of a number, given more rounds than it has digits.
unfoldable pub digits : ℕ → ℕ → Bytes → Bytes
digits zero n acc = acc
digits (suc rounds) n acc =
    let rest = digits rounds (n / 10) ((b'0' + n % 10) ∷ acc) in
    if ltb n 10 then (b'0' + n) ∷ acc else rest

-- `std::to_string`.
unfoldable pub nat_text : ℕ → Bytes
unfolding digits
nat_text n = digits 20 n []

unfoldable pub int_text : ℤ → Bytes
unfolding nat_text
int_text (pos n) = nat_text n
int_text (negsuc n) = b'-' ∷ nat_text (suc n)

-- `static_cast<int>`.
unfoldable pub to_int : ℕ → ℤ
to_int n = let low = n % 2 ^ 32 in if ltb low (2 ^ 31) then pos low else negsuc (2 ^ 32 - low - 1)

abbrev signed : Bytes → Bool × Bytes
signed [] = (false, [])
signed (c ∷ cs) =
    if c == b'-' then (true, cs) else if c == b'+' then (false, cs) else (false, c ∷ cs)

abbrev starts_digit : Bytes → Bool
starts_digit [] = false
starts_digit (c ∷ cs) = is_digit c

-- `std::stoi`: none where it throws.
unfoldable pub stoi : Bytes → Option ℤ
unfolding skip_spaces digits_value is_digit
stoi s =
    let (negative, rest) = signed (skip_spaces s) in
    let v = digits_value 0 rest in
    if starts_digit rest
    then (if negative
        then (if v == 0
            then some (pos 0)
            else if leb v (2 ^ 31)
            then some (negsuc (v - 1))
            else none)
        else if ltb v (2 ^ 31)
        then some (pos v)
        else none)
    else none

-- `std::stoull`.
unfoldable pub stoull : Bytes → Option ℕ
unfolding skip_spaces digits_value is_digit
stoull s =
    let (negative, rest) = signed (skip_spaces s) in
    let v = digits_value 0 rest in
    if starts_digit rest && ltb v (2 ^ 64)
    then some (if negative then (2 ^ 64 - v) % 2 ^ 64 else v)
    else none

-- What follows `prefix`, if the text begins with it.
unfoldable pub after_prefix : Bytes → Bytes → Option Bytes
after_prefix [] s = some s
after_prefix (p ∷ ps) [] = none
after_prefix (p ∷ ps) (c ∷ cs) = let rest = after_prefix ps cs in if p == c then rest else none

abbrev pub is_some {ℓ} : {A : Type ℓ} → Option A → Bool
is_some none = false
is_some (some a) = true

-- `s.find(word)`.
unfoldable pub find_text : Bytes → Bytes → Option ℕ
unfolding after_prefix
find_text word [] = if is_some (after_prefix word []) then some 0 else none
find_text word (c ∷ cs) =
    if is_some (after_prefix word (c ∷ cs)) then some 0 else Option.map suc (find_text word cs)
