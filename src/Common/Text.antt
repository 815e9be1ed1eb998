-- ===== src/Common/Text.antt =====
-- What the code uses of the C and C++ libraries on text. A text is its bytes.
use Prim.Native.Nat.{ℕ, ◌+◌, ◌-◌, ◌*◌, ◌%◌, ◌^◌, min}
use Prim.Native.Char.{code}
use Prim.Native.String.{String}
use mathlib.Core.Path.{◌≡◌, refl}
use mathlib.Core.Logic.{◌↔◌, ◌≢◌}
use mathlib.Core.Bool.{Bool, true, false, ◌&&◌, ◌||◌}
use mathlib.Core.List.{[], ◌∷◌, ◌++◌, map, reverse}
use mathlib.Core.Option
use mathlib.Core.Option.{Option, none, some}
use native.Mathlib.Omega.{arith}
use cloud_storage.Common.Tests.{ltb, leb, ◌==◌, if◌then◌else◌}
use cloud_storage.Common.Lists.{Bytes}

-- The code points of a literal: its bytes, as every literal here is ASCII.
abbrev pub codes : String → Bytes
codes String.[] = []
codes (String.◌∷◌ c s) = code c ∷ codes s

-- `==` of `std::string`.
unfoldable pub bytes_eq : Bytes → Bytes → Bool
bytes_eq [] [] = true
bytes_eq (x ∷ xs) (y ∷ ys) = x == y && bytes_eq xs ys
bytes_eq _ _ = false

pub bytes_eq_iff : (a b : Bytes) → (bytes_eq a b ≡ true) ↔ (a ≡ b)
unfolding bytes_eq
bytes_eq_iff (x ∷ a) (y ∷ b) = ground (arith, bytes_eq_iff a b)
bytes_eq_iff _ _ = ground arith

pub bytes_eq_refl : (a : Bytes) → bytes_eq a a ≡ true
bytes_eq_refl a = (bytes_eq_iff a a).1 refl

-- `<` of `std::string`: bytes compare as unsigned.
unfoldable pub bytes_lt : Bytes → Bytes → Bool
bytes_lt [] [] = false
bytes_lt [] (y ∷ ys) = true
bytes_lt (x ∷ xs) [] = false
bytes_lt (x ∷ xs) (y ∷ ys) = ltb x y || x == y && bytes_lt xs ys

pub bytes_lt_total : (a b : Bytes) → bytes_lt a b ≡ false → bytes_lt b a ≡ false → a ≡ b
unfolding bytes_lt
bytes_lt_total [] [] h k = refl
bytes_lt_total [] (y ∷ b) h k = cc
bytes_lt_total (x ∷ a) [] h k = cc
bytes_lt_total (x ∷ a) (y ∷ b) h k = ground (arith, bytes_lt_total a b)

-- `std::find` for a byte, with the parts of the range before and behind the match.
unfoldable pub break_on : ℕ → Bytes → Option (Bytes × Bytes)
break_on x [] = none
break_on x (c ∷ cs) =
    if c == x
    then some ([], cs)
    else Option.map (λ (p : Bytes × Bytes). (c ∷ p.0, p.1)) (break_on x cs)

-- The bytes are all other than `x`.
abbrev pub Lacks : ℕ → Bytes → Type 0
Lacks x [] = Unit
Lacks x (c ∷ cs) = (c ≢ x) × Lacks x cs

pub break_on-Lacks :
    (x : ℕ) (pre rest : Bytes) → Lacks x pre → break_on x (pre ++ (x ∷ rest)) ≡ some (pre, rest)
unfolding break_on
break_on-Lacks x [] rest h = ground arith
break_on-Lacks x (c ∷ pre) rest h = ground (arith, break_on-Lacks x pre rest h.1)

pub break_on-none : (x : ℕ) (s : Bytes) → Lacks x s → break_on x s ≡ none
unfolding break_on
break_on-none x [] h = refl
break_on-none x (c ∷ s) h = ground (arith, break_on-none x s h.1)

-- `isspace` in the C locale.
unfoldable pub is_space : ℕ → Bool
is_space c = leb 9 c && leb c 13 || c == 32

-- A loop that moves past white space at the front.
unfoldable pub skip_spaces : Bytes → Bytes
unfolding is_space
skip_spaces [] = []
skip_spaces (c ∷ cs) = let rest = skip_spaces cs in if is_space c then rest else c ∷ cs

-- A loop that drops white space at the end, last byte first.
unfoldable pub trim_end : Bytes → Bytes
unfolding skip_spaces
trim_end s = reverse (skip_spaces (reverse s))

unfoldable pub to_lower : ℕ → ℕ
to_lower c = if leb b'A' c && leb c b'Z' then c + 32 else c

-- The C string in a buffer ends at its first NUL.
unfoldable pub c_str : Bytes → Bytes
c_str [] = []
c_str (c ∷ cs) = let rest = c_str cs in if c == 0 then [] else c ∷ rest

-- `strcasecmp(a, b) == 0`.
unfoldable pub case_eq : Bytes → Bytes → Bool
unfolding c_str to_lower bytes_eq
case_eq a b = bytes_eq (map to_lower (c_str a)) (map to_lower (c_str b))

unfoldable pub is_digit : ℕ → Bool
is_digit c = leb b'0' c && leb c b'9'

-- The value of the digits at the front.
unfoldable pub digits_value : ℕ → Bytes → ℕ
unfolding is_digit
digits_value acc [] = acc
digits_value acc (c ∷ cs) =
    let rest = digits_value (acc * 10 + (c - b'0')) cs in if is_digit c then rest else acc

-- From 32 bits to 64.
abbrev extend_sign : ℕ → ℕ
extend_sign w = if ltb w (2 ^ 31) then w else 2 ^ 64 - 2 ^ 32 + w

abbrev sign_split : Bytes → Bool × Bytes
sign_split [] = (false, [])
sign_split (c ∷ cs) =
    if c == b'-' then (true, cs) else if c == b'+' then (false, cs) else (false, c ∷ cs)

-- `static_cast<size_t>(atoi(s))`. glibc's `atoi` is `(int)strtol(s, NULL, 10)`: `strtol` stops at
-- the limits of `long`, the cast keeps the low 32 bits, and the conversion extends the sign.
unfoldable pub atoi_size : Bytes → ℕ
unfolding skip_spaces digits_value
atoi_size s =
    let (negative, rest) = sign_split (skip_spaces s) in
    let v = digits_value 0 rest in
    if negative
    then extend_sign ((2 ^ 64 - min v (2 ^ 63)) % 2 ^ 32)
    else extend_sign (min v (2 ^ 63 - 1) % 2 ^ 32)
