-- ===== src/Http/Query.antt =====
-- The query parameters of a request: `getQuery` and `urlDecode`.
pub mod Decode
pub mod Lookup
use cloud_storage.Common.{
  ℕ, suc, zero, ◌+◌, ◌-◌, ◌*◌, ◌/◌, ◌%◌, ◌<◌, ◌≡◌, refl, sym, ap, ◌∙◌, Bool, true, false, not, ◌&&◌,
  ◌||◌, List, [], ◌∷◌, ◌++◌, Option, none, some, Bytes, codes, bytes_eq, break_on, ◌==◌, leb, ltb,
  if◌then◌else◌, Lacks, ◌≢◌, arith, length, Bool-cases, inl, inr, bytes_eq_iff, bytes_eq_refl,
  break_on-Lacks, break_on-none,
}
use cloud_storage.Http.Request.{HttpRequest}
use mathlib.Core.Option

abbrev add_byte : Bool → ℕ → List Bytes → List Bytes
add_byte true c parts = [] ∷ parts
add_byte false c [] = (c ∷ []) ∷ []
add_byte false c (p ∷ parts) = (c ∷ p) ∷ parts

-- The loop that cuts a text at each `sep`.
unfoldable pub split_on : ℕ → Bytes → List Bytes
split_on sep [] = [] ∷ []
split_on sep (c ∷ cs) = add_byte (c == sep) c (split_on sep cs)

-- `value` after `sscanf(two, "%x", &value)`, for the two bytes given to it. What it is for bytes
-- that are no hexadecimal number is up to the C library and to the stack.
pub record Scanner : Type 0 where
  pub scan_hex : ℕ → ℕ → ℕ

abbrev pub is_hex : ℕ → Bool
is_hex c = leb b'0' c && leb c b'9' || leb b'A' c && leb c b'F' || leb b'a' c && leb c b'f'

abbrev pub hex_value : ℕ → ℕ
hex_value c = if leb c b'9' then c - b'0' else if leb c b'F' then c - b'A' + 10 else c - b'a' + 10

-- What C says of "%x" on two hexadecimal digits.
pub record ReadsHex (s : Scanner) : Type 0 where
  pub reads_digits :
      (a b : ℕ)
      → is_hex a ≡ true
      → is_hex b ≡ true
      → s.scan_hex a b ≡ hex_value a * 16 + hex_value b

module _ (s : Scanner) where
  -- A `%` with fewer than two bytes behind it is dropped alone.
  unfoldable pub url_decode : Bytes → Bytes
  url_decode [] = []
  url_decode (c ∷ []) = if c == b'%' then [] else (if c == b'+' then b' ' else c) ∷ []
  url_decode (c ∷ d ∷ []) =
      let rest = url_decode (d ∷ []) in
      if c == b'%' then rest else (if c == b'+' then b' ' else c) ∷ rest
  url_decode (c ∷ d ∷ e ∷ cs) =
      let escaped = url_decode cs in
      let rest = url_decode (d ∷ e ∷ cs) in
      if c == b'%' then (s.scan_hex d e % 256) ∷ escaped else (if c == b'+' then b' ' else c) ∷ rest

  -- The loop over the parameters.
  unfoldable pub find_param : Bytes → Bytes → List Bytes → Bytes
  find_param key default [] = default
  find_param key default (p ∷ params) =
      let rest = find_param key default params in
      elim (break_on b'=' p) [
        | some (k, v) ↦ if bytes_eq k key then url_decode v else rest
        | none ↦ if bytes_eq p key then codes "true" else rest
      ]

  abbrev after_question : Bytes → Bytes → Bytes → Bytes
  after_question key default [] = default
  after_question key default (c ∷ q) =
      if c == b'?' then find_param key default (split_on b'&' q) else default

  unfoldable pub get_query : HttpRequest → Bytes → Bytes → Bytes
  get_query r key default = after_question key default r.query
