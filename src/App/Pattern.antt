-- ===== src/App/Pattern.antt =====
-- The regular expressions of the routes, and `escapeRegex`.
pub mod Exact
use cloud_storage.Common.{
  ℕ, zero, suc, Bool, true, false, ◌||◌, List, [], ◌∷◌, ◌++◌, Option, none, some, Bytes, codes,
  ◌==◌, if◌then◌else◌,
}
use mathlib.Core.Option
use cloud_storage.App.Text.{after_prefix, is_some}

unfoldable pub is_special : ℕ → Bool
is_special c =
    c == b'.'
    || c == b'+'
    || c == b'*'
    || c == b'?'
    || c == b'^'
    || c == b'$'
    || c == b'('
    || c == b')'
    || c == b'['
    || c == b']'
    || c == b'{'
    || c == b'}'
    || c == b'|'
    || c == b'\\'

unfoldable pub escape_regex : Bytes → Bytes
escape_regex [] = []
escape_regex (c ∷ cs) =
    let rest = escape_regex cs in if is_special c then b'\\' ∷ c ∷ rest else c ∷ rest

-- The parts of the expressions that the routes use. `segment` is the group "([^/]+)".
pub data Part : Type 0 where
  start finish segment : Part
  literal : ℕ → Part

pub data Sign : Type 0 where
  start_sign finish_sign escape_sign group_sign operator plain : Sign

unfoldable pub sign_of : ℕ → Sign
unfolding is_special
sign_of c =
    if c == b'^'
    then start_sign
    else if c == b'$'
    then finish_sign
    else if c == b'\\'
    then escape_sign
    else if c == b'('
    then group_sign
    else if is_special c
    then operator
    else plain

pub data Mode : Type 0 where
  reads escapes : Mode
  skips : ℕ → Mode

abbrev pub with_part : Part → Option (List Part) → Option (List Part)
with_part p = Option.map (◌∷◌ p)

-- An expression with other parts is none.
unfoldable pub parse_regex : Mode → Bytes → Option (List Part)
unfolding sign_of is_special after_prefix
parse_regex reads [] = some []
parse_regex escapes [] = none
parse_regex (skips n) [] = none
parse_regex reads (c ∷ cs) = elim (sign_of c) [
  | start_sign ↦ with_part start (parse_regex reads cs)
  | finish_sign ↦ with_part finish (parse_regex reads cs)
  | escape_sign ↦ parse_regex escapes cs
  | group_sign ↦ elim (is_some (after_prefix (codes "[^/]+)") cs)) [
    | true ↦ with_part segment (parse_regex (skips 5) cs)
    | false ↦ none
  ]
  | operator ↦ none
  | plain ↦ with_part (literal c) (parse_regex reads cs)
]
parse_regex escapes (c ∷ cs) = elim (is_special c) [
  | true ↦ with_part (literal c) (parse_regex reads cs)
  | false ↦ none
]
parse_regex (skips zero) (c ∷ cs) = parse_regex reads cs
parse_regex (skips (suc n)) (c ∷ cs) = parse_regex (skips n) cs

abbrev pub longer : ℕ → List Bytes → List Bytes
longer c [] = []
longer c (first ∷ groups) = (c ∷ first) ∷ groups

-- The longest segment at the front that lets `next` match the rest.
abbrev pub match_segment : (Bytes → Option (List Bytes)) → Bytes → Option (List Bytes)
match_segment next [] = none
match_segment next (c ∷ cs) = elim (c == b'/') [
  | true ↦ none
  | false ↦ elim (match_segment next cs) [
    | some groups ↦ some (longer c groups)
    | none ↦ Option.map (◌∷◌ (c ∷ [])) (next cs)
  ]
]

-- The groups of a match of the whole text. `first` tells whether it is the text's front.
unfoldable pub match_parts : Bool → List Part → Bytes → Option (List Bytes)
match_parts first [] [] = some []
match_parts first [] (c ∷ cs) = none
match_parts first (start ∷ parts) s = elim first [ true ↦ match_parts true parts s | false ↦ none ]
match_parts first (finish ∷ parts) [] = match_parts first parts []
match_parts first (finish ∷ parts) (c ∷ cs) = none
match_parts first (literal x ∷ parts) [] = none
match_parts first (literal x ∷ parts) (c ∷ cs) = elim (c == x) [
  | true ↦ match_parts false parts cs
  | false ↦ none
]
match_parts first (segment ∷ parts) s = match_segment (match_parts false parts) s

-- `std::regex_match(s, matches, std::regex(pattern))`, with the groups behind the first.
unfoldable pub regex_match : Bytes → Bytes → Option (List Bytes)
unfolding parse_regex match_parts
regex_match pattern s = elim (parse_regex reads pattern) [
  | none ↦ none
  | some parts ↦ match_parts true parts s
]
