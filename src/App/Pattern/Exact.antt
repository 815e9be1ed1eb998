-- ===== src/App/Pattern/Exact.antt =====
-- An escaped path as a regular expression.
use cloud_storage.Common.{
  ℕ, Bool, true, false, ◌&&◌, List, [], ◌∷◌, ◌++◌, Option, none, some, Bytes, codes, ◌==◌,
  if◌then◌else◌, ◌≡◌, refl, ap, ◌∙◌, arith, bytes_eq,
}
use cloud_storage.App.Pattern.{
  escape_regex, is_special, sign_of, plain, parse_regex, reads, escapes, Part, literal, start,
  finish, with_part, match_parts, regex_match,
}

sign_of-plain : (c : ℕ) → is_special c ≡ false → sign_of c ≡ plain
unfolding is_special sign_of
sign_of-plain c h = ground arith

parse-plain :
    (c : ℕ) (s : Bytes)
    → is_special c ≡ false
    → parse_regex reads (c ∷ s) ≡ with_part (literal c) (parse_regex reads s)
unfolding parse_regex
parse-plain c s h = rw (sign_of-plain c h, parse_regex) refl

parse-escape : (c : ℕ) (s : Bytes) → parse_regex reads (b'\\' ∷ c ∷ s) ≡ parse_regex escapes (c ∷ s)
unfolding parse_regex sign_of
parse-escape c s = refl

escaped_char :
    (c : ℕ) (rest u : Bytes) (t : Bool)
    → is_special c ≡ t
    → parse_regex reads ((if t then b'\\' ∷ c ∷ rest else c ∷ rest) ++ u)
      ≡ with_part (literal c) (parse_regex reads (rest ++ u))
unfolding parse_regex
escaped_char c rest u true h = parse-escape c (rest ++ u) ∙ rw (h, parse_regex) refl
escaped_char c rest u false h = parse-plain c (rest ++ u) h

abbrev exact_parts : Bytes → List Part
exact_parts [] = finish ∷ []
exact_parts (c ∷ p) = literal c ∷ exact_parts p

parse-finish : parse_regex reads (codes "$") ≡ some (finish ∷ [])
unfolding parse_regex sign_of
parse-finish = refl

parse-escaped : (p : Bytes) → parse_regex reads (escape_regex p ++ codes "$") ≡ some (exact_parts p)
unfolding escape_regex
parse-escaped [] = parse-finish
parse-escaped (c ∷ p) =
    escaped_char c (escape_regex p) (codes "$") (is_special c) refl
    ∙ ap (with_part (literal c)) (parse-escaped p)

guarded :
    (t q : Bool)
    → (elim t as (λ _. Option (List Bytes)) [ true ↦ if q then some [] else none | false ↦ none ])
      ≡ (if t && q then some [] else none)
guarded true q = refl
guarded false q = refl

match-exact :
    (first : Bool) (p s : Bytes)
    → match_parts first (exact_parts p) s ≡ (if bytes_eq s p then some [] else none)
unfolding match_parts bytes_eq
match-exact first [] [] = refl
match-exact first [] (x ∷ s) = refl
match-exact first (c ∷ p) [] = refl
match-exact first (c ∷ p) (x ∷ s) =
    ap (λ r. elim (x == c) as (λ _. Option (List Bytes)) [ true ↦ r | false ↦ none ])
      (match-exact false p s)
    ∙ guarded (x == c) (bytes_eq s p)

parse-start :
    (s : Bytes) → parse_regex reads (codes "^" ++ s) ≡ with_part start (parse_regex reads s)
unfolding parse_regex sign_of
parse-start s = refl

-- The expression of a route without parameters, which is the escaped path between "^" and "$",
-- matches this path and no other text, and it has no groups.
pub escape_regex-exact :
    (p s : Bytes)
    → regex_match (codes "^" ++ (escape_regex p ++ codes "$")) s
      ≡ (if bytes_eq s p then some [] else none)
unfolding regex_match match_parts
escape_regex-exact p s =
    ap
      (λ r. elim r as (λ _. Option (List Bytes)) [
        | none ↦ none
        | some parts ↦ match_parts true parts s
      ])
      (parse-start (escape_regex p ++ codes "$") ∙ ap (with_part start) (parse-escaped p))
    ∙ match-exact true p s
