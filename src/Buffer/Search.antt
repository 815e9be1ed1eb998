-- ===== src/Buffer/Search.antt =====
-- The match that `findCRLF` finds.
use cloud_storage.Common.{
  ℕ, suc, ◌+◌, ◌≡◌, ◌≢◌, refl, sym, ap, ◌∙◌, ◌++◌, [], ◌∷◌, inl, inr, true, false, Bool-cases,
  Bytes, length, arith, none, some, Option-cases,
}
use mathlib.Core.Option
use cloud_storage.Buffer.{Buffer, readable, find_crlf, search_crlf, starts_crlf}

abbrev pub crlf : Bytes
crlf = b'\r' ∷ b'\n' ∷ []

starts_crlf→append : (s : Bytes) → starts_crlf s ≡ true → (post : Bytes) × (s ≡ crlf ++ post)
unfolding starts_crlf
starts_crlf→append [] h = cc
starts_crlf→append (c ∷ []) h = cc
starts_crlf→append (c ∷ d ∷ post) h = (post, ground arith)

starts_crlf-append :
    (c : ℕ) (xs ys : Bytes) → starts_crlf (c ∷ xs) ≡ true → starts_crlf (c ∷ (xs ++ ys)) ≡ true
unfolding starts_crlf
starts_crlf-append c [] ys h = cc
starts_crlf-append c (d ∷ xs) ys h = h

-- A line break in `s` at or before the end of `x` is found.
search_crlf-is_some : (x y : Bytes) → search_crlf (x ++ (crlf ++ y)) ≢ none
unfolding search_crlf starts_crlf
search_crlf-is_some [] y e = cc
search_crlf-is_some (c ∷ x) y e = elim (Bool-cases (starts_crlf (c ∷ (x ++ (crlf ++ y))))) [
  | inl here ↦ ground (arith, here, e)
  | inr later ↦ search_crlf-is_some x y (ground (arith, later, e))
]

abbrev pub IsCrlfFree : Bytes → Type 0
IsCrlfFree s = (x y : Bytes) → s ≢ x ++ (crlf ++ y)

pub search_crlf-none : (s : Bytes) → search_crlf s ≡ none → IsCrlfFree s
search_crlf-none s e x y split = search_crlf-is_some x y (ap search_crlf (sym split) ∙ e)

-- A search that fails in the tail and not at the head fails.
search_crlf-cons :
    (c : ℕ) (cs : Bytes)
    → starts_crlf (c ∷ cs) ≡ false
    → search_crlf (c ∷ cs) ≡ Option.map suc (search_crlf cs)
unfolding search_crlf
search_crlf-cons c cs h = rw h

-- A match at `k` splits the text there, and there is none before it.
pub search_crlf-some :
    (s : Bytes) (k : ℕ)
    → search_crlf s ≡ some k
    → (pre : Bytes) × (post : Bytes) × (s ≡ pre ++ (crlf ++ post))
      × (k ≡ length pre)
      × (search_crlf pre ≡ none)
unfolding search_crlf
search_crlf-some [] k h = cc
search_crlf-some (c ∷ cs) k h = elim (Bool-cases (starts_crlf (c ∷ cs))) [
  | inl here ↦
      let (post, e) = starts_crlf→append (c ∷ cs) here in ([], post, e, ground (arith, here), refl)
  | inr later ↦ elim (Option-cases (search_crlf cs)) [
    | inl missing ↦ let e : none ≡ some k = ground (arith, missing, later) in cc
    | inr (j, e) ↦
        let (pre, post, split, at, free) = search_crlf-some cs j e in
        let not_here : starts_crlf (c ∷ pre) ≡ false = elim (Bool-cases (starts_crlf (c ∷ pre))) [
          | inl yes_here ↦
              let up = starts_crlf-append c pre (crlf ++ post) yes_here in
              let up' : starts_crlf (c ∷ cs) ≡ true =
                ap (λ (t : Bytes). starts_crlf (c ∷ t)) split ∙ up in
              cc
          | inr fine ↦ fine
        ] in
        (c ∷ pre, post, ap (◌∷◌ c) split, ground (arith, e, later, at), rw (not_here, free))
  ]
]

-- The search stops at the first line break behind a line that has none.
pub search_crlf-line :
    (line rest : Bytes)
    → search_crlf line ≡ none
    → search_crlf (line ++ (crlf ++ rest)) ≡ some (length line)
unfolding search_crlf starts_crlf
search_crlf-line [] rest h = refl
search_crlf-line (c ∷ []) rest h = ground arith
search_crlf-line (c ∷ d ∷ line) rest h = ground (arith, search_crlf-line (d ∷ line) rest)

-- If `findCRLF` returns a position, the readable bytes split there into a part with no line break,
-- the line break and the rest; if it returns null, there is no line break among them.
pub find_crlf-first :
    (b : Buffer)
    → ((p : ℕ)
        → find_crlf b ≡ some p
        → (pre : Bytes) × (post : Bytes) × (readable b ≡ pre ++ (crlf ++ post))
          × (p ≡ b.read_index + length pre)
          × IsCrlfFree pre)
      × (find_crlf b ≡ none → IsCrlfFree (readable b))
unfolding find_crlf
find_crlf-first b = elim (Option-cases (search_crlf (readable b))) [
  | inl missing ↦ (
    λ p h. let e : none ≡ some p = ground (arith, missing) in cc,
    λ h. search_crlf-none (readable b) missing,
  )
  | inr (k, e) ↦
      let (pre, post, split, at, free) = search_crlf-some (readable b) k e in
      (
        λ p h. (pre, post, split, ground (arith, e, at), search_crlf-none pre free),
        λ h. let bad : some k ≡ none = ground (arith, e) in cc,
      )
]

pub none_in_nil : search_crlf [] ≡ none
unfolding search_crlf
none_in_nil = refl
