-- ===== src/Http/Query/Lookup.antt =====
-- `getQuery` on a well-formed query string.
use cloud_storage.Common.{
  ℕ, ◌≡◌, refl, ap, ◌∙◌, Bool, false, List, [], ◌∷◌, ◌++◌, Bytes, if◌then◌else◌, arith, Bool-cases,
  inl, inr, Lacks, bytes_eq, break_on-Lacks,
}
use cloud_storage.Http.Request.{HttpRequest}
use cloud_storage.Http.Query.{Scanner, ReadsHex, split_on, find_param, get_query}
use cloud_storage.Http.Query.Decode.{percent_encode, AreBytes, url_decode-percent_encode}

split_on-last : (sep : ℕ) (p : Bytes) → Lacks sep p → split_on sep p ≡ p ∷ []
unfolding split_on
split_on-last sep [] h = refl
split_on-last sep (c ∷ p) h = ground (arith, split_on-last sep p h.1)

split_on-append :
    (sep : ℕ) (p rest : Bytes)
    → Lacks sep p
    → split_on sep (p ++ (sep ∷ rest)) ≡ p ∷ split_on sep rest
unfolding split_on
split_on-append sep [] rest h = ground arith
split_on-append sep (c ∷ p) rest h = ground (arith, split_on-append sep p rest h.1)

Lacks-append : (x : ℕ) (p q : Bytes) → Lacks x p → Lacks x q → Lacks x (p ++ q)
Lacks-append x [] q h k = k
Lacks-append x (c ∷ p) q h k = (h.0, Lacks-append x p q h.1 k)

-- The text `k=v` of a parameter, with its value in percent encoding.
abbrev param : (ℕ → Bool) → Bytes × Bytes → Bytes
param plain (k, v) = k ++ (b'=' ∷ percent_encode plain v)

-- The first parameter and the others, joined by `&`.
abbrev pub joined : (ℕ → Bool) → Bytes × Bytes → List (Bytes × Bytes) → Bytes
joined plain kv [] = param plain kv
joined plain kv (kv' ∷ kvs) = param plain kv ++ (b'&' ∷ joined plain kv' kvs)

abbrev pub query_string : (ℕ → Bool) → Bytes × Bytes → List (Bytes × Bytes) → Bytes
query_string plain kv kvs = b'?' ∷ joined plain kv kvs

-- The value of the first parameter with that name.
abbrev pub first_value : Bytes → Bytes → List (Bytes × Bytes) → Bytes
first_value key default [] = default
first_value key default ((k, v) ∷ kvs) = if bytes_eq k key then v else first_value key default kvs

-- A name without `=` and `&`, and a value of bytes.
abbrev pub IsParam : Bytes × Bytes → Type 0
IsParam (k, v) = Lacks b'=' k × Lacks b'&' k × AreBytes v

abbrev pub AreParams : List (Bytes × Bytes) → Type 0
AreParams [] = Unit
AreParams (kv ∷ kvs) = IsParam kv × AreParams kvs

abbrev params : (ℕ → Bool) → List (Bytes × Bytes) → List Bytes
params plain [] = []
params plain (kv ∷ kvs) = param plain kv ∷ params plain kvs

-- An encoding that escapes `&` leaves none.
module _ (plain : ℕ → Bool) (no_amp : plain b'&' ≡ false) where
  percent_encode-Lacks : (v : Bytes) → AreBytes v → Lacks b'&' (percent_encode plain v)
  percent_encode-Lacks [] h = tt
  percent_encode-Lacks (c ∷ v) h = elim (Bool-cases (plain c)) [
    | inl kept ↦ rw kept (ground arith, percent_encode-Lacks v h.1)
    | inr escaped ↦
        rw escaped (omega arith, (ground arith, (ground arith, percent_encode-Lacks v h.1)))
  ]

  param-Lacks : (kv : Bytes × Bytes) → IsParam kv → Lacks b'&' (param plain kv)
  param-Lacks (k, v) h =
      Lacks-append b'&' k (b'=' ∷ percent_encode plain v) h.1
        (omega arith, percent_encode-Lacks v h.2)

  split_on-joined :
      (kv : Bytes × Bytes) (kvs : List (Bytes × Bytes))
      → IsParam kv
      → AreParams kvs
      → split_on b'&' (joined plain kv kvs) ≡ param plain kv ∷ params plain kvs
  split_on-joined kv [] h hs = split_on-last b'&' (param plain kv) (param-Lacks kv h)
  split_on-joined kv (kv' ∷ kvs) h hs =
      split_on-append b'&' (param plain kv) (joined plain kv' kvs) (param-Lacks kv h)
      ∙ ap (◌∷◌ (param plain kv)) (split_on-joined kv' kvs hs.0 hs.1)

module _ (s : Scanner) (reads : ReadsHex s) (plain : ℕ → Bool) (no_percent : plain b'%' ≡ false)
    (no_plus : plain b'+' ≡ false) where
  find_param-params :
      (key default : Bytes) (kvs : List (Bytes × Bytes))
      → AreParams kvs
      → find_param s key default (params plain kvs) ≡ first_value key default kvs
  unfolding find_param
  find_param-params key default [] h = refl
  find_param-params key default ((k, v) ∷ kvs) h =
      let e = break_on-Lacks b'=' k (percent_encode plain v) h.0.0 in
      let d = url_decode-percent_encode s plain v reads no_percent no_plus h.0.2 in
      rw (e, find_param) (rw (d, find_param-params key default kvs h.1))

  -- On a query string of parameters `k=v`, joined by `&`, names without `=` and `&`, and values in
  -- a percent encoding that escapes `%`, `+` and `&`, `getQuery` returns the value of the first
  -- parameter with the name asked for, as it was before the encoding, and the default if none has
  -- that name.
  pub get_query-first_value :
      (r : HttpRequest) (key default : Bytes) (kv : Bytes × Bytes) (kvs : List (Bytes × Bytes))
      → plain b'&' ≡ false
      → AreParams (kv ∷ kvs)
      → r.query ≡ query_string plain kv kvs
      → get_query s r key default ≡ first_value key default (kv ∷ kvs)
  unfolding get_query
  get_query-first_value r key default kv kvs no_amp h e =
      rw (e, split_on-joined plain no_amp kv kvs h.0 h.1)
        (find_param-params key default (kv ∷ kvs) h)
