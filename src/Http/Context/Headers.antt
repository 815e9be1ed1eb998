-- ===== src/Http/Context/Headers.antt =====
-- `processHeaders` on the lines of a message.
use cloud_storage.Common.{
  ℕ, suc, ◌+◌, ◌-◌, ◌*◌, ◌≤◌, ◌≡◌, ◌≢◌, ◌⊎◌, refl, sym, ap, ◌∙◌, ◌++◌, List, [], ◌∷◌, inl, inr,
  false, ◌||◌, Bool-cases, Bytes, length, arith, length-append, append_assoc, subst, ok, Lacks,
  break_on, break_on-Lacks, break_on-none, skip_spaces, is_space, digits_value, atoi_size, case_eq,
  codes, if◌then◌else◌, none, some,
}
use cloud_storage.Buffer.{Buffer, readable, find_crlf, search_crlf, readable_bytes}
use cloud_storage.Buffer.Layout.{IsValid, readable_bytes_lem}
use cloud_storage.Buffer.Writes.{Holds}
use cloud_storage.Buffer.Search.{crlf}
use cloud_storage.Http.Request.{add_header}
use cloud_storage.Http.Context.{HttpContext, expect_body, read_header, process_headers}
use cloud_storage.Http.Context.Lines.{
  HasLine, HasLine-find_crlf, HasLine-slice, HasLine-retrieve_until, HasLine-drop,
}

digits_value-crlf :
    (acc : ℕ) (ds more : Bytes) → digits_value acc (ds ++ (crlf ++ more)) ≡ digits_value acc ds
unfolding digits_value
digits_value-crlf acc [] more = refl
digits_value-crlf acc (d ∷ ds) more =
    ground (arith, digits_value-crlf (acc * 10 + (d - b'0')) ds more)

skip_spaces-suffix : (s : Bytes) → (head : Bytes) × (s ≡ head ++ skip_spaces s)
unfolding skip_spaces
skip_spaces-suffix [] = ([], refl)
skip_spaces-suffix (c ∷ cs) =
    let (head, e) = skip_spaces-suffix cs in
    elim (Bool-cases (is_space c)) [
      | inl space ↦ (c ∷ head, rw space (ap (◌∷◌ c) e))
      | inr other ↦ ([], rw other refl)
    ]

skip_spaces-cases :
    (s : Bytes)
    → (skip_spaces s ≡ [])
      ⊎ ((c : ℕ) × (cs : Bytes) × (skip_spaces s ≡ c ∷ cs) × (is_space c ≡ false))
unfolding skip_spaces
skip_spaces-cases [] = inl refl
skip_spaces-cases (c ∷ cs) = elim (Bool-cases (is_space c)) [
  | inl space ↦ rw space (skip_spaces-cases cs)
  | inr other ↦ inr (c, cs, rw other refl, other)
]

-- A number that is there is read to the end of its line and no further.
atoi_size-crlf :
    (c : ℕ) (cs more : Bytes)
    → is_space c ≡ false
    → atoi_size ((c ∷ cs) ++ (crlf ++ more)) ≡ atoi_size (c ∷ cs)
unfolding atoi_size skip_spaces
atoi_size-crlf c cs more h =
    ground (arith, digits_value-crlf 0 cs more, digits_value-crlf 0 (c ∷ cs) more)

-- What a header does to the context, told by its name and value alone.
unfoldable pub header_effect : HttpContext → Bytes × Bytes → HttpContext
header_effect c (field, value) =
    let c' = record c { request = add_header c.request field value } in
    let chunked = case_eq (skip_spaces value) (codes "chunked") || c.is_chunked in
    if case_eq field (codes "Content-Length")
    then record c' { content_length = atoi_size (skip_spaces value) }
    else if case_eq field (codes "Transfer-Encoding")
    then record c' { is_chunked = chunked }
    else c'

unfoldable pub header_effects : HttpContext → List (Bytes × Bytes) → HttpContext
header_effects c [] = c
header_effects c (h ∷ hs) = header_effects (header_effect c h) hs

abbrev pub header_line : Bytes × Bytes → Bytes
header_line (field, value) = field ++ (b':' ∷ value)

-- A name with no colon, a line with no line break, and a value if the name is Content-Length.
abbrev pub IsHeader : Bytes × Bytes → Type 0
IsHeader (field, value) =
    Lacks b':' field
    × (search_crlf (header_line (field, value)) ≡ none)
    × ((case_eq field (codes "Content-Length") ≡ false) ⊎ (skip_spaces value ≢ []))

abbrev pub AreHeaders : List (Bytes × Bytes) → Type 0
AreHeaders [] = Unit
AreHeaders (h ∷ hs) = IsHeader h × AreHeaders hs

-- The lines, and `tail` behind them.
abbrev pub header_text : List (Bytes × Bytes) → Bytes → Bytes
header_text [] tail = tail
header_text (h ∷ hs) tail = header_line h ++ (crlf ++ header_text hs tail)

pub length-header_text :
    (hs : List (Bytes × Bytes)) (tail : Bytes)
    → length hs + length tail ≤ length (header_text hs tail)
length-header_text [] tail = omega arith
length-header_text (h ∷ hs) tail =
    omega (
      arith,
      length-append (header_line h) (crlf ++ header_text hs tail),
      length-header_text hs tail,
    )

read_header-effect :
    (c : HttpContext) (b : Buffer) (field value rest : Bytes)
    → HasLine b (header_line (field, value)) rest
    → IsHeader (field, value)
    → read_header c b (b.read_index + length (header_line (field, value))) field value
      ≡ header_effect c (field, value)
unfolding read_header header_effect
read_header-effect c b field value rest h (colon, unbroken, inl other) = rw other
read_header-effect c b field value rest h (colon, unbroken, inr some_value) =
    let (spaces, e) = skip_spaces-suffix value in
    let split : header_line (field, value) ≡ (field ++ (b':' ∷ spaces)) ++ skip_spaces value =
      ap (λ (s : Bytes). field ++ (b':' ∷ s)) e ∙ sym (append_assoc field (b':' ∷ spaces) _) in
    let (more, d) = HasLine-drop h (field ++ (b':' ∷ spaces)) (skip_spaces value) split in
    elim (skip_spaces-cases value) [
      | inl empty ↦ absurd (some_value empty)
      | inr (x, xs, e', not_space) ↦
          let read : atoi_size (skip_spaces value ++ (crlf ++ more))
              ≡ atoi_size (skip_spaces value) =
            subst (λ (s : Bytes). atoi_size (s ++ (crlf ++ more)) ≡ atoi_size s) (sym e')
              (atoi_size-crlf x xs more not_space) in
          rw (d, read)
    ]

-- One round of the loop.
process_headers-line :
    (fuel : ℕ) (c : HttpContext) (b : Buffer) (h : Bytes × Bytes) (rest : Bytes)
    → HasLine b (header_line h) rest
    → IsHeader h
    → (b' : Buffer) × (process_headers (suc fuel) c b ≡ process_headers fuel (header_effect c h) b')
      × Holds b' rest
unfolding process_headers
process_headers-line fuel c b (field, value) rest l h =
    let (b', e, r) = HasLine-retrieve_until l in
    let cut : break_on b':' (header_line (field, value)) ≡ some (field, value) =
      break_on-Lacks b':' field value h.0 in
    (
      b',
      rw (HasLine-find_crlf l, process_headers)
          (rw (HasLine-slice l) (rw (cut) (rw (e, read_header-effect c b field value rest l h)))),
      r,
    )

-- The lines of the headers are read one by one; what is left is one call of the loop on `tail`.
pub process_headers-header_text :
    (hs : List (Bytes × Bytes)) (fuel : ℕ) (c : HttpContext) (b : Buffer) (tail : Bytes)
    → IsValid b
    → readable b ≡ header_text hs tail
    → AreHeaders hs
    → (b' : Buffer) × (process_headers (length hs + suc fuel) c b
        ≡ process_headers (suc fuel) (header_effects c hs) b')
      × Holds b' tail
unfolding header_effects
process_headers-header_text [] fuel c b tail v e h =
    let n : 0 + suc fuel ≡ suc fuel = omega arith in (b, rw n, record { valid = v; holds = e })
process_headers-header_text (h ∷ hs) fuel c b tail v e k =
    let line : HasLine b (header_line h) (header_text hs tail) = record {
      valid = v;
      text = e;
      unbroken = k.0.1;
    } in
    let (b', s, r) = process_headers-line (length hs + suc fuel) c b h _ line k.0 in
    let (b'', s', r') =
      process_headers-header_text hs fuel (header_effect c h) b' tail r.valid r.holds k.1 in
    let n : suc (length hs) + suc fuel ≡ suc (length hs + suc fuel) = omega arith in
    (b'', rw n (s ∙ s'), r')

-- The loop ends at a line with no colon.
process_headers-end :
    (fuel : ℕ) (c : HttpContext) (b : Buffer) (stop rest : Bytes)
    → HasLine b stop rest
    → Lacks b':' stop
    → (b' : Buffer) × (process_headers (suc fuel) c b ≡ ok (record c { state = expect_body }, b'))
      × Holds b' rest
unfolding process_headers
process_headers-end fuel c b stop rest l h =
    let (b', e, r) = HasLine-retrieve_until l in
    (
      b',
      rw (HasLine-find_crlf l, process_headers)
          (rw (HasLine-slice l) (rw (break_on-none b':' stop h) (rw e))),
      r,
    )

-- The fuel that `parseRequest` gives is enough for the lines.
fuel_split :
    (hs : List (Bytes × Bytes)) (b : Buffer) (tail : Bytes)
    → IsValid b
    → readable b ≡ header_text hs tail
    → (fuel : ℕ) × (suc (readable_bytes b) ≡ length hs + suc fuel)
fuel_split hs b tail v e =
    let n : readable_bytes b ≡ length (header_text hs tail) =
      readable_bytes_lem b v ∙ ap length e in
    let bound = length-header_text hs tail in (readable_bytes b - length hs, omega arith)

-- On a valid buffer that begins with header lines and then a line with no colon, `processHeaders`
-- returns: each header has its effect, in order, the state is `kExpectBody`, and the buffer keeps
-- what is behind that line.
pub process_headers_complete :
    (c : HttpContext) (b : Buffer) (hs : List (Bytes × Bytes)) (stop rest : Bytes)
    → IsValid b
    → readable b ≡ header_text hs (stop ++ (crlf ++ rest))
    → AreHeaders hs
    → Lacks b':' stop
    → search_crlf stop ≡ none
    → (b' : Buffer) × (process_headers (suc (readable_bytes b)) c b
        ≡ ok (record (header_effects c hs) { state = expect_body }, b'))
      × Holds b' rest
process_headers_complete c b hs stop rest v e h colon unbroken =
    let (fuel, n) = fuel_split hs b _ v e in
    let (b', s, r) = process_headers-header_text hs fuel c b _ v e h in
    let line : HasLine b' stop rest = record {
      valid = r.valid;
      text = r.holds;
      unbroken = unbroken;
    } in
    let (b'', s', r') = process_headers-end fuel (header_effects c hs) b' stop rest line colon in
    (b'', rw n (s ∙ s'), r')

-- On header lines and then a text with no line break, it returns too, with the state as it was,
-- and the buffer keeps that text.
pub process_headers_partial :
    (c : HttpContext) (b : Buffer) (hs : List (Bytes × Bytes)) (tail : Bytes)
    → IsValid b
    → readable b ≡ header_text hs tail
    → AreHeaders hs
    → search_crlf tail ≡ none
    → (b' : Buffer) × (process_headers (suc (readable_bytes b)) c b ≡ ok (header_effects c hs, b'))
      × Holds b' tail
unfolding process_headers find_crlf
process_headers_partial c b hs tail v e h unbroken =
    let (fuel, n) = fuel_split hs b tail v e in
    let (b', s, r) = process_headers-header_text hs fuel c b tail v e h in
    let missing : search_crlf (readable b') ≡ none = ap search_crlf r.holds ∙ unbroken in
    (b', rw n (s ∙ rw (missing, process_headers)), r)

pub header_effects-state :
    (c : HttpContext) (hs : List (Bytes × Bytes))
    → ((header_effects c hs).state ≡ c.state)
      × ((header_effects c hs).body_received ≡ c.body_received)
      × ((header_effects c hs).request.body ≡ c.request.body)
unfolding header_effects header_effect add_header
header_effects-state c [] = (refl, refl, refl)
header_effects-state c ((field, value) ∷ hs) =
    ground (arith, header_effects-state (header_effect c (field, value)) hs)
