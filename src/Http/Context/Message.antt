-- ===== src/Http/Context/Message.antt =====
-- `parseRequest` on a message whose headers are all in the buffer.
use cloud_storage.Common.{
  ℕ, suc, ◌≤◌, ◌<◌, ◌≡◌, refl, sym, ap, ◌∙◌, ◌++◌, List, [], Bytes, length, drop, min, arith, true,
  false, Bool-cases, inl, inr, leb, ltb, lt→leb_false, drop_nil, ◌==◌, if◌then◌else◌,
  eq-nil_of_length, le→leb, ok,
}
use cloud_storage.Buffer.{Buffer, readable_bytes}
use cloud_storage.Buffer.Layout.{readable_bytes_lem}
use cloud_storage.Buffer.Writes.{Holds}
use cloud_storage.Buffer.Search.{crlf, none_in_nil}
use cloud_storage.Http.Request.{HttpRequest}
use cloud_storage.Http.Context.{
  HttpContext, ParseResult, ParseState, need_more, got_request, headers_complete,
  expect_request_line, expect_headers, expect_body, got_all, parse_round, parse_loop, parse_request,
  after_headers, process_request_line, no_body,
}
use cloud_storage.Http.Context.Lines.{HasLine}
use cloud_storage.Http.Context.Headers.{
  header_text, AreHeaders, header_effects, header_effects-state, process_headers_complete,
}
use cloud_storage.Http.Context.Body.{missing, took, took_none, done, round-expect_body}
use cloud_storage.Http.Context.Rounds.{loop-repeats, loop-leaves, round-request_line}

-- The context behind the request line.
abbrev pub started : HttpContext → HttpRequest → ℕ → HttpContext
started c r time = record c { request = record r { receive_time = time }; state = expect_headers }

-- The context behind the headers.
abbrev pub with_headers : HttpContext → List (Bytes × Bytes) → HttpContext
with_headers c hs = record (header_effects c hs) { state = expect_body }

round-all_headers :
    (time : ℕ) (result : ParseResult) (c : HttpContext) (b : Buffer) (hs : List (Bytes × Bytes))
    (tail : Bytes)
    → c.state ≡ expect_headers
    → Holds b (header_text hs (crlf ++ tail))
    → AreHeaders hs
    → (b' : Buffer) × (parse_round c.state time result c b
        ≡ ok (after_headers expect_body result (with_headers c hs) b'))
      × Holds b' tail
unfolding parse_round
round-all_headers time result c b hs tail s h k =
    let (b', e, r) = process_headers_complete c b hs [] tail h.valid h.holds k tt none_in_nil in
    (b', ap (λ (x : ParseState). parse_round x time result c b) s ∙ rw e, r)

-- The answer to `tail` behind the headers.
abbrev pub answer : HttpContext → Bytes → Buffer → ParseResult × HttpContext × Buffer
answer c tail b =
    if leb (missing c) (length tail)
    then (got_request, record (done c tail) { state = got_all }, b)
    else (headers_complete, done c tail, b)

pub loop-body :
    (fuel time : ℕ) (result : ParseResult) (c : HttpContext) (b : Buffer) (tail : Bytes)
    → c.state ≡ expect_body
    → c.is_chunked ≡ false
    → c.body_received ≤ c.content_length
    → Holds b tail
    → (b' : Buffer) × (parse_loop (suc fuel) time result c b ≡ ok (answer c tail b'))
      × Holds b' (drop (min (length tail) (missing c)) tail)
loop-body fuel time result c b tail s whole le h =
    let (b', e, r) = round-expect_body time result c b tail s whole le h in
    elim (Bool-cases (leb (missing c) (length tail))) [
      | inl all ↦ (b', rw all (loop-leaves fuel time result got_request c _ b b' (e ∙ rw all)), r)
      | inr part ↦
          (b', rw part (loop-leaves fuel time result headers_complete c _ b b' (e ∙ rw part)), r)
    ]

-- No bytes are missing: the answer is the context as it is.
answer_no_body :
    (d : HttpContext) (b : Buffer) (tail : Bytes)
    → d.content_length ≡ 0
    → (answer d tail b ≡ (got_request, record d { state = got_all }, b))
      × (min (length tail) (missing d) ≡ 0)
answer_no_body d b tail e =
    let k : min (length tail) (missing d) ≡ 0 = omega arith in
    let same : d ≡ done d tail = took_none d tail ∙ ap (λ (j : ℕ). took d j tail) (sym k) in
    (
      rw (le→leb (missing d) (length tail) (omega arith))
          (λ i. (got_request, record (sym same i) { state = got_all }, b)),
      k,
    )

-- Nothing but the headers is there, and bytes are missing.
answer_nil :
    (d : HttpContext) (b : Buffer) → 0 < missing d → answer d [] b ≡ (headers_complete, d, b)
answer_nil d b h =
    let k : min 0 (missing d) ≡ 0 = omega arith in
    let same : d ≡ done d [] = took_none d [] ∙ ap (λ (j : ℕ). took d j []) (sym k) in
    rw (lt→leb_false (missing d) 0 h) (λ i. (headers_complete, sym same i, b))

no_body_iff : (d : HttpContext) → d.is_chunked ≡ false → no_body d ≡ (d.content_length == 0)
no_body_iff d e = ground arith

loop-after_headers :
    (fuel time : ℕ) (result : ParseResult) (c d : HttpContext) (b b1 : Buffer) (tail : Bytes)
    → parse_round c.state time result c b ≡ ok (after_headers expect_body result d b1)
    → d.state ≡ expect_body
    → d.is_chunked ≡ false
    → d.body_received ≡ 0
    → Holds b1 tail
    → (b' : Buffer) × (parse_loop (suc (suc fuel)) time result c b ≡ ok (answer d tail b'))
      × Holds b' (drop (min (length tail) (missing d)) tail)
unfolding after_headers
loop-after_headers fuel time result c d b b1 tail e s whole z h =
    elim (Bool-cases (d.content_length == 0)) [
      | inl none_missing ↦
          let n : d.content_length ≡ 0 = ground arith in
          let (a, k) = answer_no_body d b1 tail n in
          let test : no_body d ≡ true = no_body_iff d whole ∙ none_missing in
          (
            b1,
            loop-leaves (suc fuel) time result got_request c (record d { state = got_all }) b b1
                  (e ∙ rw test)
                ∙ ap (λ (x : ParseResult × HttpContext × Buffer). ok x) (sym a),
            record { valid = h.valid; holds = h.holds ∙ ap (λ (j : ℕ). drop j tail) (sym k) },
          )
      | inr some_missing ↦
          let n : 0 < missing d = ground arith in
          let test : no_body d ≡ false = no_body_iff d whole ∙ some_missing in
          let count = readable_bytes_lem b1 h.valid ∙ ap length h.holds in
          elim (Bool-cases (ltb 0 (readable_bytes b1))) [
            | inl more ↦
                let (b', l, r) =
                  loop-body fuel time headers_complete d b1 tail s whole (omega arith) h in
                (
                  b',
                  loop-repeats (suc fuel) time result headers_complete c d b b1
                        (e ∙ rw (test, more))
                      ∙ l,
                  r,
                )
            | inr empty ↦
                let t : tail ≡ [] = eq-nil_of_length tail (ground arith) in
                (
                  b1,
                  loop-leaves (suc fuel) time result headers_complete c d b b1
                        (e ∙ rw (test, empty))
                      ∙ ap (λ (x : ParseResult × HttpContext × Buffer). ok x)
                          (sym (ap (λ (x : Bytes). answer d x b1) t ∙ answer_nil d b1 n)),
                  record {
                    valid = h.valid;
                    holds =
                        h.holds
                        ∙ t
                        ∙ sym (
                            ap (λ (x : Bytes). drop (min (length x) (missing d)) x) t
                            ∙ drop_nil (min 0 (missing d)));
                  },
                )
          ]
    ]

-- The first message of a connection, or one behind a `reset`: an accepted request line, headers, a
-- blank line, and `tail`. If no header asks for chunks, `parseRequest` returns with three rounds.
-- The result is `kGotRequest` if `tail` is as long as Content-Length says, else
-- `kHeadersComplete`; the body is `tail` cut at that length; the buffer keeps what is behind it.
pub parse_request_message :
    (fuel time : ℕ) (c : HttpContext) (b : Buffer) (line tail : Bytes) (hs : List (Bytes × Bytes))
    (r : HttpRequest)
    → c.state ≡ expect_request_line
    → c.body_received ≡ 0
    → HasLine b line (header_text hs (crlf ++ tail))
    → process_request_line c.request line ≡ ok (true, r)
    → AreHeaders hs
    → (with_headers (started c r time) hs).is_chunked ≡ false
    → (b' : Buffer) × (parse_request (suc (suc (suc fuel))) time c b
        ≡ ok (answer (with_headers (started c r time) hs) tail b'))
      × Holds b' (drop (min (length tail) (missing (with_headers (started c r time) hs))) tail)
unfolding parse_request
parse_request_message fuel time c b line tail hs r s z l p k whole =
    let c1 = started c r time in
    let (b1, e, h) = round-request_line time need_more c b line _ r s l p in
    let (b2, e', h') = round-all_headers time need_more c1 b1 hs tail refl h k in
    let (b', e'', r') =
      loop-after_headers fuel time need_more c1 (with_headers c1 hs) b1 b2 tail e' refl whole
        ((header_effects-state c1 hs).1 ∙ z) h' in
    (b', loop-repeats (suc (suc fuel)) time need_more need_more c c1 b b1 e ∙ e'', r')
