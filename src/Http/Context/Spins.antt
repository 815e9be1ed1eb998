-- ===== src/Http/Context/Spins.antt =====
-- `parseRequest` behind a complete request, and on headers in part.
use cloud_storage.Common.{
  ℕ, suc, zero, ◌≡◌, refl, ap, ◌∙◌, List, [], Bytes, none, true, ok, out_of_fuel,
}
use cloud_storage.Buffer.{Buffer, readable, search_crlf, readable_bytes}
use cloud_storage.Buffer.Layout.{IsValid}
use cloud_storage.Http.Request.{HttpRequest}
use cloud_storage.Http.Context.{
  HttpContext, ParseResult, ParseState, repeats, parse_round, after_headers, need_more,
  expect_request_line, expect_headers, got_all, parse_loop, parse_request, process_headers,
  process_request_line,
}
use cloud_storage.Http.Context.Lines.{HasLine}
use cloud_storage.Http.Context.Rounds.{loop-repeats, round-request_line}
use cloud_storage.Http.Context.Headers.{
  header_text, AreHeaders, header_effects, header_effects-state, process_headers_partial,
}

loop-got_all :
    (fuel time : ℕ) (result : ParseResult) (c : HttpContext) (b : Buffer)
    → c.state ≡ got_all
    → parse_loop fuel time result c b ≡ out_of_fuel
unfolding parse_loop parse_round
loop-got_all zero time result c b e = refl
loop-got_all (suc fuel) time result c b e =
    loop-repeats fuel time result result c c b b
      (ap (λ (s : ParseState). parse_round s time result c b) e)
    ∙ loop-got_all fuel time result c b e

-- A round in the state `kExpectHeaders` that leaves the state so comes back to the loop.
round-expect_headers :
    (time : ℕ) (result : ParseResult) (c c' : HttpContext) (b b' : Buffer)
    → c.state ≡ expect_headers
    → c'.state ≡ expect_headers
    → process_headers (suc (readable_bytes b)) c b ≡ ok (c', b')
    → parse_round c.state time result c b ≡ ok (repeats result c' b')
unfolding parse_round after_headers
round-expect_headers time result c c' b b' e e' h =
    ap (λ (s : ParseState). parse_round s time result c b) e
    ∙ rw h (ap (λ (s : ParseState). ok (after_headers s result c' b')) e')

-- Behind the headers that there are, the loop goes on for ever.
loop-partial_headers :
    (fuel time : ℕ) (result : ParseResult) (c : HttpContext) (b : Buffer)
    (hs : List (Bytes × Bytes)) (tail : Bytes)
    → c.state ≡ expect_headers
    → IsValid b
    → readable b ≡ header_text hs tail
    → AreHeaders hs
    → search_crlf tail ≡ none
    → parse_loop fuel time result c b ≡ out_of_fuel
unfolding parse_loop
loop-partial_headers zero time result c b hs tail s v e h unbroken = refl
loop-partial_headers (suc fuel) time result c b hs tail s v e h unbroken =
    let (b', read, r) = process_headers_partial c b hs tail v e h unbroken in
    let c' = header_effects c hs in
    let s' : c'.state ≡ expect_headers = (header_effects-state c hs).0 ∙ s in
    loop-repeats fuel time result result c c' b b'
      (round-expect_headers time result c c' b b' s s' read)
    ∙ loop-partial_headers fuel time result c' b' [] tail s' r.valid r.holds tt unbroken

-- No call of `parseRequest` returns, whatever the fuel, on a context whose request is complete and
-- that was not reset; nor on one that waits for a request line, if the buffer holds an accepted
-- request line, some headers, and then a text with no line break.
pub parse_request_spins :
    (fuel time : ℕ) (c : HttpContext) (b : Buffer)
    → (c.state ≡ got_all → parse_request fuel time c b ≡ out_of_fuel)
      × ((line : Bytes) (hs : List (Bytes × Bytes)) (tail : Bytes) (r : HttpRequest)
          → c.state ≡ expect_request_line
          → HasLine b line (header_text hs tail)
          → process_request_line c.request line ≡ ok (true, r)
          → AreHeaders hs
          → search_crlf tail ≡ none
          → parse_request fuel time c b ≡ out_of_fuel)
unfolding parse_request parse_loop
parse_request_spins zero time c b = (λ e. refl, λ line hs tail r e l p h u. refl)
parse_request_spins (suc fuel) time c b = (
  loop-got_all (suc fuel) time need_more c b,
  λ line hs tail r e l p h u.
      let (b', step, k) = round-request_line time need_more c b line _ r e l p in
      loop-repeats fuel time need_more need_more c _ b b' step
      ∙ loop-partial_headers fuel time need_more _ b' hs tail refl k.valid k.holds h u,
)
