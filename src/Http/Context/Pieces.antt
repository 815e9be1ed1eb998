-- ===== src/Http/Context/Pieces.antt =====
-- A body that arrives in several reads of the socket: each read appends to the connection's buffer
-- and then calls `parseRequest`.
use cloud_storage.Common.{
  ℕ, ◌+◌, ◌≤◌, ◌<◌, ◌≡◌, sym, ap, ◌∙◌, ◌++◌, List, [], ◌∷◌, Bytes, length, take, drop, min, arith,
  false, lt→leb_false, le→leb, append_assoc, length-append, take-append_add, drop-append_add,
  take-all, drop-all, length-take, Result, ok, ◌>>=◌,
}
use cloud_storage.Buffer.{Buffer, append}
use cloud_storage.Buffer.Writes.{Holds, append-Holds}
use cloud_storage.Http.Request.{append_to_body}
use cloud_storage.Http.Context.{
  HttpContext, ParseResult, need_more, got_request, headers_complete, expect_body, got_all,
  parse_request,
}
use cloud_storage.Http.Context.Body.{missing, took, done}
use cloud_storage.Http.Context.Message.{answer, loop-body}

-- One read of `chars` at `time`.
unfoldable pub deliver :
    ℕ → HttpContext → Buffer → Bytes → Result (ParseResult × HttpContext × Buffer)
deliver time c b chars = do b' ← append b chars; parse_request 1 time c b'

-- Reads in order, each after the first in the context and the buffer that the one before left.
unfoldable pub deliver_all :
    ℕ → HttpContext → Buffer → Bytes → List Bytes → Result (ParseResult × HttpContext × Buffer)
deliver_all time c b chars [] = deliver time c b chars
deliver_all time c b chars (next ∷ more) = do
  (result, c', b') ← deliver time c b chars
  deliver_all time c' b' next more

abbrev pub joined : Bytes → List Bytes → Bytes
joined chars [] = chars
joined chars (next ∷ more) = chars ++ joined next more

-- All reads but the last.
abbrev pub all_but_last : Bytes → List Bytes → Bytes
all_but_last chars [] = []
all_but_last chars (next ∷ more) = chars ++ all_but_last next more

-- A context that waits for a body, and an empty buffer.
pub record Waits (c : HttpContext) (b : Buffer) : Type 0 where
  pub state : c.state ≡ expect_body
  pub whole : c.is_chunked ≡ false
  pub bounded : c.body_received ≤ c.content_length
  pub empty : Holds b []

deliver_lem :
    (time : ℕ) (c : HttpContext) (b : Buffer) (chars : Bytes)
    → Waits c b
    → (b' : Buffer) × (deliver time c b chars ≡ ok (answer c chars b'))
      × Holds b' (drop (min (length chars) (missing c)) chars)
unfolding deliver parse_request
deliver_lem time c b chars w =
    let (b1, e, h) = append-Holds b chars w.empty.valid in
    let h1 : Holds b1 chars = record {
      valid = h.valid;
      holds = h.holds ∙ ap (λ (s : Bytes). s ++ chars) w.empty.holds;
    } in
    let (b', l, r) = loop-body 0 time need_more c b1 chars w.state w.whole w.bounded h1 in
    (b', rw e l, r)

-- `c` with the bytes of `chars` added to the body.
abbrev pub with_body : HttpContext → Bytes → HttpContext
with_body c chars = record c {
  request = append_to_body c.request chars;
  body_received = c.body_received + length chars;
}

took-with_body :
    (c : HttpContext) (k : ℕ) (chars : Bytes)
    → k ≤ length chars
    → took c k chars ≡ with_body c (take k chars)
took-with_body c k chars h =
    let e : k ≡ length (take k chars) = omega (arith, length-take k chars) in
    λ i. record c {
      request = append_to_body c.request (take k chars);
      body_received = c.body_received + e i;
    }

with_body_twice :
    (c : HttpContext) (s t : Bytes) → with_body (with_body c s) t ≡ with_body c (s ++ t)
unfolding append_to_body
with_body_twice c s t =
    let e : c.body_received + length s + length t ≡ c.body_received + length (s ++ t) =
      omega (arith, length-append s t) in
    λ i. record c {
      request = record (c.request) { body = append_assoc c.request.body s t i };
      body_received = e i;
    }

-- A read with too few bytes.
deliver_short :
    (time : ℕ) (c : HttpContext) (b : Buffer) (chars : Bytes)
    → Waits c b
    → length chars < missing c
    → (b' : Buffer) × (deliver time c b chars ≡ ok (headers_complete, with_body c chars, b'))
      × Waits (with_body c chars) b'
deliver_short time c b chars w h =
    let (b', e, r) = deliver_lem time c b chars w in
    let k : min (length chars) (missing c) ≡ length chars = omega arith in
    let all = take-all chars (length chars) (omega arith) in
    let same : done c chars ≡ with_body c chars =
      ap (λ (j : ℕ). took c j chars) k
      ∙ took-with_body c (length chars) chars (omega arith)
      ∙ ap (with_body c) all in
    (
      b',
      e
          ∙ rw (lt→leb_false (missing c) (length chars) h)
              (ap (λ (x : HttpContext). ok (headers_complete, x, b')) same),
      record {
        state = w.state;
        whole = w.whole;
        bounded = omega (arith, w.bounded);
        empty = record {
          valid = r.valid;
          holds =
              r.holds
              ∙ ap (λ (j : ℕ). drop j chars) k
              ∙ drop-all chars (length chars) (omega arith);
        };
      },
    )

-- The read that completes the body.
deliver_last :
    (time : ℕ) (c : HttpContext) (b : Buffer) (chars : Bytes)
    → Waits c b
    → missing c ≤ length chars
    → (b' : Buffer) × (deliver time c b chars
        ≡ ok (got_request, record (with_body c (take (missing c) chars)) { state = got_all }, b'))
      × Holds b' (drop (missing c) chars)
deliver_last time c b chars w h =
    let (b', e, r) = deliver_lem time c b chars w in
    let k : min (length chars) (missing c) ≡ missing c = omega arith in
    let same : done c chars ≡ with_body c (take (missing c) chars) =
      ap (λ (j : ℕ). took c j chars) k ∙ took-with_body c (missing c) chars h in
    (
      b',
      e
          ∙ rw (le→leb (missing c) (length chars) h)
              (ap (λ (x : HttpContext). ok (got_request, record x { state = got_all }, b')) same),
      record { valid = r.valid; holds = r.holds ∙ ap (λ (j : ℕ). drop j chars) k },
    )

-- However a body is cut into reads, if only the last one completes it, the calls of `parseRequest`
-- end with `kGotRequest`; the request's body is what the reads held, up to Content-Length, and the
-- buffer keeps the bytes behind it.
pub deliver_all_complete :
    (time : ℕ) (c : HttpContext) (b : Buffer) (chars : Bytes) (more : List Bytes)
    → Waits c b
    → length (all_but_last chars more) < missing c
    → missing c ≤ length (joined chars more)
    → (b' : Buffer) × (deliver_all time c b chars more
        ≡ ok (
          got_request,
          record (with_body c (take (missing c) (joined chars more))) { state = got_all },
          b',
        ))
      × Holds b' (drop (missing c) (joined chars more))
unfolding deliver_all
deliver_all_complete time c b chars [] w h k = deliver_last time c b chars w k
deliver_all_complete time c b chars (next ∷ more) w h k =
    let sizes = length-append chars (all_but_last next more) in
    let sizes' = length-append chars (joined next more) in
    let (b1, e, w') = deliver_short time c b chars w (omega arith) in
    let c' = with_body c chars in
    let rest = joined next more in
    let (b', e', r) = deliver_all_complete time c' b1 next more w' (omega arith) (omega arith) in
    let split : missing c ≡ length chars + missing c' = omega arith in
    let text : take (missing c) (chars ++ rest) ≡ chars ++ take (missing c') rest =
      ap (λ (n : ℕ). take n (chars ++ rest)) split ∙ take-append_add chars rest (missing c') in
    let left : drop (missing c) (chars ++ rest) ≡ drop (missing c') rest =
      ap (λ (n : ℕ). drop n (chars ++ rest)) split ∙ drop-append_add chars rest (missing c') in
    let same = with_body_twice c chars (take (missing c') rest) ∙ ap (with_body c) (sym text) in
    (
      b',
      rw e (e' ∙ ap (λ (x : HttpContext). ok (got_request, record x { state = got_all }, b')) same),
      record { valid = r.valid; holds = r.holds ∙ sym left },
    )
