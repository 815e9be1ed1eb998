-- ===== src/Http/Context/Body.antt =====
-- `processBody`: the bytes that one call moves from the buffer to the request.
use cloud_storage.Common.{
  ℕ, suc, zero, ◌+◌, ◌-◌, ◌≤◌, ◌<◌, ◌≡◌, refl, sym, ap, ◌∙◌, Bytes, length, take, drop, min, arith,
  Bool, false, Bool-cases, inl, inr, leb, lt→ltb, le→leb, lt→leb_false, append-nil, take-take,
  size_sub_le, if◌then◌else◌, ok,
}
use cloud_storage.Buffer.{Buffer, readable, readable_bytes}
use cloud_storage.Buffer.Layout.{IsValid, readable_bytes_lem, length-readable}
use cloud_storage.Buffer.Writes.{Holds}
use cloud_storage.Buffer.Reads.{retrieve-Holds}
use cloud_storage.Http.Request.{append_to_body}
use cloud_storage.Http.Context.{
  HttpContext, ParseResult, ParseState, leaves, got_request, headers_complete, expect_body, got_all,
  parse_round, process_body, read_body, after_body, remaining_length,
}

-- The bytes still missing.
abbrev pub missing : HttpContext → ℕ
missing c = c.content_length - c.body_received

-- `c` with the first `k` bytes of `tail` added to the body.
abbrev pub took : HttpContext → ℕ → Bytes → HttpContext
took c k tail = record c {
  request = append_to_body c.request (take k tail);
  body_received = c.body_received + k;
}

pub took_none : (c : HttpContext) (tail : Bytes) → c ≡ took c 0 tail
unfolding append_to_body
took_none c tail =
    let e : c.body_received ≡ c.body_received + 0 = omega arith in
    λ i. record c {
      request = record (c.request) { body = sym (append-nil c.request.body) i };
      body_received = e i;
    }

chars_lem :
    (b : Buffer) (k : ℕ)
    → IsValid b
    → k ≤ length (readable b)
    → take k (drop b.read_index b.storage) ≡ take k (readable b)
unfolding readable
chars_lem b k v h = sym (
    take-take k (b.write_index - b.read_index) (drop b.read_index b.storage)
      (omega (arith, length-readable b v)))

remaining_length_lem :
    (c : HttpContext) → c.body_received ≤ c.content_length → remaining_length c ≡ missing c
unfolding remaining_length
remaining_length_lem c h = size_sub_le c.content_length c.body_received h

read_body_lem :
    (c : HttpContext) (b : Buffer) (k : ℕ)
    → IsValid b
    → k ≤ length (readable b)
    → (b' : Buffer) × (read_body k c b
        ≡ ok (leb c.content_length (c.body_received + k), took c k (readable b), b'))
      × Holds b' (drop k (readable b))
unfolding read_body
read_body_lem c b zero v h =
    let same : c.body_received ≡ c.body_received + 0 = omega arith in
    let c_same = took_none c (readable b) in
    (b, λ i. ok (leb c.content_length (same i), c_same i, b), record { valid = v; holds = refl })
read_body_lem c b (suc k) v h =
    let (b', s, r) = retrieve-Holds b (suc k) v h in
    (b', rw (lt→ltb 0 (suc k) (omega arith), read_body) (rw (s, chars_lem b (suc k) v h)), r)

-- `processBody` takes as many of the readable bytes as are missing, and no more.
pub process_body_lem :
    (c : HttpContext) (b : Buffer) (k : ℕ)
    → IsValid b
    → c.is_chunked ≡ false
    → c.body_received ≤ c.content_length
    → k ≡ min (length (readable b)) (missing c)
    → (b' : Buffer) × (process_body c b
        ≡ ok (leb c.content_length (c.body_received + k), took c k (readable b), b'))
      × Holds b' (drop k (readable b))
unfolding process_body
process_body_lem c b k v whole le e =
    let n = readable_bytes_lem b v in
    let m = remaining_length_lem c le in
    let count : min (readable_bytes b) (remaining_length c) ≡ k = omega arith in
    let (b', s, r) = read_body_lem c b k v (omega arith) in
    let to_read = min (readable_bytes b) (remaining_length c) in
    (
      b',
      ap (λ (x : Bool). if x then ok (false, c, b) else read_body to_read c b) whole
          ∙ ap (λ (j : ℕ). read_body j c b) count
          ∙ s,
      r,
    )

-- What a round over the body comes to, with `tail` in the buffer.
abbrev pub done : HttpContext → Bytes → HttpContext
done c tail = took c (min (length tail) (missing c)) tail

-- In the state `kExpectBody`, a round takes the bytes that are missing and leaves the loop: with
-- `kGotRequest` and the state `kGotAll` if they were all there, else with `kHeadersComplete`.
pub round-expect_body :
    (time : ℕ) (result : ParseResult) (c : HttpContext) (b : Buffer) (tail : Bytes)
    → c.state ≡ expect_body
    → c.is_chunked ≡ false
    → c.body_received ≤ c.content_length
    → Holds b tail
    → (b' : Buffer) × (parse_round c.state time result c b
        ≡ ok (
            if leb (missing c) (length tail)
            then leaves got_request (record (done c tail) { state = got_all }) b'
            else leaves headers_complete (done c tail) b'))
      × Holds b' (drop (min (length tail) (missing c)) tail)
unfolding parse_round after_body
round-expect_body time result c b tail s whole le h =
    let k = min (length tail) (missing c) in
    let size = ap length h.holds in
    let (b', p, r) = process_body_lem c b k h.valid whole le (omega arith) in
    let text : took c k (readable b) ≡ took c k tail = ap (took c k) h.holds in
    (
      b',
      ap (λ (x : ParseState). parse_round x time result c b) s
          ∙ rw p (elim (Bool-cases (leb (missing c) (length tail))) [
            | inl all ↦
                let full : missing c ≤ length tail = ground arith in
                rw (all, le→leb c.content_length (c.body_received + k) (omega arith))
                  (ap
                    (λ (x : HttpContext). ok (leaves got_request (record x { state = got_all }) b'))
                    text)
            | inr part ↦
                let short : length tail < missing c = ground arith in
                rw
                  (
                    part,
                    lt→leb_false c.content_length (c.body_received + k) (omega arith),
                    lt→ltb (c.body_received + k) c.content_length (omega arith),
                  )
                  (ap (λ (x : HttpContext). ok (leaves headers_complete x b')) text)
          ]),
      record { valid = r.valid; holds = r.holds ∙ ap (drop k) h.holds },
    )
