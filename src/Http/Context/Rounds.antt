-- ===== src/Http/Context/Rounds.antt =====
-- One round of the loop of `parseRequest`, in the loop.
use cloud_storage.Common.{ℕ, suc, ◌≡◌, refl, ap, ◌∙◌, Bytes, true, false, ok}
use cloud_storage.Buffer.{Buffer}
use cloud_storage.Buffer.Writes.{Holds}
use cloud_storage.Http.Request.{HttpRequest}
use cloud_storage.Http.Context.{
  HttpContext, ParseResult, ParseState, error, leaves, repeats, parse_round, after_request_line,
  expect_request_line, expect_headers, parse_loop, process_request_line,
}
use cloud_storage.Http.Context.Lines.{
  HasLine, HasLine-find_crlf, HasLine-slice, HasLine-retrieve_until,
}

-- A round that comes back to the loop.
pub loop-repeats :
    (fuel time : ℕ) (result result' : ParseResult) (c c' : HttpContext) (b b' : Buffer)
    → parse_round c.state time result c b ≡ ok (repeats result' c' b')
    → parse_loop (suc fuel) time result c b ≡ parse_loop fuel time result' c' b'
unfolding parse_loop
loop-repeats fuel time result result' c c' b b' e = rw e

pub loop-leaves :
    (fuel time : ℕ) (result result' : ParseResult) (c c' : HttpContext) (b b' : Buffer)
    → parse_round c.state time result c b ≡ ok (leaves result' c' b')
    → parse_loop (suc fuel) time result c b ≡ ok (result', c', b')
unfolding parse_loop
loop-leaves fuel time result result' c c' b b' e = rw e

-- A round that reads an accepted request line.
pub round-request_line :
    (time : ℕ) (result : ParseResult) (c : HttpContext) (b : Buffer) (line rest : Bytes)
    (r : HttpRequest)
    → c.state ≡ expect_request_line
    → HasLine b line rest
    → process_request_line c.request line ≡ ok (true, r)
    → (b' : Buffer) × (parse_round c.state time result c b
        ≡ ok (
            repeats result
              (record c { request = record r { receive_time = time }; state = expect_headers })
              b'))
      × Holds b' rest
unfolding parse_round after_request_line
round-request_line time result c b line rest r e l p =
    let (b', took, k) = HasLine-retrieve_until l in
    (
      b',
      ap (λ (s : ParseState). parse_round s time result c b) e
          ∙ rw (HasLine-find_crlf l, parse_round) (rw (HasLine-slice l) (rw p (rw took))),
      k,
    )

-- A round on a request line that is not accepted.
pub round-bad_line :
    (time : ℕ) (result : ParseResult) (c : HttpContext) (b : Buffer) (line rest : Bytes)
    (r : HttpRequest)
    → c.state ≡ expect_request_line
    → HasLine b line rest
    → process_request_line c.request line ≡ ok (false, r)
    → parse_round c.state time result c b ≡ ok (leaves error (record c { request = r }) b)
unfolding parse_round after_request_line
round-bad_line time result c b line rest r e l p =
    ap (λ (s : ParseState). parse_round s time result c b) e
    ∙ rw (HasLine-find_crlf l, parse_round) (rw (HasLine-slice l) (rw p refl))
