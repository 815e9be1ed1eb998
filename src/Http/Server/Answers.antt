-- ===== src/Http/Server/Answers.antt =====
-- What a connection is answered.
use cloud_storage.Common.{
  ℕ, suc, ◌≡◌, ◌≤◌, refl, ap, ◌∙◌, List, [], ◌∷◌, ◌++◌, Bool, true, false, Bytes, codes, some,
  length, drop, min, arith, ok, out_of_fuel, le→leb, if◌then◌else◌,
}
use cloud_storage.Buffer.{Buffer, readable, new_buffer, fresh, k_initial_size}
use cloud_storage.Buffer.Writes.{Holds, fresh-IsValid}
use cloud_storage.Buffer.Search.{crlf}
use cloud_storage.Http.Request.{HttpRequest}
use cloud_storage.Http.Response.{new_response, append_to_buffer-Holds, response_text}
use cloud_storage.Http.Context.{
  HttpContext, parse_request, process_request_line, reset, error, got_request, expect_request_line,
  got_all, need_more,
}
use cloud_storage.Http.Context.Lines.{HasLine}
use cloud_storage.Http.Context.Rounds.{round-bad_line, loop-leaves}
use cloud_storage.Http.Context.Headers.{header_text, AreHeaders}
use cloud_storage.Http.Context.Body.{missing, done}
use cloud_storage.Http.Context.Message.{started, with_headers, parse_request_message}
use cloud_storage.Http.Context.Spins.{parse_request_spins}
use cloud_storage.Http.Server.{
  Action, Reply, Handler, sends, shuts_down, asks_close, after_handler, on_request, after_parse,
  on_message,
}

abbrev closing : Bool → List Action
closing close = if close then shuts_down ∷ [] else []

-- A handler that answered: its calls, then the response, then `shutdown` if it closes.
abbrev pub answered : Reply → List Action
answered reply =
    reply.actions
    ++ (sends (response_text reply.response) ∷ closing reply.response.close_connection)

new_buffer-fresh : new_buffer k_initial_size ≡ ok fresh
unfolding new_buffer
new_buffer-fresh = refl

readable-fresh : readable fresh ≡ []
unfolding readable
readable-fresh = refl

after_handler_sync :
    (reply : Reply)
    → reply.sync ≡ true
    → after_handler reply ≡ ok (true, reply.context, answered reply)
unfolding after_handler
after_handler_sync reply e =
    let (b, a, h) = append_to_buffer-Holds reply.response fresh fresh-IsValid in
    let text : readable b ≡ response_text reply.response =
      h.holds ∙ ap (λ (s : Bytes). s ++ response_text reply.response) readable-fresh in
    rw e (rw (new_buffer-fresh) (rw a (rw text refl)))

after_handler_async :
    (reply : Reply)
    → reply.sync ≡ false
    → after_handler reply ≡ ok (false, reply.context, reply.actions)
unfolding after_handler
after_handler_async reply e = rw e refl

after_parse-sync :
    (handler : Handler) (c : HttpContext) (b : Buffer) (reply : Reply)
    → handler c (new_response (asks_close c.request)) ≡ reply
    → reply.sync ≡ true
    → after_parse handler got_request c b
      ≡ ok (record { context = some (reset reply.context); input = b }, answered reply)
unfolding after_parse on_request
after_parse-sync handler c b reply e s = rw e (rw (after_handler_sync reply s) refl)

-- What the handler is called with: the request of the message.
abbrev pub complete : HttpContext → HttpRequest → ℕ → List (Bytes × Bytes) → Bytes → HttpContext
complete c r time hs tail = record (done (with_headers (started c r time) hs) tail) {
  state = got_all;
}

-- A message that is all in the input buffer, with an accepted request line, with no header that
-- asks for chunks and with the body that Content-Length says, on a context that waits for one. If
-- the handler returns true for its request, `onMessage` returns, and the connection is sent the
-- handler's response once, behind whatever the handler sends itself; it is shut down exactly if the
-- response asks to close; the context is reset and the buffer keeps what follows the message.
pub on_message_answers :
    (handler : Handler) (fuel time : ℕ) (c : HttpContext) (b : Buffer) (line tail : Bytes)
    (hs : List (Bytes × Bytes)) (r : HttpRequest) (reply : Reply)
    → c.state ≡ expect_request_line
    → c.body_received ≡ 0
    → HasLine b line (header_text hs (crlf ++ tail))
    → process_request_line c.request line ≡ ok (true, r)
    → AreHeaders hs
    → (with_headers (started c r time) hs).is_chunked ≡ false
    → missing (with_headers (started c r time) hs) ≤ length tail
    → handler
        (complete c r time hs tail)
        (new_response (asks_close (complete c r time hs tail).request))
      ≡ reply
    → reply.sync ≡ true
    → (b' : Buffer) × (on_message handler
          (suc (suc (suc fuel)))
          time
          (record { context = some c; input = b })
        ≡ ok (record { context = some (reset reply.context); input = b' }, answered reply))
      × Holds b' (drop (missing (with_headers (started c r time) hs)) tail)
unfolding on_message
on_message_answers handler fuel time c b line tail hs r reply s z l p k whole all e sync =
    let d = with_headers (started c r time) hs in
    let (b', parsed, h) = parse_request_message fuel time c b line tail hs r s z l p k whole in
    let size : min (length tail) (missing d) ≡ missing d = omega arith in
    (
      b',
      rw parsed (
          rw (le→leb (missing d) (length tail) all)
            (after_parse-sync handler (complete c r time hs tail) b' reply e sync)),
      record { valid = h.valid; holds = h.holds ∙ ap (λ (n : ℕ). drop n tail) size },
    )

-- A request line that is not accepted, on a context that waits for one: the connection is sent the
-- answer 400 and is shut down, and the buffer still holds the line.
pub on_message_rejects :
    (handler : Handler) (fuel time : ℕ) (c : HttpContext) (b : Buffer) (line rest : Bytes)
    (r : HttpRequest)
    → c.state ≡ expect_request_line
    → HasLine b line rest
    → process_request_line c.request line ≡ ok (false, r)
    → on_message handler (suc fuel) time (record { context = some c; input = b })
      ≡ ok (
        record { context = some (record c { request = r }); input = b },
        sends (codes "HTTP/1.1 400 Bad Request\r\n\r\n") ∷ shuts_down ∷ [],
      )
unfolding on_message parse_request after_parse
on_message_rejects handler fuel time c b line rest r s l p =
    rw
      (loop-leaves fuel time need_more error c (record c { request = r }) b b
        (round-bad_line time need_more c b line rest r s l p))
      refl

-- The handler returned false for a complete request, and left the context's state as it found it:
-- the server sends nothing and keeps the context, and no later call of `onMessage` on that context
-- returns, whatever the fuel and the buffer are.
pub on_message_async_spins :
    (handler : Handler) (c : HttpContext) (b : Buffer) (reply : Reply)
    → handler c (new_response (asks_close c.request)) ≡ reply
    → reply.sync ≡ false
    → reply.context.state ≡ got_all
    → (after_parse handler got_request c b
        ≡ ok (record { context = some reply.context; input = b }, reply.actions))
      × ((fuel time : ℕ) (later : Buffer)
          → on_message handler fuel time (record { context = some reply.context; input = later })
            ≡ out_of_fuel)
unfolding on_message after_parse on_request
on_message_async_spins handler c b reply e a s = (
  rw e (rw (after_handler_async reply a) refl),
  λ fuel time later. rw ((parse_request_spins fuel time reply.context later).0 s) refl,
)
