-- ===== src/Http/Server.antt =====
-- inc/network/http/HttpServer.hpp and src/network/http/HttpServer.cpp: what the server does with
-- the events of one connection. The handler that `setHttpCallback` installs is a parameter.
pub mod Answers
mod Tests
use cloud_storage.Common.{
  ℕ, Bool, true, false, not, ◌&&◌, ◌||◌, List, [], ◌∷◌, ◌++◌, Option, none, some, Bytes, codes,
  bytes_eq, length, leb, ltb, if◌then◌else◌, Result, ok, ◌>>=◌, ◌*◌,
}
use cloud_storage.Buffer.{Buffer, readable, new_buffer, k_initial_size}
use cloud_storage.Http.Request.{HttpRequest, Method, Version, get_header}
use cloud_storage.Http.Response.{HttpResponse, StatusCode, new_response, append_to_buffer}
use cloud_storage.Http.Context.{
  HttpContext, ParseResult, new_context, parse_request, reset, error, need_more, headers_complete,
  got_request, expects_body,
}

-- Calls of the connection: `send` with the bytes it is given, and `shutdown`.
pub data Action : Type 0 where
  sends : Bytes → Action
  shuts_down : Action

-- The connection's `context_` and its input buffer.
pub record Connection : Type 0 where
  pub context : Option HttpContext
  pub input : Buffer

-- What a handler returns and leaves behind: it may change the request and the response, and call
-- the connection. It reaches the request through the context.
pub record Reply : Type 0 where
  pub sync : Bool
  pub context : HttpContext
  pub response : HttpResponse
  pub actions : List Action

abbrev pub Handler : Type 0
Handler = HttpContext → HttpResponse → Reply

unfoldable pub default_http_callback : Handler
default_http_callback c response = record {
  sync = true;
  context = c;
  response = record response {
    status_code = StatusCode.not_found_404;
    status_message = codes "Not Found";
    close_connection = true;
  };
  actions = [];
}

unfoldable pub on_connection : Bool → Connection → Connection
on_connection connected conn =
    if connected then record conn { context = some new_context } else conn

abbrev is_http10 : Version → Bool
is_http10 Version.http10 = true
is_http10 _ = false

abbrev is_post : Method → Bool
is_post Method.post = true
is_post _ = false

-- `close` of `onRequest`.
unfoldable pub asks_close : HttpRequest → Bool
asks_close r =
    let connection = get_header r (codes "Connection") in
    bytes_eq connection (codes "close")
    || (is_http10 r.version && not (bytes_eq connection (codes "Keep-Alive")))

-- Behind the handler.
unfoldable pub after_handler : Reply → Result (Bool × HttpContext × List Action)
after_handler reply =
    if reply.sync
    then (new_buffer k_initial_size >>= λ fresh. append_to_buffer reply.response fresh >>= λ text.
        ok (
          true,
          reply.context,
          reply.actions
              ++ (sends (readable text)
                  ∷ (if reply.response.close_connection then shuts_down ∷ [] else [])),
        ))
    else ok (false, reply.context, reply.actions)

unfoldable pub on_request : Handler → HttpContext → Result (Bool × HttpContext × List Action)
on_request handler c = after_handler (handler c (new_response (asks_close c.request)))

-- The bytes of a body above which `onMessage` hands the parts of an upload on.
abbrev big_body : ℕ
big_body = 1024 * 1024

unfoldable pub is_big_upload : HttpContext → Bool
is_big_upload c =
    expects_body c
    && (bytes_eq c.request.path (codes "/upload")
        && (is_post c.request.method && leb big_body (length c.request.body)))

-- Behind `parseRequest`, by its result.
unfoldable pub after_parse :
    Handler → ParseResult → HttpContext → Buffer → Result (Connection × List Action)
after_parse handler error c b = ok (
  record { context = some c; input = b },
  sends (codes "HTTP/1.1 400 Bad Request\r\n\r\n") ∷ shuts_down ∷ [],
)
after_parse handler headers_complete c b =
    let reply = handler c (new_response false) in
    ok (
      if is_big_upload c
      then (record { context = some reply.context; input = b }, reply.actions)
      else (record { context = some c; input = b }, []))
after_parse handler got_request c b = do
  (sync, c', actions) ← on_request handler c
  ok (record { context = some (if sync then reset c' else c'); input = b }, actions)
after_parse handler need_more c b = ok (record { context = some c; input = b }, [])

unfoldable pub on_message : Handler → ℕ → ℕ → Connection → Result (Connection × List Action)
on_message handler fuel time conn = elim conn.context [
  | none ↦ ok (conn, [])
  | some c ↦ do
    (result, c', b) ← parse_request fuel time c conn.input
    after_parse handler result c' b
]
