-- ===== src/Http/Context.antt =====
-- inc/network/http/HttpContext.hpp and src/network/http/HttpContext.cpp: the request parser. Each
-- loop of the source takes fuel. A loop that `out_of_fuel` cuts off at every fuel does not end.
pub mod RequestLine
pub mod Reset
pub mod Lines
pub mod Headers
pub mod Rounds
pub mod Body
pub mod Message
pub mod Pieces
pub mod Spins
use cloud_storage.Common.{
  ℕ, zero, suc, ◌+◌, ◌-◌, Bool, true, false, not, ◌&&◌, ◌||◌, List, [], ◌∷◌, ◌++◌, Option, none,
  some, Bytes, codes, bytes_eq, break_on, skip_spaces, case_eq, atoi_size, length, take, drop, min,
  leb, ltb, ◌==◌, if◌then◌else◌, size_sub, Result, ok, out_of_fuel, ◌>>=◌, ◌>>◌, assert,
}
use cloud_storage.Buffer.{Buffer, readable_bytes, find_crlf, retrieve_until, retrieve}
use cloud_storage.Http.Request.{
  HttpRequest, Method, Version, new_request, set_method, add_header, append_to_body, swap,
}

pub data ParseState : Type 0 where
  expect_request_line expect_headers expect_body got_all : ParseState

pub data ParseResult : Type 0 where
  error need_more headers_complete got_request : ParseResult

-- `custom_context` is a handle of the object that `setContext` was given.
pub record HttpContext : Type 0 where
  pub state : ParseState
  pub request : HttpRequest
  pub content_length : ℕ
  pub body_received : ℕ
  pub is_chunked : Bool
  pub custom_context : Option ℕ

abbrev pub new_context : HttpContext
new_context = record {
  state = expect_request_line;
  request = new_request;
  content_length = 0;
  body_received = 0;
  is_chunked = false;
  custom_context = none;
}

unfoldable pub reset : HttpContext → HttpContext
unfolding swap
reset c = record {
  state = expect_request_line;
  request = (swap c.request new_request).0;
  content_length = 0;
  body_received = 0;
  is_chunked = false;
  custom_context = none;
}

-- `expectBody`.
unfoldable pub expects_body : HttpContext → Bool
expects_body c = elim c.state [
  | expect_body ↦ true
  | expect_request_line ↦ false
  | expect_headers ↦ false
  | got_all ↦ false
]

unfoldable pub remaining_length : HttpContext → ℕ
remaining_length c = size_sub c.content_length c.body_received

-- The bytes from position `from` up to position `to`.
abbrev pub slice : Buffer → ℕ → ℕ → Bytes
slice b from to = take (to - from) (drop from b.storage)

-- `setPath`, and `setQuery` with the question mark, on the text between the two spaces.
unfoldable pub set_target : HttpRequest → Bytes → HttpRequest
set_target r target = elim (break_on b'?' target) [
  | some (path, query) ↦ record r { path = path; query = b'?' ∷ query }
  | none ↦ record r { path = target }
]

-- What is behind the second space: "HTTP/1." and one more byte.
unfoldable pub set_version : HttpRequest → Bytes → Bool × HttpRequest
unfolding bytes_eq
set_version r text =
    if not (length text == 8 && bytes_eq (take 7 text) (codes "HTTP/1."))
    then (false, r)
    else if bytes_eq (drop 7 text) (codes "1")
    then (true, record r { version = Version.http11 })
    else if bytes_eq (drop 7 text) (codes "0")
    then (true, record r { version = Version.http10 })
    else (false, r)

-- The rest of the line behind an accepted method.
unfoldable pub process_target : HttpRequest → Bytes → Bool × HttpRequest
process_target r rest = elim (break_on b' ' rest) [
  | none ↦ (false, r)
  | some (target, version) ↦ set_version (set_target r target) version
]

unfoldable pub process_request_line : HttpRequest → Bytes → Result (Bool × HttpRequest)
process_request_line r line = elim (break_on b' ' line) [
  | none ↦ ok (false, r)
  | some (method, rest) ↦ do
    (known, r') ← set_method r method
    ok (if known then process_target r' rest else (false, r'))
]

-- One header line, which ends at position `crlf`. `atoi` reads on to the end of the storage.
unfoldable pub read_header : HttpContext → Buffer → ℕ → Bytes → Bytes → HttpContext
read_header c b crlf field value =
    let c' = record c { request = add_header c.request field value } in
    let number = atoi_size (drop (crlf - length (skip_spaces value)) b.storage) in
    let chunked = case_eq (skip_spaces value) (codes "chunked") || c.is_chunked in
    if case_eq field (codes "Content-Length")
    then record c' { content_length = number }
    else if case_eq field (codes "Transfer-Encoding")
    then record c' { is_chunked = chunked }
    else c'

-- The loop of `processHeaders`, which always returns true.
unfoldable pub process_headers : ℕ → HttpContext → Buffer → Result (HttpContext × Buffer)
process_headers zero c b = out_of_fuel
process_headers (suc fuel) c b = elim (find_crlf b) [
  | none ↦ ok (c, b)
  | some crlf ↦ elim (break_on b':' (slice b b.read_index crlf)) [
    | some (field, value) ↦ do
      b' ← retrieve_until b (crlf + 2)
      process_headers fuel (read_header c b crlf field value) b'
    | none ↦ do b' ← retrieve_until b (crlf + 2); ok (record c { state = expect_body }, b')
  ]
]

-- `processBody` with `toRead` computed.
unfoldable pub read_body : ℕ → HttpContext → Buffer → Result (Bool × HttpContext × Buffer)
read_body to_read c b =
    let chars = take to_read (drop b.read_index b.storage) in
    let c' = record c {
      request = append_to_body c.request chars;
      body_received = c.body_received + to_read;
    } in
    elim (ltb 0 to_read) [
      | true ↦ do b' ← retrieve b to_read; ok (leb c.content_length c'.body_received, c', b')
      | false ↦ ok (leb c.content_length c.body_received, c, b)
    ]

unfoldable pub process_body : HttpContext → Buffer → Result (Bool × HttpContext × Buffer)
process_body c b =
    if c.is_chunked
    then ok (false, c, b)
    else read_body (min (readable_bytes b) (remaining_length c)) c b

-- Behind `processBody`.
unfoldable pub after_body :
    ParseResult → Bool × HttpContext × Buffer → ParseResult × HttpContext × Buffer
after_body result (true, c, b) = (got_request, record c { state = got_all }, b)
after_body result (false, c, b) =
    (if ltb c.body_received c.content_length then headers_complete else result, c, b)

abbrev no_body : HttpContext → Bool
no_body c = c.content_length == 0 && not c.is_chunked

-- One round of the loop of `parseRequest`: with `hasMore` false it leaves the loop.
pub data Round : Type 0 where
  leaves : ParseResult → HttpContext → Buffer → Round
  repeats : ParseResult → HttpContext → Buffer → Round

-- Behind `processHeaders`, by the state that it left.
unfoldable pub after_headers : ParseState → ParseResult → HttpContext → Buffer → Round
after_headers expect_body result c b =
    if no_body c
    then leaves got_request (record c { state = got_all }) b
    else if ltb 0 (readable_bytes b)
    then repeats headers_complete c b
    else leaves headers_complete c b
after_headers _ result c b = repeats result c b

-- Behind `processRequestLine`, on the line that ends at position `crlf`.
unfoldable pub after_request_line :
    ℕ → ParseResult → HttpContext → Buffer → ℕ → Bool × HttpRequest → Result Round
after_request_line time result c b crlf (false, r) = ok (leaves error (record c { request = r }) b)
after_request_line time result c b crlf (true, r) = do
  b' ← retrieve_until b (crlf + 2)
  let c' = record c { request = record r { receive_time = time }; state = expect_headers }
  ok (repeats result c' b')

unfoldable pub parse_round : ParseState → ℕ → ParseResult → HttpContext → Buffer → Result Round
parse_round expect_request_line time result c b = elim (find_crlf b) [
  | none ↦ ok (leaves result c b)
  | some crlf ↦ do
    line ← process_request_line c.request (slice b b.read_index crlf)
    after_request_line time result c b crlf line
]
parse_round expect_headers time result c b = do
  (c', b') ← process_headers (suc (readable_bytes b)) c b
  ok (after_headers c'.state result c' b')
parse_round expect_body time result c b = do
  done ← process_body c b
  let (result', c', b') = after_body result done
  ok (leaves result' c' b')
parse_round got_all time result c b = ok (repeats result c b)

-- The loop of `parseRequest`: `result` is its local variable.
unfoldable pub parse_loop :
    ℕ → ℕ → ParseResult → HttpContext → Buffer → Result (ParseResult × HttpContext × Buffer)
parse_loop zero time result c b = out_of_fuel
parse_loop (suc fuel) time result c b = do
  round ← parse_round c.state time result c b
  elim round [
    | leaves result' c' b' ↦ ok (result', c', b')
    | repeats result' c' b' ↦ parse_loop fuel time result' c' b'
  ]

unfoldable pub parse_request :
    ℕ → ℕ → HttpContext → Buffer → Result (ParseResult × HttpContext × Buffer)
parse_request fuel time c b = parse_loop fuel time need_more c b
