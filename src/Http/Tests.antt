-- ===== src/Http/Tests.antt =====
-- Runs of the parser's code, and its theorems at concrete inputs.
use cloud_storage.Common.{
  ℕ, suc, ◌&&◌, ◌≡◌, ◌+◌, refl, List, [], ◌∷◌, ◌++◌, inl, inr, none, some, true, Bytes, codes,
  arith, take, drop, length, min, Result, ok, Option, case_eq, skip_spaces, break_on, trim_end,
  atoi_size, bytes_lt, out_of_fuel, replicate, Bool, ◌*◌, leb, bytes_eq,
}
use cloud_storage.Buffer.{Buffer, readable, search_crlf, readable_bytes, find_crlf, retrieve_until}
use cloud_storage.Http.Headers.{set as map_set, find as map_find}
use cloud_storage.Buffer.Writes.{Holds}
use cloud_storage.Buffer.Search.{crlf}
use cloud_storage.Http.Request.{
  HttpRequest, Method, Version, new_request, get_header, set_method, method_of, add_header,
  append_to_body,
}
use cloud_storage.Http.Query.{Scanner, ReadsHex, url_decode, get_query, hex_value}
use cloud_storage.Http.Query.Decode.{url_decode-percent_encode}
use cloud_storage.Http.Query.Lookup.{get_query-first_value}
use cloud_storage.Http.Context.{
  HttpContext, ParseResult, new_context, parse_request, parse_loop, parse_round, after_request_line,
  after_headers, after_body, process_request_line, process_target, set_target, set_version,
  process_headers, read_header, process_body, read_body, remaining_length, reset, expect_body,
  got_all, got_request,
}
use cloud_storage.Http.Context.Lines.{HasLine}
use cloud_storage.Http.Context.Headers.{
  header_text, header_effect, header_effects, AreHeaders, process_headers_complete,
}
use cloud_storage.Http.Context.RequestLine.{
  request_line, described, process_request_line-request_line,
}
use cloud_storage.Http.Context.Reset.{reset_stale_query}
use cloud_storage.Http.Context.Body.{missing}
use cloud_storage.Http.Context.Message.{answer, with_headers, started, parse_request_message}
use cloud_storage.Http.Context.Pieces.{Waits, deliver_all, with_body, deliver_all_complete}
use cloud_storage.Http.Context.Spins.{parse_request_spins}
use cloud_storage.Http.Response.{
  HttpResponse, StatusCode, new_response, append_to_buffer, response_text, append_to_buffer-Holds,
  code_text,
}
use cloud_storage.Buffer.Writes.{fresh-IsValid}
use cloud_storage.Buffer.{fresh}

-- A buffer that holds a text behind eight prependable bytes.
abbrev holding : Bytes → Buffer
holding text = record {
  storage = replicate 8 0 ++ text;
  read_index = 8;
  write_index = 8 + length text;
}

abbrev line : Bytes
line = codes "POST /up?x=1 HTTP/1.1"

abbrev headers : List (Bytes × Bytes)
headers = (codes "Host", codes " a") ∷ (codes "content-length", codes " 5") ∷ []

abbrev tail : Bytes
tail = codes "helloPUT"

abbrev message : Buffer
message = holding (line ++ (crlf ++ header_text headers (crlf ++ tail)))

abbrev parsed_line : HttpRequest
parsed_line = described new_request Method.post (codes "/up") (some (codes "x=1")) Version.http11

message-HasLine : HasLine message line (header_text headers (crlf ++ tail))
unfolding readable search_crlf
message-HasLine = record { valid = omega arith; text = refl; unbroken = refl }

headers-AreHeaders : AreHeaders headers
unfolding search_crlf case_eq skip_spaces
headers-AreHeaders = ((omega arith, refl, inl refl), ((omega arith, refl, inr (λ e. cc)), tt))

line-parsed : process_request_line new_request line ≡ ok (true, parsed_line)
unfolding process_request_line process_target set_target set_version set_method break_on method_of
line-parsed = refl

parse_request_message_example :
    (b' : Buffer) × (parse_request 3 7 new_context message
      ≡ ok (answer (with_headers (started new_context parsed_line 7) headers) tail b'))
    × Holds b'
        (drop (min 8 (missing (with_headers (started new_context parsed_line 7) headers))) tail)
unfolding header_effects header_effect case_eq
parse_request_message_example =
    parse_request_message 0 7 new_context message line tail headers parsed_line refl refl
      message-HasLine line-parsed headers-AreHeaders refl

abbrev body_of :
    Result (ParseResult × HttpContext × Buffer) → Option (ParseResult × Bytes × Bytes × Bytes)
body_of (ok (r, c, b)) =
    some (r, c.request.body, c.request.query, get_header c.request (codes "Host"))
body_of _ = none

message_runs :
    body_of (parse_request 3 7 new_context message)
    ≡ some (got_request, codes "hello", codes "?x=1", codes "a")
unfolding parse_request parse_loop parse_round after_request_line after_headers after_body
    process_request_line process_target set_target set_version process_headers read_header
    process_body read_body remaining_length find_crlf retrieve_until set_method add_header
    append_to_body get_header break_on case_eq trim_end atoi_size bytes_lt map_set map_find
message_runs = refl

-- Header lines, then one that is not blank but has no colon.
abbrev odd_stop : Buffer
odd_stop = holding (header_text headers (codes "stop" ++ (crlf ++ codes "x: y")))

process_headers_complete_example :
    (b' : Buffer) × (process_headers (suc (readable_bytes odd_stop)) new_context odd_stop
      ≡ ok (record (header_effects new_context headers) { state = expect_body }, b'))
    × Holds b' (codes "x: y")
unfolding readable search_crlf
process_headers_complete_example =
    process_headers_complete new_context odd_stop headers (codes "stop") (codes "x: y")
      (omega arith) refl headers-AreHeaders (omega arith) refl

-- The request line has come, and a header in part.
abbrev in_part : Buffer
in_part = holding (line ++ (crlf ++ header_text headers (codes "Acc")))

in_part-HasLine : HasLine in_part line (header_text headers (codes "Acc"))
unfolding readable search_crlf
in_part-HasLine = record { valid = omega arith; text = refl; unbroken = refl }

parse_request_spins_example : parse_request 1000 7 new_context in_part ≡ out_of_fuel
unfolding search_crlf
parse_request_spins_example =
    (parse_request_spins 1000 7 new_context in_part).1 line headers (codes "Acc") parsed_line refl
      in_part-HasLine line-parsed headers-AreHeaders refl

-- A context that waits for five bytes.
abbrev waiting : HttpContext
waiting = record new_context { state = expect_body; content_length = 5 }

waiting-Waits : Waits waiting (holding [])
unfolding readable
waiting-Waits = record {
  state = refl;
  whole = refl;
  bounded = omega arith;
  empty = record { valid = omega arith; holds = refl };
}

deliver_all_complete_example :
    (b' : Buffer) × (deliver_all 7 waiting
        (holding [])
        (codes "he")
        (codes "ll" ∷ codes "oPUT" ∷ [])
      ≡ ok (
        got_request,
        record (with_body waiting (take 5 (codes "helloPUT"))) { state = got_all },
        b',
      ))
    × Holds b' (codes "PUT")
deliver_all_complete_example =
    deliver_all_complete 7 waiting (holding []) (codes "he") (codes "ll" ∷ codes "oPUT" ∷ [])
      waiting-Waits (omega arith) (omega arith)

process_request_line-request_line_example :
    process_request_line new_request
      (request_line Method.put (codes "/a") (some (codes "k=v?w")) Version.http10)
    ≡ ok (true, described new_request Method.put (codes "/a") (some (codes "k=v?w")) Version.http10)
process_request_line-request_line_example =
    process_request_line-request_line new_request Method.put (codes "/a") (some (codes "k=v?w"))
      Version.http10 refl (λ e. cc) (λ e. cc) (omega arith)

-- The next request on a connection that served `message`.
reset_stale_query_example :
    process_request_line
      (reset (started new_context parsed_line 7)).request
      (request_line Method.get (codes "/b") none Version.http11)
    ≡ ok (
      true,
      record new_request {
        method = Method.get;
        version = Version.http11;
        path = codes "/b";
        query = codes "/up";
      },
    )
reset_stale_query_example =
    reset_stale_query (started new_context parsed_line 7) Method.get (codes "/b") Version.http11
      (λ e. cc) (λ e. cc) (omega arith)

-- A C library that reads hexadecimal digits.
abbrev scanner : Scanner
scanner = record { scan_hex = λ a b. hex_value a * 16 + hex_value b }

scanner-ReadsHex : ReadsHex scanner
scanner-ReadsHex = record { reads_digits = λ a b h k. refl }

-- `encodeURIComponent` leaves letters, among others; here it leaves the lower ones.
abbrev is_lower : ℕ → Bool
is_lower c = leb b'a' c && leb c b'z'

url_decode-percent_encode_example : url_decode scanner (codes "a%2Bb%20%25") ≡ codes "a+b %"
url_decode-percent_encode_example =
    url_decode-percent_encode scanner is_lower (codes "a+b %") scanner-ReadsHex refl refl
      (omega arith)

abbrev asking : HttpRequest
asking = record new_request { query = codes "?x=a%26b&y=ab" }

get_query-first_value_example : get_query scanner asking (codes "y") (codes "none") ≡ codes "ab"
unfolding bytes_eq
get_query-first_value_example =
    get_query-first_value scanner scanner-ReadsHex is_lower refl refl asking (codes "y")
      (codes "none") (codes "x", codes "a&b") ((codes "y", codes "ab") ∷ []) refl (omega arith) refl

abbrev found : HttpResponse
found = record (new_response true) {
  headers = (codes "Server", codes "fl") ∷ [];
  status_code = StatusCode.ok_200;
  status_message = codes "OK";
  body = codes "hi";
}

append_to_buffer-Holds_example :
    (b' : Buffer) × (append_to_buffer found fresh ≡ ok b')
    × Holds b' (readable fresh ++ response_text found)
append_to_buffer-Holds_example = append_to_buffer-Holds found fresh fresh-IsValid

response_runs :
    response_text found ≡ codes "HTTP/1.1 200 OK\r\nConnection: close\r\nServer: fl\r\n\r\nhi"
unfolding code_text
response_runs = refl
