-- ===== src/Http/Response.antt =====
-- inc/network/http/HttpResponse.hpp.
use cloud_storage.Common.{
  ℕ, Bool, false, [], ◌∷◌, ◌++◌, ◌≡◌, refl, sym, ap, ◌∙◌, append_assoc, append-nil, Option, none,
  Bytes, codes, if◌then◌else◌, Result, ok, ◌>>=◌,
}
use cloud_storage.Buffer.{Buffer, append, readable}
use cloud_storage.Buffer.Layout.{IsValid}
use cloud_storage.Buffer.Writes.{Holds, append-Holds}
use cloud_storage.Http.Headers
use cloud_storage.Http.Headers.{Headers}

pub data StatusCode : Type 0 where
  unknown ok_200 partial_content_206 moved_permanently_301 bad_request_400 : StatusCode
  unauthorized_401 forbidden_403 not_found_404 range_not_satisfiable_416 : StatusCode
  internal_server_error_500 : StatusCode

-- The enumerator's value under "%d".
unfoldable pub code_text : StatusCode → Bytes
code_text StatusCode.unknown = codes "0"
code_text StatusCode.ok_200 = codes "200"
code_text StatusCode.partial_content_206 = codes "206"
code_text StatusCode.moved_permanently_301 = codes "301"
code_text StatusCode.bad_request_400 = codes "400"
code_text StatusCode.unauthorized_401 = codes "401"
code_text StatusCode.forbidden_403 = codes "403"
code_text StatusCode.not_found_404 = codes "404"
code_text StatusCode.range_not_satisfiable_416 = codes "416"
code_text StatusCode.internal_server_error_500 = codes "500"

-- `response_callback` is a handle of the function.
pub record HttpResponse : Type 0 where
  pub headers : Headers
  pub status_code : StatusCode
  pub status_message : Bytes
  pub close_connection : Bool
  pub body : Bytes
  pub async : Bool
  pub response_callback : Option ℕ

abbrev pub new_response : Bool → HttpResponse
new_response close = record {
  headers = [];
  status_code = StatusCode.unknown;
  status_message = [];
  close_connection = close;
  body = [];
  async = false;
  response_callback = none;
}

unfoldable pub add_header : HttpResponse → Bytes → Bytes → HttpResponse
add_header r key value = record r { headers = Headers.set key value r.headers }

-- The loop over the map.
unfoldable pub append_headers : Buffer → Headers → Result Buffer
append_headers b [] = ok b
append_headers b ((key, value) ∷ more) = do
  b1 ← append b key
  b2 ← append b1 (codes ": ")
  b3 ← append b2 value
  b4 ← append b3 (codes "\r\n")
  append_headers b4 more

unfoldable pub append_to_buffer : HttpResponse → Buffer → Result Buffer
append_to_buffer r b = do
  b1 ← append b (codes "HTTP/1.1 " ++ (code_text r.status_code ++ codes " "))
  b2 ← append b1 r.status_message
  b3 ← append b2 (codes "\r\n")
  b4 ← append b3 (
      if r.close_connection
      then codes "Connection: close\r\n"
      else codes "Connection: Keep-Alive\r\n")
  b5 ← append_headers b4 r.headers
  b6 ← append b5 (codes "\r\n")
  append b6 r.body

-- The text of a response: status line, connection header, the headers in the order of their
-- names, a blank line, the body.
abbrev pub fields_text : Headers → Bytes
fields_text [] = []
fields_text ((key, value) ∷ more) =
    key ++ (codes ": " ++ (value ++ (codes "\r\n" ++ fields_text more)))

abbrev pub connection_text : Bool → Bytes
connection_text close =
    if close then codes "Connection: close\r\n" else codes "Connection: Keep-Alive\r\n"

abbrev pub status_text : HttpResponse → Bytes
status_text r =
    (codes "HTTP/1.1 " ++ (code_text r.status_code ++ codes " "))
    ++ (r.status_message ++ codes "\r\n")

abbrev pub response_text : HttpResponse → Bytes
response_text r =
    status_text r
    ++ (connection_text r.close_connection ++ (fields_text r.headers ++ (codes "\r\n" ++ r.body)))

-- A buffer that grows by `more` in one call of `append`.
appended :
    {b : Buffer} {text : Bytes} (more : Bytes)
    → Holds b text
    → (b' : Buffer) × (append b more ≡ ok b') × Holds b' (text ++ more)
appended {b} more h =
    let (b', e, r) = append-Holds b more h.valid in
    (b', e, record { valid = r.valid; holds = r.holds ∙ ap (λ (s : Bytes). s ++ more) h.holds })

append_headers-Holds :
    (m : Headers) (b : Buffer) (text : Bytes)
    → Holds b text
    → (b' : Buffer) × (append_headers b m ≡ ok b') × Holds b' (text ++ fields_text m)
unfolding append_headers
append_headers-Holds [] b text h =
    (b, refl, record { valid = h.valid; holds = h.holds ∙ sym (append-nil text) })
append_headers-Holds ((key, value) ∷ m) b text h =
    let (b1, e1, h1) = appended key h in
    let (b2, e2, h2) = appended (codes ": ") h1 in
    let (b3, e3, h3) = appended value h2 in
    let (b4, e4, h4) = appended (codes "\r\n") h3 in
    let (b', e, r) = append_headers-Holds m b4 _ h4 in
    (
      b',
      rw e1 (rw e2 (rw e3 (rw e4 e))),
      record { valid = r.valid; holds = r.holds ∙ simp append_assoc },
    )

-- On a valid buffer `appendToBuffer` returns, and adds the text of the response behind the
-- readable bytes.
pub append_to_buffer-Holds :
    (r : HttpResponse) (b : Buffer)
    → IsValid b
    → (b' : Buffer) × (append_to_buffer r b ≡ ok b') × Holds b' (readable b ++ response_text r)
unfolding append_to_buffer
append_to_buffer-Holds r b v =
    let h : Holds b (readable b) = record { valid = v; holds = refl } in
    let (b1, e1, h1) = appended (codes "HTTP/1.1 " ++ (code_text r.status_code ++ codes " ")) h in
    let (b2, e2, h2) = appended r.status_message h1 in
    let (b3, e3, h3) = appended (codes "\r\n") h2 in
    let (b4, e4, h4) = appended (connection_text r.close_connection) h3 in
    let (b5, e5, h5) = append_headers-Holds r.headers b4 _ h4 in
    let (b6, e6, h6) = appended (codes "\r\n") h5 in
    let (b', e, h7) = appended r.body h6 in
    (
      b',
      rw e1 (rw e2 (rw e3 (rw e4 (rw e5 (rw e6 e))))),
      record { valid = h7.valid; holds = h7.holds ∙ simp append_assoc },
    )
