-- ===== src/Http/Request.antt =====
-- inc/network/http/HttpRequest.hpp.
use cloud_storage.Common.{
  ℕ, Bool, true, false, not, List, [], ◌++◌, none, some, Bytes, codes, bytes_eq, skip_spaces,
  trim_end, if◌then◌else◌, Result, ok, ◌>>◌, assert,
}
use cloud_storage.Http.Headers.{Headers}
use cloud_storage.Http.Headers

pub data Method : Type 0 where
  invalid get post head put delete : Method

pub data Version : Type 0 where
  unknown http10 http11 : Version

-- A time stamp is its microseconds since the epoch. `path_params` is the unordered map.
pub record HttpRequest : Type 0 where
  pub method : Method
  pub version : Version
  pub path : Bytes
  pub query : Bytes
  pub body : Bytes
  pub receive_time : ℕ
  pub headers : Headers
  pub path_params : List (Bytes × Bytes)

abbrev pub new_request : HttpRequest
new_request = record {
  method = Method.invalid;
  version = Version.unknown;
  path = [];
  query = [];
  body = [];
  receive_time = 0;
  headers = [];
  path_params = [];
}

unfoldable pub method_of : Bytes → Method
unfolding bytes_eq
method_of m =
    if bytes_eq m (codes "GET")
    then Method.get
    else if bytes_eq m (codes "POST")
    then Method.post
    else if bytes_eq m (codes "HEAD")
    then Method.head
    else if bytes_eq m (codes "PUT")
    then Method.put
    else if bytes_eq m (codes "DELETE")
    then Method.delete
    else Method.invalid

abbrev pub is_invalid : Method → Bool
is_invalid Method.invalid = true
is_invalid _ = false

unfoldable pub set_method : HttpRequest → Bytes → Result (Bool × HttpRequest)
unfolding method_of
set_method r m = do
  assert (is_invalid r.method)
  ok (not (is_invalid (method_of m)), record r { method = method_of m })

unfoldable pub method_string : Method → Bytes
method_string Method.get = codes "GET"
method_string Method.post = codes "POST"
method_string Method.head = codes "HEAD"
method_string Method.put = codes "PUT"
method_string Method.delete = codes "DELETE"
method_string Method.invalid = codes "UNKNOWN"

unfoldable pub append_to_body : HttpRequest → Bytes → HttpRequest
append_to_body r chars = record r { body = r.body ++ chars }

-- `addHeader(start, colon, end)`: the bytes before the colon, and those behind it.
unfoldable pub add_header : HttpRequest → Bytes → Bytes → HttpRequest
unfolding skip_spaces trim_end Headers.set
add_header r field value = record r {
  headers = Headers.set field (trim_end (skip_spaces value)) r.headers;
}

unfoldable pub get_header : HttpRequest → Bytes → Bytes
unfolding Headers.find
get_header r field = elim (Headers.find field r.headers) [ none ↦ [] | some v ↦ v ]

-- `a.swap(b)`: the new `a` and the new `b`. The first exchange of texts is between `a.path_` and
-- `b.query_`, the second between `a.query_` and `b.query_`; `path_params` stay.
unfoldable pub swap : HttpRequest → HttpRequest → HttpRequest × HttpRequest
swap a b = (
  record b { path = b.query; query = a.path; path_params = a.path_params },
  record a { path = b.path; query = a.query; path_params = b.path_params },
)
