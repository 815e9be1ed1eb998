-- ===== src/Http/Context/RequestLine.antt =====
-- `processRequestLine` on the request lines of HTTP/1.0 and HTTP/1.1.
use cloud_storage.Common.{
  ◌≡◌, ◌≢◌, refl, ap, ◌∙◌, ◌++◌, [], ◌∷◌, Bytes, arith, Bool, true, Option, none, some, codes,
  Lacks, break_on-Lacks, break_on-none, ok,
}
use cloud_storage.Http.Request.{HttpRequest, Method, Version, method_string, set_method}
use cloud_storage.Http.Context.{process_request_line, process_target, set_target, set_version}

abbrev pub version_text : Version → Bytes
version_text Version.http11 = codes "HTTP/1.1"
version_text Version.http10 = codes "HTTP/1.0"
version_text Version.unknown = []

abbrev pub target_text : Bytes → Option Bytes → Bytes
target_text path none = path
target_text path (some query) = path ++ (b'?' ∷ query)

abbrev pub request_line : Method → Bytes → Option Bytes → Version → Bytes
request_line m path query v =
    method_string m ++ (b' ' ∷ (target_text path query ++ (b' ' ∷ version_text v)))

-- The request that the line describes. A target with no query leaves the field as it was.
abbrev pub described : HttpRequest → Method → Bytes → Option Bytes → Version → HttpRequest
described r m path none v = record r { method = m; path = path; version = v }
described r m path (some query) v = record r {
  method = m;
  path = path;
  query = b'?' ∷ query;
  version = v;
}

-- No space in the target, and no question mark in the path.
abbrev pub IsTarget : Bytes → Option Bytes → Type 0
IsTarget path query = Lacks b' ' (target_text path query) × Lacks b'?' path

method_string-Lacks : (m : Method) → Lacks b' ' (method_string m)
unfolding method_string
method_string-Lacks Method.get = omega arith
method_string-Lacks Method.post = omega arith
method_string-Lacks Method.head = omega arith
method_string-Lacks Method.put = omega arith
method_string-Lacks Method.delete = omega arith
method_string-Lacks Method.invalid = omega arith

set_method-method_string :
    (r : HttpRequest) (m : Method)
    → r.method ≡ Method.invalid
    → m ≢ Method.invalid
    → set_method r (method_string m) ≡ ok (true, record r { method = m })
unfolding set_method method_string
set_method-method_string r Method.get e h = rw e
set_method-method_string r Method.post e h = rw e
set_method-method_string r Method.head e h = rw e
set_method-method_string r Method.put e h = rw e
set_method-method_string r Method.delete e h = rw e
set_method-method_string r Method.invalid e h = absurd (h refl)

set_version-version_text :
    (r : HttpRequest) (v : Version)
    → v ≢ Version.unknown
    → set_version r (version_text v) ≡ (true, record r { version = v })
unfolding set_version
set_version-version_text r Version.http11 h = refl
set_version-version_text r Version.http10 h = refl
set_version-version_text r Version.unknown h = absurd (h refl)

process_target-version :
    (r : HttpRequest) (target : Bytes) (v : Version)
    → Lacks b' ' target
    → v ≢ Version.unknown
    → process_target r (target ++ (b' ' ∷ version_text v))
      ≡ (true, record (set_target r target) { version = v })
unfolding process_target
process_target-version r target v t h =
    rw (break_on-Lacks b' ' target (version_text v) t, process_target)
      (set_version-version_text (set_target r target) v h)

-- The method comes first, so `r` has one already.
set_target-described :
    (r : HttpRequest) (m : Method) (path : Bytes) (query : Option Bytes) (v : Version)
    → Lacks b'?' path
    → record (set_target (record r { method = m }) (target_text path query)) { version = v }
      ≡ described r m path query v
unfolding set_target
set_target-described r m path none v h = rw (break_on-none b'?' path h, set_target)
set_target-described r m path (some query) v h = rw (break_on-Lacks b'?' path query h, set_target)

-- `processRequestLine`, on a request with no method yet, accepts the line of each method, target
-- and version that the class knows, and sets the fields from it.
pub process_request_line-request_line :
    (r : HttpRequest) (m : Method) (path : Bytes) (query : Option Bytes) (v : Version)
    → r.method ≡ Method.invalid
    → m ≢ Method.invalid
    → v ≢ Version.unknown
    → IsTarget path query
    → process_request_line r (request_line m path query v) ≡ ok (true, described r m path query v)
unfolding process_request_line
process_request_line-request_line r m path query v e hm hv t =
    let target = target_text path query in
    let r' : HttpRequest = record r { method = m } in
    rw
      (
        break_on-Lacks b' ' (method_string m) (target ++ (b' ' ∷ version_text v))
            (method_string-Lacks m),
        process_request_line,
      )
      (rw (set_method-method_string r m e hm) (
        ap (λ (x : Bool × HttpRequest). ok x)
          (process_target-version r' target v t.0 hv
            ∙ ap (λ (x : HttpRequest). (true, x)) (set_target-described r m path query v t.1))))
