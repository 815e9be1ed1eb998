-- ===== src/Http/Context/Reset.antt =====
-- `HttpContext::reset`, which goes through `HttpRequest::swap`, and the request behind it.
use cloud_storage.Common.{◌≡◌, ◌≢◌, refl, none, true, Bytes, ok}
use cloud_storage.Http.Request.{Method, Version, new_request}
use cloud_storage.Http.Context.{HttpContext, reset, process_request_line}
use cloud_storage.Http.Context.RequestLine.{
  request_line, IsTarget, process_request_line-request_line,
}

reset-request :
    (c : HttpContext)
    → (reset c).request
      ≡ record new_request { query = c.request.path; path_params = c.request.path_params }
unfolding reset
reset-request c = refl

-- The request behind a `reset`, if its target has no query, comes out with the path of the request
-- before as its query, and with that request's path parameters.
pub reset_stale_query :
    (c : HttpContext) (m : Method) (path : Bytes) (v : Version)
    → m ≢ Method.invalid
    → v ≢ Version.unknown
    → IsTarget path none
    → process_request_line (reset c).request (request_line m path none v)
      ≡ ok (
        true,
        record new_request {
          method = m;
          version = v;
          path = path;
          query = c.request.path;
          path_params = c.request.path_params;
        },
      )
unfolding reset
reset_stale_query c m path v hm hv t =
    process_request_line-request_line (reset c).request m path none v refl hm hv t
