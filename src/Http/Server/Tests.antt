-- ===== src/Http/Server/Tests.antt =====
-- Runs of the server's code, and its theorems at concrete inputs.
use cloud_storage.Common.{
  ℕ, ◌≡◌, refl, List, [], ◌∷◌, ◌++◌, inr, none, some, true, false, Bytes, codes, arith, drop,
  length, ok, case_eq, skip_spaces, break_on, replicate, out_of_fuel, ◌+◌, atoi_size,
}
use cloud_storage.Buffer.{Buffer, readable, search_crlf}
use cloud_storage.Buffer.Writes.{Holds}
use cloud_storage.Buffer.Search.{crlf}
use cloud_storage.Http.Request.{HttpRequest, Method, Version, new_request, set_method, method_of}
use cloud_storage.Http.Response.{StatusCode, new_response}
use cloud_storage.Http.Context.{
  HttpContext, new_context, process_request_line, process_target, set_target, set_version, reset,
  got_all, got_request,
}
use cloud_storage.Http.Context.Lines.{HasLine}
use cloud_storage.Http.Context.Headers.{header_text, header_effect, header_effects, AreHeaders}
use cloud_storage.Http.Context.Body.{missing}
use cloud_storage.Http.Context.Message.{with_headers, started}
use cloud_storage.Http.Context.RequestLine.{described}
use cloud_storage.Http.Server.{Handler, sends, shuts_down, asks_close, on_message, after_parse}
use cloud_storage.Http.Server.Answers.{
  answered, complete, on_message_answers, on_message_rejects, on_message_async_spins,
}

-- A handler that answers with the body of the request.
abbrev echo : Handler
echo c response = record {
  sync = true;
  context = c;
  response = record response {
    status_code = StatusCode.ok_200;
    status_message = codes "OK";
    body = c.request.body;
  };
  actions = [];
}

-- A handler that answers later.
abbrev later : Handler
later c response = record { sync = false; context = c; response = response; actions = [] }

abbrev holding : Bytes → Buffer
holding text = record {
  storage = replicate 8 0 ++ text;
  read_index = 8;
  write_index = 8 + length text;
}

abbrev line : Bytes
line = codes "PUT /f HTTP/1.0"

abbrev headers : List (Bytes × Bytes)
headers = (codes "Content-Length", codes " 2") ∷ []

abbrev message : Buffer
message = holding (line ++ (crlf ++ header_text headers (crlf ++ codes "okGET")))

abbrev parsed_line : HttpRequest
parsed_line = described new_request Method.put (codes "/f") none Version.http10

message-HasLine : HasLine message line (header_text headers (crlf ++ codes "okGET"))
unfolding readable search_crlf
message-HasLine = record { valid = omega arith; text = refl; unbroken = refl }

headers-AreHeaders : AreHeaders headers
unfolding search_crlf case_eq skip_spaces
headers-AreHeaders = ((omega arith, refl, inr (λ e. cc)), tt)

line-parsed : process_request_line new_request line ≡ ok (true, parsed_line)
unfolding process_request_line process_target set_target set_version set_method break_on method_of
line-parsed = refl

abbrev asked : HttpContext
asked = complete new_context parsed_line 7 headers (codes "okGET")

on_message_answers_example :
    (b' : Buffer) × (on_message echo 3 7 (record { context = some new_context; input = message })
      ≡ ok (
        record {
          context = some (reset (echo asked (new_response (asks_close asked.request))).context);
          input = b';
        },
        answered (echo asked (new_response (asks_close asked.request))),
      ))
    × Holds b'
        (drop (missing (with_headers (started new_context parsed_line 7) headers)) (codes "okGET"))
unfolding header_effects header_effect case_eq atoi_size
on_message_answers_example =
    on_message_answers echo 0 7 new_context message line (codes "okGET") headers parsed_line
      (echo asked (new_response (asks_close asked.request))) refl refl message-HasLine line-parsed
      headers-AreHeaders refl (omega arith) refl refl

abbrev bad_line : Buffer
bad_line = holding (codes "FLY /f HTTP/1.0" ++ (crlf ++ codes "x"))

bad_line-HasLine : HasLine bad_line (codes "FLY /f HTTP/1.0") (codes "x")
unfolding readable search_crlf
bad_line-HasLine = record { valid = omega arith; text = refl; unbroken = refl }

bad_line-parsed :
    process_request_line new_request (codes "FLY /f HTTP/1.0") ≡ ok (false, new_request)
unfolding process_request_line set_method break_on method_of
bad_line-parsed = refl

on_message_rejects_example :
    on_message echo 1 7 (record { context = some new_context; input = bad_line })
    ≡ ok (
      record { context = some (record new_context { request = new_request }); input = bad_line },
      sends (codes "HTTP/1.1 400 Bad Request\r\n\r\n") ∷ shuts_down ∷ [],
    )
on_message_rejects_example =
    on_message_rejects echo 0 7 new_context bad_line (codes "FLY /f HTTP/1.0") (codes "x")
      new_request refl bad_line-HasLine bad_line-parsed

abbrev whole : HttpContext
whole = record new_context { state = got_all }

on_message_async_spins_example :
    (after_parse later got_request whole (holding [])
      ≡ ok (record { context = some whole; input = holding [] }, []))
    × ((fuel time : ℕ) (input : Buffer)
        → on_message later fuel time (record { context = some whole; input = input }) ≡ out_of_fuel)
on_message_async_spins_example =
    on_message_async_spins later whole (holding [])
      (later whole (new_response (asks_close whole.request))) refl refl refl
