-- ===== src/App/Effects.antt =====
-- The state that a handler works on, and the effects of its statements.
use cloud_storage.Common.{
  ℕ, Bool, true, false, List, [], ◌∷◌, ◌++◌, Option, none, some, Bytes, codes, if◌then◌else◌,
  get_elem?,
}
use cloud_storage.Http.Headers.{Headers}
use cloud_storage.Http.Request.{HttpRequest}
use cloud_storage.Http.Response.{HttpResponse, StatusCode, add_header, code_text}
use cloud_storage.Http.Context.{HttpContext}
use cloud_storage.App.Text.{ℤ, pos, stoi, stoull}
use cloud_storage.App.Json.{Json, object, fields, text, number}
use cloud_storage.App.Platform.{Platform, Res, Row, returns, throws, undefined}

pub data UploadState : Type 0 where
  expect_headers expect_content expect_boundary complete : UploadState

-- The open file is the one at `filename`.
pub record FileUploadContext : Type 0 where
  pub filename : Bytes
  pub original_filename : Bytes
  pub total_bytes : ℕ
  pub state : UploadState
  pub boundary : Bytes

-- `content` is what the open file holds; `position` is that of the stream.
pub record FileDownContext : Type 0 where
  pub filepath : Bytes
  pub original_filename : Bytes
  pub content : Bytes
  pub position : ℕ
  pub file_size : ℕ
  pub current_position : ℕ
  pub is_complete : Bool

-- The object behind `HttpContext::customContext_`.
pub data Custom : Type 0 where
  upload : FileUploadContext → Custom
  download : FileDownContext → Custom

-- The write complete callbacks that the handlers set.
pub data Completion : Type 0 where
  shuts_down : Completion
  streams : FileDownContext → Completion

-- `mysql` tells whether the pointer is set, `mapping` is `filenameMapping_`. `context` is the
-- connection's, with the object that it holds.
pub record Exchange (W : Type 0) : Type 0 where
  pub mysql : Bool
  pub mapping : Headers
  pub world : W
  pub request : HttpRequest
  pub response : HttpResponse
  pub context : Option HttpContext
  pub custom : Option Custom
  pub on_write_complete : Option Completion

abbrev pub M : Type 0 → Type 0 → Type 0
M W A = Exchange W → Res A × Exchange W

abbrev pub column : Row → ℕ → Option Bytes
column row i = elim (get_elem? row i) [ some c ↦ c | none ↦ none ]

-- `row[i] ? row[i] : ""`.
abbrev pub text_column_or_empty : Row → ℕ → Bytes
text_column_or_empty row i = elim (column row i) [ none ↦ [] | some t ↦ t ]

-- A chain of `+` on strings.
abbrev pub concat : List Bytes → Bytes
concat [] = []
concat (s ∷ more) = s ++ concat more

module _ {W : Type 0} where
  abbrev pub bind : {A B : Type 0} → (A → M W B) → Res A × Exchange W → Res B × Exchange W
  bind f (returns a, s) = f a s
  bind f (throws what, s) = (throws what, s)
  bind f (undefined, s) = (undefined, s)

  infixl 5 ◌>>=◌ ◌>>◌
  abbrev pub ◌>>=◌ : {A B : Type 0} → M W A → (A → M W B) → M W B
  ◌>>=◌ m f s = bind f (m s)

  abbrev pub ◌>>◌ : {B : Type 0} → M W (Unit {0}) → M W B → M W B
  m >> k = m >>= λ _. k

  abbrev pub pure : {A : Type 0} → A → M W A
  pure a s = (returns a, s)

  abbrev pub raise : {A : Type 0} → Bytes → M W A
  raise what s = (throws what, s)

  abbrev pub lift : {A : Type 0} → Res A → M W A
  lift r s = (r, s)

  -- `try` with a handler for every `std::exception`.
  abbrev pub caught : {A : Type 0} → (Bytes → M W A) → Res A × Exchange W → Res A × Exchange W
  caught h (returns a, s) = (returns a, s)
  caught h (throws what, s) = h what s
  caught h (undefined, s) = (undefined, s)

  abbrev pub try : {A : Type 0} → M W A → (Bytes → M W A) → M W A
  try m h s = caught h (m s)

  abbrev pub get : M W (Exchange W)
  get s = (returns s, s)

  abbrev pub modify : (Exchange W → Exchange W) → M W (Unit {0})
  modify f s = (returns tt, f s)

  -- A part of the world that answers.
  abbrev pub on_world : {A : Type 0} → (W → A × W) → M W A
  on_world f s = let (a, w) = f s.world in (returns a, record s { world = w })

  abbrev pub when : Bool → M W (Unit {0}) → M W (Unit {0})
  when true m = m
  when false m = pure tt

  -- `std::stoi(row[i])`, and `std::string x = row[i]`, which is undefined for NULL.
  unfoldable pub int_column : Row → ℕ → M W ℤ
  int_column row i = elim (column row i) [
    | none ↦ lift undefined
    | some t ↦ elim (stoi t) [ some n ↦ pure n | none ↦ raise (codes "stoi") ]
  ]

  unfoldable pub text_column : Row → ℕ → M W Bytes
  text_column row i = elim (column row i) [ none ↦ lift undefined | some t ↦ pure t ]

  -- `row[i] ? std::stoi(row[i]) : 0`, and the same with `std::stoull`.
  unfoldable pub int_column_or_zero : Row → ℕ → M W ℤ
  int_column_or_zero row i = elim (column row i) [
    | none ↦ pure (pos 0)
    | some t ↦ elim (stoi t) [ some n ↦ pure n | none ↦ raise (codes "stoi") ]
  ]

  unfoldable pub size_column_or_zero : Row → ℕ → M W ℕ
  size_column_or_zero row i = elim (column row i) [
    | none ↦ pure 0
    | some t ↦ elim (stoull t) [ some n ↦ pure n | none ↦ raise (codes "stoull") ]
  ]

  -- `std::stoull(row[i])`.
  unfoldable pub size_column : Row → ℕ → M W ℕ
  size_column row i = elim (column row i) [
    | none ↦ lift undefined
    | some t ↦ elim (stoull t) [ some n ↦ pure n | none ↦ raise (codes "stoull") ]
  ]

  abbrev pub change_response : (HttpResponse → HttpResponse) → M W (Unit {0})
  change_response f = modify (λ s. record s { response = f s.response })

  -- `resp->addHeader`.
  abbrev pub header : Bytes → Bytes → M W (Unit {0})
  header key value = change_response (λ r. add_header r key value)

  abbrev pub status : StatusCode → Bytes → M W (Unit {0})
  status code message =
      change_response (λ r. record r { status_code = code; status_message = message })

  abbrev pub body : Bytes → M W (Unit {0})
  body b = change_response (λ r. record r { body = b })

  abbrev pub shut_down_when_written : M W (Unit {0})
  shut_down_when_written = modify (λ s. record s { on_write_complete = some shuts_down })

  module _ {D : Type 0} (lib : Platform W D) where
    unfoldable pub execute_query : Bytes → M W Bool
    execute_query query s =
        if s.mysql
        then (let (done, w) = lib.run_query query s.world in (returns done, record s { world = w }))
        else (returns false, s)

    unfoldable pub execute_query_with_result : Bytes → M W (Option (List Row))
    execute_query_with_result query = do
      done ← execute_query query
      if done then on_world lib.store_result else pure none

    -- Without a connection the text stays as it is.
    unfoldable pub escape_string : Bytes → M W Bytes
    escape_string s e = (returns (if e.mysql then lib.escape s else s), e)

    abbrev status_number : StatusCode → ℤ
    status_number code = elim (stoi (code_text code)) [ some n ↦ n | none ↦ pos 0 ]

    -- The lines that end every handler: a JSON body, and `shutdown` once it is written.
    unfoldable pub reply_json : StatusCode → Bytes → Json → M W Bool
    reply_json code message json = do
      status code message
      header (codes "Content-Type") (codes "application/json")
      header (codes "Connection") (codes "close")
      body (lib.dump json)
      shut_down_when_written
      pure true

    unfoldable pub send_error : Bytes → StatusCode → M W Bool
    send_error message code = reply_json code message (
        object (
          fields
            ((codes "code", number (status_number code)) ∷ (codes "message", text message) ∷ [])))

    unfoldable pub handle_not_found : M W Bool
    handle_not_found = reply_json StatusCode.not_found_404 (codes "Not Found") (
        object (
          fields
            ((codes "code", number (pos 404)) ∷ (codes "message", text (codes "Not Found")) ∷ [])))
