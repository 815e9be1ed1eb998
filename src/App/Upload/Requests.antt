-- ===== src/App/Upload/Requests.antt =====
-- `handleFileUpload`: the first request of an upload, the later ones, and the end.
use cloud_storage.Common.{
  Bool, true, false, ◌||◌, [], ◌∷◌, ◌++◌, Option, none, some, Bytes, codes, length, ◌==◌,
  if◌then◌else◌,
}
use cloud_storage.Http.Request.{get_header}
use cloud_storage.App.Decode.{url_decode}
use cloud_storage.Http.Response.{StatusCode}
use cloud_storage.Http.Context.{HttpContext, ParseState}
use cloud_storage.App.Text.{ℤ, pos, utf8, int_text, nat_text, to_int}
use cloud_storage.App.Json.{size_json, object, fields, text, number}
use cloud_storage.App.Platform.{Platform, undefined}
use cloud_storage.App.Effects.{
  M, ◌>>=◌, ◌>>◌, pure, lift, try, get, modify, concat, FileUploadContext, UploadState, complete,
  upload, download, execute_query, escape_string, reply_json, send_error,
}
use cloud_storage.App.Sessions.{with_session, generate_unique_filename}
use cloud_storage.App.Upload.{
  set_upload, new_upload, first_piece, next_piece, upload_dir, find_boundary, disposition_filename,
  file_name, get_file_type,
}

module _ {W D : Type 0} (lib : Platform W D) where
  -- `std::string originalFilename` of the first request: none where the request is refused.
  unfoldable pub upload_name : M W (Option Bytes)
  upload_name = do
    s ← get
    let header_filename = get_header s.request (codes "X-File-Name")
    if length header_filename == 0
        then (if length s.request.body == 0
            then (do
              _ ← send_error lib (codes "Request body is empty") StatusCode.bad_request_400
              pure none)
            else pure (
                some (elim (disposition_filename s.request.body) [
                  | some t ↦ t
                  | none ↦ codes "unknown_file"
                ])))
        else (do decoded ← lift (url_decode lib.scan_hex none header_filename); pure (some decoded))

  abbrev clear_body : M W (Unit {0})
  clear_body = modify (λ s. record s { request = record s.request { body = [] } })

  -- A request without a context yet.
  unfoldable pub start_upload : Bytes → M W (Option FileUploadContext)
  start_upload boundary =
      try
        (do
          name ← upload_name
          elim name [
            | none ↦ pure none
            | some original_filename ↦ do
              filename ← generate_unique_filename lib (codes "upload")
              c ← new_upload lib (concat (upload_dir ∷ codes "/" ∷ filename ∷ [])) original_filename
              let c1 : FileUploadContext = record c { boundary = boundary }
              set_upload lib c1
              s ← get
              c2 ← first_piece lib c1 s.request.body
              clear_body
              pure (some c2)
          ])
        (λ what. do
          _ ← send_error lib (codes "Failed to create file") StatusCode.internal_server_error_500
          pure none)

  unfoldable pub open_upload : M W (Option FileUploadContext)
  open_upload = do
    s ← get
    let content_type = get_header s.request (codes "Content-Type")
    if length content_type == 0
        then (do
          _ ← send_error lib (codes "Content-Type header is missing") StatusCode.bad_request_400
          pure none)
        else elim (find_boundary content_type) [
          | none ↦ do
            _ ← send_error lib (codes "Invalid Content-Type") StatusCode.bad_request_400
            pure none
          | some t ↦ start_upload (codes "--" ++ t)
        ]

  unfoldable pub continue_upload : FileUploadContext → M W (Option FileUploadContext)
  continue_upload c =
      try (do s ← get; c1 ← next_piece lib c s.request.body; pure (some c1))
        (λ what. do
          _ ← send_error lib (codes "Failed to process data") StatusCode.internal_server_error_500
          pure none)

  abbrev is_got_all : ParseState → Bool
  is_got_all ParseState.got_all = true
  is_got_all _ = false

  abbrev is_complete : UploadState → Bool
  is_complete complete = true
  is_complete _ = false

  -- The row of the file, and the response.
  unfoldable pub record_upload : ℤ → FileUploadContext → M W Bool
  record_upload user_id c = do
    let server_filename = file_name c.filename
    name ← escape_string lib server_filename
    original ← escape_string lib c.original_filename
    file_type ← escape_string lib (get_file_type c.original_filename)
    _ ← execute_query lib (
        concat (
          codes
            "INSERT INTO files (filename, original_filename, file_size, file_type, user_id) VALUES ('"
          ∷ name
          ∷ codes "', '"
          ∷ original
          ∷ codes "', "
          ∷ nat_text c.total_bytes
          ∷ codes ", '"
          ∷ file_type
          ∷ codes "', "
          ∷ int_text user_id
          ∷ codes ")"
          ∷ []))
    s ← get
    _ ← reply_json lib StatusCode.ok_200 (codes "OK") (
        object (
          fields (
            (codes "code", number (pos 0))
            ∷ (codes "message", text (utf8 "上传成功"))
            ∷ (codes "fileId", number (to_int (lib.insert_id s.world)))
            ∷ (codes "filename", text server_filename)
            ∷ (codes "originalFilename", text c.original_filename)
            ∷ (codes "size", size_json c.total_bytes)
            ∷ [])))
    modify (λ t. record t { custom = none })
    pure true

  -- What follows the pieces: the request is over, or more is to come.
  unfoldable pub finish_upload : ℤ → HttpContext → Option FileUploadContext → M W Bool
  finish_upload user_id http none = pure true
  finish_upload user_id http (some c) = do
    clear_body
    if is_complete c.state || is_got_all http.state then record_upload user_id c else pure false

  unfoldable pub handle_file_upload : M W Bool
  handle_file_upload = with_session lib λ user_id username. do
    s ← get
    elim s.context [
      | none ↦ send_error lib (codes "Internal Server Error") StatusCode.internal_server_error_500
      | some http ↦ elim s.custom [
        | none ↦ open_upload >>= finish_upload user_id http
        | some (upload c) ↦ continue_upload c >>= finish_upload user_id http
        | some (download _) ↦ lift undefined
      ]
    ]
