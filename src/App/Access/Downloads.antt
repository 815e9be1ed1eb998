-- ===== src/App/Access/Downloads.antt =====
-- `handleDownload` and `handleShareDownload`.
use cloud_storage.Common.{Bool, not, ◌&&◌, [], ◌∷◌, Option, some, Bytes, codes, if◌then◌else◌}
use cloud_storage.Http.Request.{get_header}
use cloud_storage.Http.Query.{get_query}
use cloud_storage.Http.Response.{StatusCode}
use cloud_storage.App.Text.{ℤ, utf8, is_some}
use cloud_storage.App.Platform.{Platform, Row}
use cloud_storage.App.Effects.{
  M, ◌>>=◌, pure, get, concat, int_column, text_column, int_column_or_zero,
  execute_query_with_result, escape_string, send_error,
}
use cloud_storage.App.Sessions.{validate_session}
use cloud_storage.App.Transfer.{serve_file}
use cloud_storage.App.Access.{
  refuse, get_path_param, is_empty, has_permission, has_share_permission, visit,
}

module _ {W D : Type 0} (lib : Platform W D) where
  -- The row of the query, from the columns to the file.
  unfoldable pub download_row : Option (ℤ × Bytes) → Bytes → Bytes → Row → M W Bool
  download_row session share_code extract_code row = do
    file_id ← int_column row 0
    server_filename ← text_column row 1
    original_filename ← text_column row 2
    file_owner_id ← int_column row 3
    shared_with_id ← int_column_or_zero row 5
    let v = visit session share_code extract_code row file_owner_id shared_with_id
    if has_permission v then serve_file lib server_filename original_filename else refuse lib v

  unfoldable pub share_query : Bytes → Bytes → M W Bytes
  share_query filename share_code = do
    name ← escape_string lib filename
    code ← escape_string lib share_code
    pure (
        concat (
          codes "FROM files f JOIN file_shares fs ON f.id = fs.file_id WHERE f.filename = '"
          ∷ name
          ∷ codes "' AND fs.share_code = '"
          ∷ code
          ∷ codes "' AND (fs.expire_time IS NULL OR fs.expire_time > NOW())"
          ∷ []))

  unfoldable pub download_query : Bytes → Bytes → M W Bytes
  download_query filename share_code =
      if is_empty share_code
      then (do
        name ← escape_string lib filename
        pure (
            concat (
              codes "SELECT f.id, f.filename, f.original_filename, f.user_id, "
              ∷ codes "NULL as share_type, NULL as shared_with_id, NULL as extract_code "
              ∷ codes "FROM files f WHERE f.filename = '"
              ∷ name
              ∷ codes "'"
              ∷ [])))
      else (do
        from ← share_query filename share_code
        pure (
            concat (
              codes "SELECT f.id, f.filename, f.original_filename, f.user_id, "
              ∷ codes "fs.share_type, fs.shared_with_id, fs.extract_code "
              ∷ from
              ∷ [])))

  unfoldable pub handle_download : M W Bool
  handle_download = do
    s ← get
    let filename = get_path_param s.request (codes "filename")
    let header_id = get_header s.request (codes "X-Session-ID")
    let session_id =
        if is_empty header_id
        then get_query lib.scanner s.request (codes "sessionId") []
        else header_id
    if is_empty filename
        then send_error lib (codes "Missing filename") StatusCode.bad_request_400
        else (do
          session ← validate_session lib session_id
          let share_code = get_query lib.scanner s.request (codes "code") []
          let extract_code = get_query lib.scanner s.request (codes "extract_code") []
          if is_empty share_code && not (is_some session)
              then send_error lib (utf8 "请先登录") StatusCode.unauthorized_401
              else (do
                query ← download_query filename share_code
                result ← execute_query_with_result lib query
                elim result [
                  | some (row ∷ _) ↦ download_row session share_code extract_code row
                  | _ ↦ send_error lib (codes "File not found") StatusCode.not_found_404
                ]))

  unfoldable pub share_download_row : Option (ℤ × Bytes) → Bytes → Bytes → Row → M W Bool
  share_download_row session share_code extract_code row = do
    server_filename ← text_column row 1
    original_filename ← text_column row 2
    file_owner_id ← int_column row 3
    share_type ← text_column row 4
    shared_with_id ← int_column_or_zero row 5
    let v = visit session share_code extract_code row file_owner_id shared_with_id
    if has_share_permission v
        then serve_file lib server_filename original_filename
        else refuse lib v

  unfoldable pub handle_share_download : M W Bool
  handle_share_download = do
    s ← get
    let filename = get_path_param s.request (codes "filename")
    let share_code = get_query lib.scanner s.request (codes "code") []
    let extract_code = get_query lib.scanner s.request (codes "extract_code") []
    if is_empty filename
        then send_error lib (codes "Missing filename") StatusCode.bad_request_400
        else if is_empty share_code
        then send_error lib (codes "Missing share code") StatusCode.bad_request_400
        else (do
          session ← validate_session lib (get_header s.request (codes "X-Session-ID"))
          from ← share_query filename share_code
          result ← execute_query_with_result lib (
              concat (
                codes "SELECT f.id, f.filename, f.original_filename, f.user_id, "
                ∷ codes "fs.share_type, fs.shared_with_id, fs.extract_code, "
                ∷ codes "fs.created_at, fs.expire_time "
                ∷ from
                ∷ []))
          elim result [
            | some (row ∷ _) ↦ share_download_row session share_code extract_code row
            | _ ↦ send_error lib (codes "Share not found or expired") StatusCode.not_found_404
          ])
