-- ===== src/App/Shares/Visits.antt =====
-- `handleShareAccess` and `handleShareInfo`.
use cloud_storage.Common.{
  ℕ, Bool, true, false, not, ◌&&◌, ◌||◌, [], ◌∷◌, Option, none, some, Bytes, codes, length,
  bytes_eq, ◌==◌, if◌then◌else◌,
}
use cloud_storage.Http.Request.{get_header}
use cloud_storage.Http.Query.{get_query}
use cloud_storage.Http.Response.{StatusCode}
use cloud_storage.App.Text.{ℤ, pos, utf8, int_eq, stoi, find_text, is_some}
use cloud_storage.App.Json.{size_json, boolean, number, text, object, fields}
use cloud_storage.App.Platform.{Platform, Row}
use cloud_storage.App.Effects.{
  M, ◌>>=◌, ◌>>◌, pure, raise, get, concat, column, int_column, text_column, text_column_or_empty,
  int_column_or_zero, size_column_or_zero, execute_query_with_result, escape_string, reply_json,
  send_error, header, status, body, shut_down_when_written,
}
use cloud_storage.App.Sessions.{validate_session}
use cloud_storage.App.Access.{Visit, get_path_param, session_user, is_empty, is_shared, refuse}
use cloud_storage.App.Pages.{handle_index}
use cloud_storage.App.Shares.{find_share_code, is_code_text, share_columns}

module _ {W D : Type 0} (lib : Platform W D) where
  -- `row[13] && std::stoi(row[13]) == userId`.
  unfoldable pub owner_test : Row → ℤ → M W Bool
  owner_test row user_id = elim (column row 13) [
    | none ↦ pure false
    | some t ↦ elim (stoi t) [ some n ↦ pure (int_eq n user_id) | none ↦ raise (codes "stoi") ]
  ]

  abbrev text_or_unknown : Row → ℕ → Bytes
  text_or_unknown row i = elim (column row i) [ none ↦ codes "unknown" | some t ↦ t ]

  -- The response that describes the share.
  unfoldable pub describe_share : Bytes → Bytes → Bool → Row → M W Bool
  describe_share share_code share_type is_owner row = do
    id ← int_column row 0
    file_id ← int_column row 1
    owner_id ← int_column row 2
    shared_with_id ← int_column_or_zero row 3
    size ← size_column_or_zero row 10
    status StatusCode.ok_200 (codes "OK")
    header (codes "Content-Type") (codes "application/json")
    body (
        lib.dump (
          object (
            fields (
              (codes "code", number (pos 0))
              ∷ (codes "message", text (codes "success"))
              ∷ (
                codes "file",
                object (
                    fields (
                      (codes "id", number id)
                      ∷ (codes "fileId", number file_id)
                      ∷ (codes "ownerId", number owner_id)
                      ∷ (codes "sharedWithId", number shared_with_id)
                      ∷ (codes "shareType", text share_type)
                      ∷ (codes "shareCode", text share_code)
                      ∷ (codes "createdAt", text (text_column_or_empty row 6))
                      ∷ (codes "expireTime", text (text_column_or_empty row 7))
                      ∷ (codes "filename", text (text_column_or_empty row 8))
                      ∷ (codes "originalName", text (text_column_or_empty row 9))
                      ∷ (codes "size", size_json size)
                      ∷ (codes "type", text (text_or_unknown row 11))
                      ∷ (codes "ownerUsername", text (text_column_or_empty row 12))
                      ∷ (codes "isOwner", boolean is_owner)
                      ∷ [])),
              )
              ∷ (
                codes "downloadUrl",
                text (
                    concat (
                      codes "/share/download/"
                      ∷ text_column_or_empty row 8
                      ∷ codes "?code="
                      ∷ share_code
                      ∷ [])),
              )
              ∷ []))))
    header (codes "Connection") (codes "close")
    shut_down_when_written
    pure true

  unfoldable pub share_access_row : Option (ℤ × Bytes) → Bytes → Bytes → Row → M W Bool
  share_access_row session share_code extract_code row = do
    share_type ← text_column row 4
    is_owner ← owner_test row (session_user session)
    shared_with_id ← int_column_or_zero row 3
    let v : Visit = record {
      session = session;
      share_code = share_code;
      extract_code = extract_code;
      file_owner_id = pos 0;
      share_type = share_type;
      shared_with_id = shared_with_id;
      db_extract_code = text_column_or_empty row 5;
    }
    if is_owner || is_shared v
        then describe_share share_code share_type is_owner row
        else refuse lib v

  -- The answer to a request for JSON.
  unfoldable pub share_access_json : Option (ℤ × Bytes) → Bytes → M W Bool
  share_access_json session share_code =
      if is_empty share_code || not (length share_code == 32)
      then send_error lib (utf8 "无效的分享码格式") StatusCode.bad_request_400
      else if not (is_code_text share_code)
      then send_error lib (utf8 "分享码包含非法字符") StatusCode.bad_request_400
      else (do
        s ← get
        let extract_code = get_query lib.scanner s.request (codes "code") []
        code ← escape_string lib share_code
        extract ← escape_string lib extract_code
        result ← execute_query_with_result lib (
            concat (
              share_columns
              ∷ codes "WHERE fs.share_code = '"
              ∷ code
              ∷ codes "' AND (fs.expire_time IS NULL OR fs.expire_time > NOW()) "
              ∷ codes "AND (fs.share_type != 'protected' OR (fs.share_type = 'protected' "
              ∷ codes "AND fs.extract_code = '"
              ∷ extract
              ∷ codes "'))"
              ∷ []))
        elim result [
          | some (row ∷ _) ↦ share_access_row session share_code extract_code row
          | _ ↦ send_error lib (utf8 "分享链接已失效或不存在") StatusCode.not_found_404
        ])

  unfoldable pub handle_share_access : M W Bool
  unfolding bytes_eq
  handle_share_access = do
    s ← get
    elim (find_share_code s.request.path) [
      | none ↦ send_error lib (utf8 "无效的分享链接") StatusCode.bad_request_400
      | some share_code ↦ do
        session ← validate_session lib (get_header s.request (codes "X-Session-ID"))
        let wants_json =
            bytes_eq (get_header s.request (codes "X-Requested-With")) (codes "XMLHttpRequest")
            || is_some
                (find_text (codes "application/json") (get_header s.request (codes "Accept")))
        if wants_json then share_access_json session share_code else (do
          result ← handle_index lib
          header (codes "X-Share-Code") share_code
          pure result)
    ]

  unfoldable pub share_info_row : Bytes → Row → M W Bool
  unfolding bytes_eq
  share_info_row extract_code row = do
    share_type ← text_column row 4
    size ← size_column_or_zero row 11
    if bytes_eq share_type (codes "protected")
          && (is_empty extract_code || not (bytes_eq extract_code (text_column_or_empty row 8)))
        then send_error lib (utf8 "需要正确的提取码") StatusCode.forbidden_403
        else (do
          id ← int_column row 0
          reply_json lib StatusCode.ok_200 (codes "OK") (
              object (
                fields (
                  (codes "code", number (pos 0))
                  ∷ (codes "message", text (codes "success"))
                  ∷ (codes "shareType", text share_type)
                  ∷ (
                    codes "file",
                    object (
                        fields (
                          (codes "id", number id)
                          ∷ (codes "name", text (text_column_or_empty row 9))
                          ∷ (codes "originalName", text (text_column_or_empty row 10))
                          ∷ (codes "size", size_json size)
                          ∷ (codes "type", text (text_or_unknown row 11))
                          ∷ (codes "shareTime", text (text_column_or_empty row 7))
                          ∷ (codes "expireTime", text (text_column_or_empty row 6))
                          ∷ [])),
                  )
                  ∷ []))))

  unfoldable pub handle_share_info : M W Bool
  handle_share_info = do
    s ← get
    let share_code = get_path_param s.request (codes "code")
    let extract_code = get_query lib.scanner s.request (codes "extract_code") []
    if is_empty share_code
        then send_error lib (codes "Missing share code") StatusCode.bad_request_400
        else (do
          code ← escape_string lib share_code
          result ← execute_query_with_result lib (
              concat (
                share_columns
                ∷ codes "WHERE fs.share_code = '"
                ∷ code
                ∷ codes "' AND (fs.expire_time IS NULL OR fs.expire_time > NOW())"
                ∷ []))
          elim result [
            | some (row ∷ _) ↦ share_info_row extract_code row
            | _ ↦ send_error lib (utf8 "分享链接已失效或不存在") StatusCode.not_found_404
          ])
