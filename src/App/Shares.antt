-- ===== src/App/Shares.antt =====
-- Shares of a file, and `handleShareFile`.
pub mod Visits
pub mod Columns
use cloud_storage.Common.{
  ℕ, zero, suc, Bool, true, false, not, ◌&&◌, ◌||◌, List, [], ◌∷◌, ◌++◌, Option, none, some, Bytes,
  codes, length, take, drop, ◌-◌, leb, bytes_eq, ◌==◌, if◌then◌else◌,
}
use cloud_storage.Http.Request.{get_header}
use cloud_storage.Http.Query.{get_query}
use cloud_storage.Http.Response.{StatusCode}
use cloud_storage.App.Text.{
  ℤ, pos, utf8, int_eq, int_text, is_positive, stoi, stoull, to_int, find_text, is_some,
  after_prefix,
}
use cloud_storage.App.Json.{
  Json, size_json, Fields, boolean, number, text, object, fields, add_field,
}
use cloud_storage.App.Platform.{Platform, Row}
use cloud_storage.App.Effects.{
  Exchange, M, ◌>>=◌, ◌>>◌, pure, lift, raise, try, get, concat, column, int_column, text_column,
  text_column_or_empty, int_column_or_zero, size_column_or_zero, execute_query,
  execute_query_with_result, escape_string, reply_json, send_error, header, status, body,
  shut_down_when_written,
}
use cloud_storage.App.Sessions.{letters, random_text, with_session, validate_session}
use cloud_storage.App.Access.{
  Visit, get_path_param, session_user, is_empty, is_user, is_shared, refuse,
}
use cloud_storage.App.Pages.{handle_index}

abbrev capitals : Bytes
capitals = codes "0123456789ABCDEFGHIJKLMNOPQRSTUVWXYZ"

abbrev has_rows : Option (List Row) → Bool
has_rows (some (row ∷ rows)) = true
has_rows _ = false

-- The texts `sharedWithId` and `extractCode`, as they stand in the SQL.
pub record Target : Type 0 where
  pub shared_with : Bytes
  pub extract_code : Bytes

-- The first group of "/share/([^/]+)", where it first matches.
abbrev to_slash : Bytes → Bytes
to_slash [] = []
to_slash (c ∷ cs) = let rest = to_slash cs in if c == b'/' then [] else c ∷ rest

unfoldable pub find_share_code : Bytes → Option Bytes
unfolding after_prefix
find_share_code [] = none
find_share_code (c ∷ cs) =
    let later = find_share_code cs in
    elim (after_prefix (codes "/share/") (c ∷ cs)) [
      | none ↦ later
      | some s ↦ if is_empty (to_slash s) then later else some (to_slash s)
    ]

unfoldable pub is_code_text : Bytes → Bool
is_code_text [] = true
is_code_text (c ∷ cs) = (leb b'a' c && leb c b'z' || leb b'0' c && leb c b'9') && is_code_text cs

abbrev pub share_columns : Bytes
share_columns =
    codes "SELECT fs.*, f.filename, f.original_filename, f.file_size, f.file_type, "
    ++ (codes "u.username as owner_username, f.user_id FROM file_shares fs "
        ++ codes "JOIN files f ON fs.file_id = f.id JOIN users u ON f.user_id = u.id ")

module _ {W D : Type 0} (lib : Platform W D) where
  unfoldable pub generate_share_code : M W Bytes
  generate_share_code = random_text lib letters 32

  unfoldable pub generate_extract_code : M W Bytes
  generate_extract_code = random_text lib capitals 6

  -- `expireStr`.
  unfoldable pub expire_text : D → M W Bytes
  expire_text request =
      if lib.contains request (codes "expireTime")
        && not (lib.is_null_at request (codes "expireTime"))
      then (do
        hours ← lift (lib.int_at request (codes "expireTime"))
        pure (
            if is_positive hours
            then concat (codes "DATE_ADD(NOW(), INTERVAL " ∷ int_text hours ∷ codes " HOUR)" ∷ [])
            else codes "NULL"))
      else pure (codes "NULL")

  abbrev no_target : Target
  no_target = record { shared_with = codes "NULL"; extract_code = codes "NULL" }

  -- None where the file is shared with that user already.
  unfoldable pub share_target : D → ℤ → Bytes → M W (Option Target)
  unfolding bytes_eq
  share_target request file_id share_type =
      if bytes_eq share_type (codes "user") && lib.contains request (codes "sharedWithId")
      then (do
        id ← lift (lib.int_at request (codes "sharedWithId"))
        let shared_with = int_text id
        result ← execute_query_with_result lib (
            concat (
              codes "SELECT 1 FROM file_shares WHERE file_id = "
              ∷ int_text file_id
              ∷ codes " AND shared_with_id = "
              ∷ shared_with
              ∷ codes " AND share_type = 'user'"
              ∷ []))
        pure (
            if has_rows result
            then none
            else some (record { shared_with = shared_with; extract_code = codes "NULL" })))
      else if bytes_eq share_type (codes "protected")
      then (do
        code ← generate_extract_code
        pure (
            some (record {
              shared_with = codes "NULL";
              extract_code = concat (codes "'" ∷ code ∷ codes "'" ∷ []);
            })))
      else pure (some no_target)

  -- What the answer says of the share, by its type.
  unfoldable pub shared_fields : Bytes → Target → Fields → M W Fields
  unfolding bytes_eq
  shared_fields share_type target base =
      if bytes_eq share_type (codes "user")
      then elim (stoi target.shared_with) [
        | some id ↦ pure (add_field (codes "sharedWithId") (number id) base)
        | none ↦ raise (codes "stoi")
      ]
      else if bytes_eq share_type (codes "protected")
      then pure (
          add_field (codes "extractCode")
            (text (take (length target.extract_code - 2) (drop 1 target.extract_code))) base)
      else pure base

  unfoldable pub create_share : D → ℤ → ℤ → Bytes → M W Bool
  create_share request user_id file_id share_type = do
    expire ← expire_text request
    share_code ← generate_share_code
    target ← share_target request file_id share_type
    elim target [
      | none ↦ send_error lib (utf8 "已经分享给该用户") StatusCode.bad_request_400
      | some t ↦ do
        type_text ← escape_string lib share_type
        code_text ← escape_string lib share_code
        inserted ← execute_query lib (
            concat (
              codes "INSERT INTO file_shares (file_id, owner_id, shared_with_id, "
              ∷ codes "share_type, share_code, extract_code, expire_time) VALUES ("
              ∷ int_text file_id
              ∷ codes ", "
              ∷ int_text user_id
              ∷ codes ", "
              ∷ t.shared_with
              ∷ codes ", '"
              ∷ type_text
              ∷ codes "', '"
              ∷ code_text
              ∷ codes "', "
              ∷ t.extract_code
              ∷ codes ", "
              ∷ expire
              ∷ codes ")"
              ∷ []))
        s ← get
        if not inserted
            then send_error lib (utf8 "创建分享失败") StatusCode.internal_server_error_500
            else (do
              response ← shared_fields share_type t (
                  fields (
                    (codes "code", number (pos 0))
                    ∷ (codes "message", text (utf8 "分享成功"))
                    ∷ (codes "shareId", number (to_int (lib.insert_id s.world)))
                    ∷ (codes "shareType", text share_type)
                    ∷ (codes "shareCode", text share_code)
                    ∷ (codes "shareLink", text (codes "/share/" ++ share_code))
                    ∷ []))
              reply_json lib StatusCode.ok_200 (codes "OK") (object response))
    ]

  unfoldable pub remove_shares : ℤ → M W Bool
  remove_shares file_id = do
    _ ← execute_query lib (codes "DELETE FROM file_shares WHERE file_id = " ++ int_text file_id)
    reply_json lib StatusCode.ok_200 (codes "OK") (
        object (
          fields
            ((codes "code", number (pos 0)) ∷ (codes "message", text (utf8 "文件设置为私有成功")) ∷ [])))

  unfoldable pub handle_share_file : M W Bool
  unfolding bytes_eq
  handle_share_file = with_session lib λ user_id username.
      try
        (do
          s ← get
          request ← lift (lib.parse s.request.body)
          file_id ← lift (lib.int_at request (codes "fileId"))
          share_type ← lift (lib.text_at request (codes "shareType"))
          result ← execute_query_with_result lib (
              concat (
                codes "SELECT 1 FROM files WHERE id = "
                ∷ int_text file_id
                ∷ codes " AND user_id = "
                ∷ int_text user_id
                ∷ []))
          if not (has_rows result)
              then send_error lib (utf8 "您没有权限分享此文件") StatusCode.forbidden_403
              else if bytes_eq share_type (codes "private")
              then remove_shares file_id
              else create_share request user_id file_id share_type)
        (λ what. send_error lib (utf8 "分享失败: " ++ what) StatusCode.internal_server_error_500)
