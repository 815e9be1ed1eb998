-- ===== src/App/Files.antt =====
-- The list of the files: `handleListFiles`.
pub mod Removal
use cloud_storage.Common.{
  Bool, true, false, not, List, [], ◌∷◌, ◌++◌, Option, none, some, Bytes, codes, bytes_eq,
  if◌then◌else◌,
}
use cloud_storage.Http.Query.{get_query}
use cloud_storage.Http.Response.{StatusCode}
use cloud_storage.App.Text.{ℤ, pos, utf8, int_eq, int_text, stoi}
use cloud_storage.App.Json.{
  size_json, Items, Fields, boolean, number, text, array, object, fields, nil, cons, add_field,
}
use cloud_storage.App.Platform.{Platform, Row}
use cloud_storage.App.Effects.{
  M, ◌>>=◌, ◌>>◌, pure, raise, get, on_world, concat, column, int_column, text_column, size_column,
  text_column_or_empty, execute_query, execute_query_with_result, escape_string, reply_json,
  send_error,
}
use cloud_storage.App.Sessions.{with_session}
use cloud_storage.App.Upload.{upload_dir}
use cloud_storage.App.Names.{erase_filename_mapping}
use cloud_storage.App.Access.{get_path_param, is_empty}

abbrev listed_columns : Bytes
listed_columns =
    codes "SELECT f.id, f.filename, f.original_filename, f.file_size, f.file_type, f.created_at, "

-- The query for a type of list; for another type there is none.
unfoldable pub list_query : Bytes → ℤ → Bytes
unfolding bytes_eq
list_query list_type user_id =
    let id = int_text user_id in
    if bytes_eq list_type (codes "my")
    then concat (listed_columns ∷ codes "1 as is_owner FROM files f WHERE f.user_id = " ∷ id ∷ [])
    else if bytes_eq list_type (codes "shared")
    then concat (
        listed_columns
        ∷ codes "0 as is_owner FROM files f JOIN file_shares fs ON f.id = fs.file_id "
        ∷ codes "WHERE (fs.shared_with_id = "
        ∷ id
        ∷ codes " OR fs.share_type = 'public') AND f.user_id != "
        ∷ id
        ∷ [])
    else if bytes_eq list_type (codes "all")
    then concat (
        listed_columns
        ∷ codes "CASE WHEN f.user_id = "
        ∷ id
        ∷ codes " THEN 1 ELSE 0 END as is_owner FROM files f "
        ∷ codes "LEFT JOIN file_shares fs ON f.id = fs.file_id WHERE f.user_id = "
        ∷ id
        ∷ codes " OR fs.shared_with_id = "
        ∷ id
        ∷ codes " OR fs.share_type = 'public'"
        ∷ [])
    else []

module _ {W D : Type 0} (lib : Platform W D) where
  -- The user that a share is for.
  unfoldable pub shared_user_fields : Bytes → Option Bytes → Fields → M W Fields
  unfolding bytes_eq
  shared_user_fields share_type none info = pure info
  shared_user_fields share_type (some id_text) info =
      if bytes_eq share_type (codes "user")
      then elim (stoi id_text) [
        | none ↦ raise (codes "stoi")
        | some shared_with_id ↦ do
          result ←
              execute_query_with_result lib
                (codes "SELECT username FROM users WHERE id = " ++ int_text shared_with_id)
          elim result [
            | some (row ∷ _) ↦ do
              username ← text_column row 0
              pure (
                  add_field (codes "sharedWithId") (number shared_with_id)
                    (add_field (codes "sharedWithUsername") (text username) info))
            | _ ↦ pure info
          ]
      ]
      else pure info

  -- `shareInfo` from the first row of a file's shares.
  unfoldable pub share_fields : Row → M W Fields
  unfolding bytes_eq
  share_fields row = do
    share_type ← text_column row 0
    let base = fields (
        (codes "type", text share_type)
        ∷ (codes "shareCode", text (text_column_or_empty row 2))
        ∷ [])
    let coded = elim (column row 4) as (λ _. Fields) [
      | some code ↦
          if bytes_eq share_type (codes "protected")
          then add_field (codes "extractCode") (text code) base
          else base
      | none ↦ base
    ]
    shared ← shared_user_fields share_type (column row 1) coded
    pure (elim (column row 3) [
      | some time ↦ add_field (codes "expireTime") (text time) shared
      | none ↦ shared
    ])

  unfoldable pub share_info : Bool → ℤ → M W (Option Fields)
  share_info false file_id = pure none
  share_info true file_id = do
    result ← execute_query_with_result lib (
        concat (
          codes "SELECT share_type, shared_with_id, share_code, expire_time, extract_code "
          ∷ codes "FROM file_shares WHERE file_id = "
          ∷ int_text file_id
          ∷ []))
    elim result [ some (row ∷ _) ↦ share_fields row >>= λ fs. pure (some fs) | _ ↦ pure none ]

  -- The loop over the rows.
  unfoldable pub file_items : List Row → M W Items
  file_items [] = pure nil
  file_items (row ∷ rows) = do
    file_id ← int_column row 0
    filename ← text_column row 1
    original_filename ← text_column row 2
    size ← size_column row 3
    file_type ← text_column row 4
    created_at ← text_column row 5
    flag ← int_column row 6
    let is_owner = int_eq flag (pos 1)
    info ← share_info is_owner file_id
    let base = fields (
        (codes "id", number file_id)
        ∷ (codes "name", text filename)
        ∷ (codes "originalName", text original_filename)
        ∷ (codes "size", size_json size)
        ∷ (codes "type", text file_type)
        ∷ (codes "createdAt", text created_at)
        ∷ (codes "isOwner", boolean is_owner)
        ∷ [])
    more ← file_items rows
    pure (
        cons
          (object
            (elim info [ some fs ↦ add_field (codes "shareInfo") (object fs) base | none ↦ base ]))
          more)

  unfoldable pub handle_list_files : M W Bool
  handle_list_files = with_session lib λ user_id username. do
    s ← get
    let list_type = get_query lib.scanner s.request (codes "type") (codes "my")
    result ← execute_query_with_result lib (list_query list_type user_id)
    let base =
        fields ((codes "code", number (pos 0)) ∷ (codes "message", text (codes "Success")) ∷ [])
    response ← elim result [
      | none ↦ pure base
      | some rows ↦ file_items rows >>= λ files. pure (add_field (codes "files") (array files) base)
    ]
    reply_json lib StatusCode.ok_200 (codes "OK") (object response)
