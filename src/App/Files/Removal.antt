-- ===== src/App/Files/Removal.antt =====
-- `handleDelete`.
use cloud_storage.Common.{Bool, not, [], ◌∷◌, ◌++◌, some, Bytes, codes, if◌then◌else◌}
use cloud_storage.Http.Response.{StatusCode}
use cloud_storage.App.Text.{pos, utf8, int_text}
use cloud_storage.App.Json.{number, text, object, fields}
use cloud_storage.App.Platform.{Platform, Row}
use cloud_storage.App.Effects.{
  M, ◌>>=◌, ◌>>◌, pure, get, on_world, concat, int_column, execute_query, execute_query_with_result,
  escape_string, reply_json, send_error,
}
use cloud_storage.App.Sessions.{with_session}
use cloud_storage.App.Upload.{upload_dir}
use cloud_storage.App.Names.{erase_filename_mapping}
use cloud_storage.App.Access.{get_path_param, is_empty}

module _ {W D : Type 0} (lib : Platform W D) where
  -- The file itself goes, when it is there; that it cannot is only logged.
  unfoldable pub remove_file : Bytes → M W (Unit {0})
  remove_file filepath = do
    s ← get
    if lib.exists filepath s.world
        then (on_world (lib.unlink filepath) >>= λ _. pure tt)
        else pure tt

  unfoldable pub delete_row : Bytes → Row → M W Bool
  delete_row filename row = do
    file_id ← int_column row 0
    _ ← execute_query lib (codes "DELETE FROM file_shares WHERE file_id = " ++ int_text file_id)
    deleted ← execute_query lib (codes "DELETE FROM files WHERE id = " ++ int_text file_id)
    if not deleted
        then send_error lib (utf8 "删除文件记录失败") StatusCode.internal_server_error_500
        else (do
          remove_file (concat (upload_dir ∷ codes "/" ∷ filename ∷ []))
          erase_filename_mapping lib filename
          reply_json lib StatusCode.ok_200 (codes "OK") (
              object (
                fields (
                  (codes "code", number (pos 0))
                  ∷ (codes "message", text (codes "success"))
                  ∷ []))))

  unfoldable pub handle_delete : M W Bool
  handle_delete = with_session lib λ user_id username. do
    s ← get
    let filename = get_path_param s.request (codes "filename")
    if is_empty filename
        then send_error lib (codes "Missing filename") StatusCode.bad_request_400
        else (do
          name ← escape_string lib filename
          result ← execute_query_with_result lib (
              concat (
                codes "SELECT id FROM files WHERE filename = '"
                ∷ name
                ∷ codes "' AND user_id = "
                ∷ int_text user_id
                ∷ []))
          elim result [
            | some (row ∷ _) ↦ delete_row filename row
            | _ ↦ send_error lib (utf8 "文件不存在或您没有权限删除此文件") StatusCode.forbidden_403
          ])
