-- ===== src/App/Access.antt =====
-- Who may read a file: the checks of `handleDownload` and `handleShareDownload`.
pub mod Downloads
pub mod Permission
pub mod Refusal
use cloud_storage.Common.{
  Bool, true, false, not, ◌&&◌, ◌||◌, List, [], ◌∷◌, ◌++◌, Option, none, some, Bytes, codes, length,
  bytes_eq, ◌==◌, if◌then◌else◌,
}
use cloud_storage.Http.Headers
use cloud_storage.Http.Request.{HttpRequest, get_header}
use cloud_storage.Http.Query.{get_query}
use cloud_storage.Http.Response.{StatusCode}
use cloud_storage.App.Text.{ℤ, pos, utf8, int_eq, is_some}
use cloud_storage.App.Platform.{Platform, Row}
use cloud_storage.App.Effects.{
  Exchange, M, ◌>>=◌, ◌>>◌, pure, get, concat, int_column, text_column, text_column_or_empty,
  int_column_or_zero, execute_query_with_result, escape_string, send_error,
}
use cloud_storage.App.Sessions.{validate_session}
use cloud_storage.App.Transfer.{serve_file}

-- HttpRequest::getPathParam.
unfoldable pub get_path_param : HttpRequest → Bytes → Bytes
unfolding Headers.find
get_path_param r name = elim (Headers.find name r.path_params) [ some v ↦ v | none ↦ [] ]

-- A session that is valid, as far as `validateSession` tells: the user, else 0.
abbrev pub session_user : Option (ℤ × Bytes) → ℤ
session_user none = pos 0
session_user (some (user_id, username)) = user_id

-- What the checks look at: the user's session, the share code and the extract code of the request,
-- and the columns of the row.
pub record Visit : Type 0 where
  pub session : Option (ℤ × Bytes)
  pub share_code : Bytes
  pub extract_code : Bytes
  pub file_owner_id : ℤ
  pub share_type : Bytes
  pub shared_with_id : ℤ
  pub db_extract_code : Bytes

abbrev pub is_empty : Bytes → Bool
is_empty s = length s == 0

abbrev pub is_user : Visit → ℤ → Bool
is_user v id = is_some v.session && int_eq (session_user v.session) id

-- The branches on the type of the share.
unfoldable pub is_shared : Visit → Bool
unfolding bytes_eq
is_shared v =
    if bytes_eq v.share_type (codes "public")
    then true
    else if bytes_eq v.share_type (codes "protected")
    then not (is_empty v.extract_code) && bytes_eq v.extract_code v.db_extract_code
    else if bytes_eq v.share_type (codes "user")
    then is_user v v.shared_with_id
    else false

-- `hasPermission` of `handleDownload`.
unfoldable pub has_permission : Visit → Bool
has_permission v =
    if is_user v v.file_owner_id
    then true
    else if not (is_empty v.share_code)
    then is_shared v
    else if is_some v.session
    then int_eq (session_user v.session) v.file_owner_id
    else false

-- `hasPermission` of `handleShareDownload`.
unfoldable pub has_share_permission : Visit → Bool
has_share_permission v = if is_user v v.file_owner_id then true else is_shared v

-- The visit of a request to the row that its query found.
abbrev pub visit : Option (ℤ × Bytes) → Bytes → Bytes → Row → ℤ → ℤ → Visit
visit session share_code extract_code row file_owner_id shared_with_id = record {
  session = session;
  share_code = share_code;
  extract_code = extract_code;
  file_owner_id = file_owner_id;
  share_type = text_column_or_empty row 4;
  shared_with_id = shared_with_id;
  db_extract_code = text_column_or_empty row 6;
}

unfoldable pub refusal : Visit → Bytes
unfolding bytes_eq
refusal v =
    if bytes_eq v.share_type (codes "protected")
      && (is_empty v.extract_code || not (bytes_eq v.extract_code v.db_extract_code))
    then utf8 "需要正确的提取码"
    else utf8 "您没有权限访问此文件"

module _ {W D : Type 0} (lib : Platform W D) where
  -- The 403 of both handlers, with one of two messages.
  unfoldable pub refuse : Visit → M W Bool
  refuse v = send_error lib (refusal v) StatusCode.forbidden_403
