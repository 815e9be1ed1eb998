-- ===== src/App/Pages.antt =====
-- The pages: `handleIndex` and `handleFavicon`.
use cloud_storage.Common.{
  Bool, true, ◌||◌, [], ◌++◌, none, some, Bytes, codes, bytes_eq, if◌then◌else◌,
}
use cloud_storage.Http.Response.{StatusCode}
use cloud_storage.App.Text.{after_prefix, is_some}
use cloud_storage.App.Platform.{Platform}
use cloud_storage.App.Effects.{
  M, ◌>>=◌, ◌>>◌, pure, get, header, status, body, shut_down_when_written, send_error,
}

-- The page of a path, behind the directory of the project.
unfoldable pub page_name : Bytes → Bytes
unfolding bytes_eq after_prefix
page_name path =
    if bytes_eq path (codes "/register.html")
    then codes "/register.html"
    else if bytes_eq path (codes "/share.html") || is_some (after_prefix (codes "/share/") path)
    then codes "/share.html"
    else codes "/index.html"

module _ {W D : Type 0} (lib : Platform W D) where
  unfoldable pub handle_index : M W Bool
  handle_index = do
    status StatusCode.ok_200 (codes "OK")
    header (codes "Content-Type") (codes "text/html; charset=utf-8")
    s ← get
    let file_path = lib.project_root ++ page_name s.request.path
    elim (lib.read_file file_path s.world) [
      | none ↦
          send_error lib (codes "Failed to open " ++ file_path) StatusCode.internal_server_error_500
      | some html ↦ do
        header (codes "Connection") (codes "close")
        body html
        shut_down_when_written
        pure true
    ]

  unfoldable pub handle_favicon : M W Bool
  handle_favicon = do
    s ← get
    elim (lib.read_file (lib.project_root ++ codes "/favicon.ico") s.world) [
      | none ↦ do
        status StatusCode.not_found_404 (codes "Not Found")
        header (codes "Content-Type") (codes "image/x-icon")
        header (codes "Connection") (codes "close")
        body []
        shut_down_when_written
        pure true
      | some icon ↦ do
        status StatusCode.ok_200 (codes "OK")
        header (codes "Content-Type") (codes "image/x-icon")
        header (codes "Connection") (codes "close")
        body icon
        shut_down_when_written
        pure true
    ]
