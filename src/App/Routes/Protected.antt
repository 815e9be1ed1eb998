-- ===== src/App/Routes/Protected.antt =====
-- The handlers that want a session.
use cloud_storage.Common.{Bool, true, Bytes, codes, Option, none, some, ◌≡◌, refl}
use cloud_storage.Http.Request.{get_header}
use cloud_storage.Http.Response.{StatusCode, add_header}
use cloud_storage.App.Text.{ℤ}
use cloud_storage.App.Platform.{Platform, Res, returns}
use cloud_storage.App.Effects.{Exchange, M, shuts_down, send_error, reply_json}
use cloud_storage.App.Sessions.{validate_session, with_session, not_logged_in}
use cloud_storage.App.Sessions.Accounts.{handle_search_users}
use cloud_storage.App.Upload.Requests.{handle_file_upload}
use cloud_storage.App.Files.{handle_list_files}
use cloud_storage.App.Files.Removal.{handle_delete}
use cloud_storage.App.Shares.{handle_share_file}
use cloud_storage.App.Routes.{
  RequestHandler, run_handler, file_upload, list_files, delete, share_file, search_users,
}

pub data IsProtected : RequestHandler → Type 0 where
  upload_files : IsProtected file_upload
  lists_files : IsProtected list_files
  deletes : IsProtected delete
  shares : IsProtected share_file
  searches : IsProtected search_users

-- The answer is 401 with `shutdown` behind it; the world, the request and the object that the
-- connection holds are as in `s`.
pub record IsDenied {W : Type 0} (s : Exchange W) (out : Res Bool × Exchange W) : Type 0 where
  pub returns_true : out.0 ≡ returns true
  pub unauthorized : out.1.response.status_code ≡ StatusCode.unauthorized_401
  pub same_world : out.1.world ≡ s.world
  pub same_request : out.1.request ≡ s.request
  pub same_custom : out.1.custom ≡ s.custom
  pub shuts_the_connection : out.1.on_write_complete ≡ some shuts_down

module _ {W D : Type 0} (lib : Platform W D) where
  -- What the check of the session comes to for a request.
  abbrev pub session_check : Exchange W → Res (Option (ℤ × Bytes)) × Exchange W
  session_check s = validate_session lib (get_header s.request (codes "X-Session-ID")) s

  unauthorized-IsDenied :
      (s : Exchange W) → IsDenied s (send_error lib not_logged_in StatusCode.unauthorized_401 s)
  unfolding send_error reply_json add_header
  unauthorized-IsDenied s = record {
    returns_true = refl;
    unauthorized = refl;
    same_world = refl;
    same_request = refl;
    same_custom = refl;
    shuts_the_connection = refl;
  }

  with_session-IsDenied :
      (handler : ℤ → Bytes → M W Bool) (s s1 : Exchange W)
      → session_check s ≡ (returns none, s1)
      → IsDenied s1 (with_session lib handler s)
  unfolding with_session
  with_session-IsDenied handler s s1 e = rw (e, with_session) (unauthorized-IsDenied s1)

  -- The upload, the list of files, the removal, the sharing and the search for users all answer
  -- 401 when the check of the session finds no user, and do nothing else: behind the check the
  -- world, with the database and the files in it, and the object of the connection stay as they
  -- are.
  pub run_handler-IsDenied :
      (handler : RequestHandler) (s s1 : Exchange W)
      → IsProtected handler
      → session_check s ≡ (returns none, s1)
      → IsDenied s1 (run_handler lib handler s)
  unfolding run_handler handle_file_upload handle_list_files handle_delete handle_share_file
      handle_search_users
  run_handler-IsDenied handler s s1 upload_files e = with_session-IsDenied _ s s1 e
  run_handler-IsDenied handler s s1 lists_files e = with_session-IsDenied _ s s1 e
  run_handler-IsDenied handler s s1 deletes e = with_session-IsDenied _ s s1 e
  run_handler-IsDenied handler s s1 shares e = with_session-IsDenied _ s s1 e
  run_handler-IsDenied handler s s1 searches e = with_session-IsDenied _ s s1 e
