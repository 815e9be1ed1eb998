-- ===== src/App/Routes.antt =====
-- The table of the routes, `onRequest` and `onConnection`, and the handler's start and end.
pub mod Dispatch
pub mod Protected
use cloud_storage.Common.{
  Bool, true, false, not, List, [], ◌∷◌, ◌++◌, Option, none, some, Bytes, codes, if◌then◌else◌,
}
use cloud_storage.Http.Request.{HttpRequest, Method}
use cloud_storage.Http.Response.{StatusCode}
use cloud_storage.Http.Context.{new_context}
use cloud_storage.App.Platform.{Platform}
use cloud_storage.App.Effects.{
  Exchange, M, ◌>>=◌, ◌>>◌, pure, try, get, modify, on_world, send_error, handle_not_found,
}
use cloud_storage.App.Sessions.Accounts.{
  handle_register, handle_login, handle_logout, handle_search_users,
}
use cloud_storage.App.Upload.{upload_dir}
use cloud_storage.App.Upload.Requests.{handle_file_upload}
use cloud_storage.App.Names.{load_mapping, save_mapping}
use cloud_storage.App.Access.Downloads.{handle_download, handle_share_download}
use cloud_storage.App.Files.{handle_list_files}
use cloud_storage.App.Files.Removal.{handle_delete}
use cloud_storage.App.Pages.{handle_index, handle_favicon}
use cloud_storage.App.Shares.{handle_share_file}
use cloud_storage.App.Shares.Visits.{handle_share_access, handle_share_info}
use cloud_storage.App.Pattern.{escape_regex, regex_match}

-- The member functions that a route may name.
pub data RequestHandler : Type 0 where
  favicon register login index share_access share_download share_info file_upload list_files
        download delete share_file search_users logout :
      RequestHandler

pub record RoutePattern : Type 0 where
  pub pattern : Bytes
  pub params : List Bytes
  pub handler : RequestHandler
  pub method : Method

-- `addRoute`, without parameters and with them.
unfoldable pub exact_route : Bytes → Method → RequestHandler → RoutePattern
unfolding escape_regex
exact_route path method handler = record {
  pattern = codes "^" ++ (escape_regex path ++ codes "$");
  params = [];
  handler = handler;
  method = method;
}

unfoldable pub param_route : Bytes → Method → RequestHandler → List Bytes → RoutePattern
param_route pattern method handler params = record {
  pattern = pattern;
  params = params;
  handler = handler;
  method = method;
}

-- `initRoutes`.
unfoldable pub init_routes : List RoutePattern
unfolding exact_route param_route
init_routes =
    exact_route (codes "/favicon.ico") Method.get favicon
    ∷ exact_route (codes "/register") Method.post register
    ∷ exact_route (codes "/login") Method.post login
    ∷ exact_route (codes "/") Method.get index
    ∷ exact_route (codes "/index.html") Method.get index
    ∷ exact_route (codes "/register.html") Method.get index
    ∷ param_route (codes "/share/([^/]+)") Method.get share_access (codes "code" ∷ [])
    ∷ param_route (codes "/share/download/([^/]+)") Method.get share_download
        (codes "filename" ∷ [])
    ∷ param_route (codes "/share/info/([^/]+)") Method.get share_info (codes "code" ∷ [])
    ∷ exact_route (codes "/upload") Method.post file_upload
    ∷ exact_route (codes "/files") Method.get list_files
    ∷ param_route (codes "/download/([^/]+)") Method.head download (codes "filename" ∷ [])
    ∷ param_route (codes "/download/([^/]+)") Method.get download (codes "filename" ∷ [])
    ∷ param_route (codes "/delete/([^/]+)") Method.delete delete (codes "filename" ∷ [])
    ∷ exact_route (codes "/share") Method.post share_file
    ∷ exact_route (codes "/users/search") Method.get search_users
    ∷ exact_route (codes "/logout") Method.post logout
    ∷ []

unfoldable pub same_method : Method → Method → Bool
same_method Method.get Method.get = true
same_method Method.post Method.post = true
same_method Method.head Method.head = true
same_method Method.put Method.put = true
same_method Method.delete Method.delete = true
same_method Method.invalid Method.invalid = true
same_method _ _ = false

-- The loop that pairs the names of the parameters with the groups.
abbrev pub path_params : List Bytes → List Bytes → List (Bytes × Bytes)
path_params [] groups = []
path_params (p ∷ ps) [] = []
path_params (p ∷ ps) (g ∷ gs) = (p, g) ∷ path_params ps gs

-- The first route that matches, with the parameters of the path.
unfoldable pub find_route :
    List RoutePattern → Method → Bytes → Option (RequestHandler × List (Bytes × Bytes))
unfolding same_method regex_match
find_route [] method path = none
find_route (r ∷ routes) method path = elim (same_method r.method method) [
  | false ↦ find_route routes method path
  | true ↦ elim (regex_match r.pattern path) [
    | none ↦ find_route routes method path
    | some groups ↦ some (r.handler, path_params r.params groups)
  ]
]

module _ {W D : Type 0} (lib : Platform W D) where
  -- `(this->*route.handler)(conn, req, resp)`.
  unfoldable pub run_handler : RequestHandler → M W Bool
  run_handler favicon = handle_favicon lib
  run_handler register = handle_register lib
  run_handler login = handle_login lib
  run_handler index = handle_index lib
  run_handler share_access = handle_share_access lib
  run_handler share_download = handle_share_download lib
  run_handler share_info = handle_share_info lib
  run_handler file_upload = handle_file_upload lib
  run_handler list_files = handle_list_files lib
  run_handler download = handle_download lib
  run_handler delete = handle_delete lib
  run_handler share_file = handle_share_file lib
  run_handler search_users = handle_search_users lib
  run_handler logout = handle_logout lib

  unfoldable pub on_request : M W Bool
  on_request =
      try
        (do
          s ← get
          elim (find_route init_routes s.request.method s.request.path) [
            | none ↦ handle_not_found lib
            | some (handler, params) ↦ do
              modify (λ t. record t { request = record t.request { path_params = params } })
              run_handler handler
          ])
        (λ what.
          send_error lib (codes "Internal Server Error") StatusCode.internal_server_error_500)

  -- `connected` is `conn->connected()`.
  unfoldable pub on_connection : Bool → M W (Unit {0})
  on_connection true = modify (λ s. record s { context = some new_context; custom = none })
  on_connection false = modify (λ s. record s { context = none; custom = none })

  -- Without a connection `mysql` is null; where the character set fails it stays.
  unfoldable pub init_database : M W Bool
  init_database = do
    made ← on_world lib.init_mysql
    modify (λ s. record s { mysql = made })
    if not made then pure false else (do
      connected ← on_world lib.connect_mysql
      if not connected
          then (modify (λ s. record s { mysql = false }) >> pure false)
          else on_world lib.set_character_set)

  unfoldable pub close_database : M W (Unit {0})
  close_database = modify (λ s. record s { mysql = false })

  -- The constructor, behind the start of its thread pool, and the destructor behind its stop.
  unfoldable pub start_handler : M W (Unit {0})
  start_handler = do
    modify (λ s. record s { world = lib.make_directory upload_dir s.world })
    _ ← init_database
    load_mapping lib

  unfoldable pub stop_handler : M W (Unit {0})
  stop_handler = save_mapping lib >> close_database
