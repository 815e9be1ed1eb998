-- ===== src/App/Sessions.antt =====
-- Sessions: their creation, their check and their end.
pub mod Accounts
use cloud_storage.Common.{
  ℕ, zero, suc, Bool, not, ◌||◌, List, [], ◌∷◌, ◌++◌, Option, none, some, Bytes, codes, length,
  get_elem?, ◌==◌, if◌then◌else◌,
}
use cloud_storage.Http.Request.{get_header}
use cloud_storage.App.Decode.{url_decode}
use cloud_storage.Http.Response.{StatusCode}
use cloud_storage.App.Text.{ℤ, pos, utf8, int_text, nat_text, to_int, after_prefix}
use cloud_storage.App.Json.{Items, nil, cons, object, fields, array, text, number}
use cloud_storage.App.Platform.{Platform, Row}
use cloud_storage.App.Effects.{
  M, ◌>>=◌, ◌>>◌, pure, lift, try, get, on_world, concat, int_column, text_column,
  text_column_or_empty, execute_query, execute_query_with_result, escape_string, reply_json,
  send_error,
}

abbrev pub letters : Bytes
letters = codes "abcdefghijklmnopqrstuvwxyz0123456789"

abbrev pub not_logged_in : Bytes
not_logged_in = utf8 "未登录或会话已过期"

module _ {W D : Type 0} (lib : Platform W D) where
  -- `n` random characters of `chars`.
  unfoldable pub random_text : Bytes → ℕ → M W Bytes
  random_text chars zero = pure []
  random_text chars (suc n) = do
    i ← on_world (lib.random 0 35)
    rest ← random_text chars n
    pure (elim (get_elem? chars i) [ some c ↦ c ∷ rest | none ↦ rest ])

  unfoldable pub generate_session_id : M W Bytes
  generate_session_id = random_text letters 32

  unfoldable pub generate_unique_filename : Bytes → M W Bytes
  generate_unique_filename prefix = do
    timestamp ← on_world lib.clock
    salt ← on_world (lib.random 1000 9999)
    pure (concat (prefix ∷ codes "_" ∷ nat_text timestamp ∷ codes "_" ∷ nat_text salt ∷ []))

  unfoldable pub save_session : Bytes → ℤ → Bytes → M W Bool
  save_session session_id user_id username = do
    id ← escape_string lib session_id
    name ← escape_string lib username
    execute_query lib (
        concat (
          codes "INSERT INTO sessions (session_id, user_id, username, expire_time) VALUES ('"
          ∷ id
          ∷ codes "', "
          ∷ int_text user_id
          ∷ codes ", '"
          ∷ name
          ∷ codes "', DATE_ADD(NOW(), INTERVAL 30 MINUTE))"
          ∷ []))

  abbrev pub session_query : Bytes → Bytes
  session_query id = concat (
      codes "SELECT user_id, username FROM sessions WHERE session_id = '"
      ∷ id
      ∷ codes "' AND expire_time > NOW()"
      ∷ [])

  -- The user of a session that is valid, whose time it then extends.
  unfoldable pub validate_session : Bytes → M W (Option (ℤ × Bytes))
  validate_session session_id = if length session_id == 0 then pure none else (do
    id ← escape_string lib session_id
    result ← execute_query_with_result lib (session_query id)
    elim result [
      | none ↦ pure none
      | some rows ↦ elim rows [
        | [] ↦ pure none
        | row ∷ _ ↦ do
          user_id ← int_column row 0
          username ← text_column row 1
          _ ← execute_query lib (
              concat (
                codes "UPDATE sessions SET expire_time = DATE_ADD(NOW(), INTERVAL 30 MINUTE) "
                ∷ codes "WHERE session_id = '"
                ∷ id
                ∷ codes "'"
                ∷ []))
          pure (some (user_id, username))
      ]
    ])

  unfoldable pub end_session : Bytes → M W (Unit {0})
  end_session session_id = if length session_id == 0 then pure tt else (do
    id ← escape_string lib session_id
    _ ←
        execute_query lib
          (concat (codes "DELETE FROM sessions WHERE session_id = '" ∷ id ∷ codes "'" ∷ []))
    pure tt)

  -- `validateSession` on the header X-Session-ID, and what the handler does for a valid session.
  unfoldable pub with_session : (ℤ → Bytes → M W Bool) → M W Bool
  with_session handler = do
    s ← get
    session ← validate_session (get_header s.request (codes "X-Session-ID"))
    elim session [
      | none ↦ send_error lib not_logged_in StatusCode.unauthorized_401
      | some (user_id, username) ↦ handler user_id username
    ]
