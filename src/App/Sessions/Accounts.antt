-- ===== src/App/Sessions/Accounts.antt =====
-- Registration, login, logout and the search for users.
use cloud_storage.Common.{
  Bool, not, ◌||◌, List, [], ◌∷◌, ◌++◌, none, some, Bytes, codes, length, ◌==◌, if◌then◌else◌,
}
use cloud_storage.Http.Request.{get_header}
use cloud_storage.App.Decode.{url_decode}
use cloud_storage.Http.Response.{StatusCode}
use cloud_storage.App.Text.{pos, utf8, int_text, to_int, after_prefix}
use cloud_storage.App.Json.{Items, nil, cons, object, fields, array, text, number}
use cloud_storage.App.Platform.{Platform, Row}
use cloud_storage.App.Effects.{
  M, ◌>>=◌, ◌>>◌, pure, lift, try, get, concat, int_column, text_column, text_column_or_empty,
  execute_query, execute_query_with_result, escape_string, reply_json, send_error,
}
use cloud_storage.App.Sessions.{generate_session_id, save_session, end_session, with_session}

module _ {W D : Type 0} (lib : Platform W D) where
  unfoldable pub handle_register : M W Bool
  handle_register =
      try
        (do
          s ← get
          request ← lift (lib.parse s.request.body)
          username ← lift (lib.text_at request (codes "username"))
          password ← lift (lib.text_at request (codes "password"))
          email ← lift (lib.text_or request (codes "email") [])
          if length username == 0 || length password == 0
              then send_error lib (utf8 "用户名和密码不能为空") StatusCode.bad_request_400
              else (do
                name ← escape_string lib username
                result ← execute_query_with_result lib (
                    concat
                      (codes "SELECT id FROM users WHERE username = '" ∷ name ∷ codes "'" ∷ []))
                elim result [
                  | some (row ∷ _) ↦ send_error lib (utf8 "用户名已存在") StatusCode.bad_request_400
                  | _ ↦ do
                    hashed ← escape_string lib (lib.hash_text password)
                    address ← escape_string lib email
                    inserted ← execute_query lib (
                        concat (
                          codes "INSERT INTO users (username, password, email) VALUES ('"
                          ∷ name
                          ∷ codes "', '"
                          ∷ hashed
                          ∷ codes "', "
                          ∷ (if length email == 0
                              then codes "NULL"
                              else codes "'" ++ (address ++ codes "'"))
                          ∷ codes ")"
                          ∷ []))
                    t ← get
                    if not inserted
                        then send_error lib (utf8 "注册失败，请稍后重试") StatusCode.internal_server_error_500
                        else reply_json lib StatusCode.ok_200 (codes "OK") (
                            object (
                              fields (
                                (codes "code", number (pos 0))
                                ∷ (codes "message", text (utf8 "注册成功"))
                                ∷ (codes "userId", number (to_int (lib.insert_id t.world)))
                                ∷ [])))
                ]))
        (λ what. send_error lib (utf8 "注册失败: " ++ what) StatusCode.internal_server_error_500)

  unfoldable pub handle_login : M W Bool
  handle_login =
      try
        (do
          s ← get
          request ← lift (lib.parse s.request.body)
          username ← lift (lib.text_at request (codes "username"))
          password ← lift (lib.text_at request (codes "password"))
          if length username == 0 || length password == 0
              then send_error lib (utf8 "用户名和密码不能为空") StatusCode.bad_request_400
              else (do
                name ← escape_string lib username
                hashed ← escape_string lib (lib.hash_text password)
                result ← execute_query_with_result lib (
                    concat (
                      codes "SELECT id, username FROM users WHERE username = '"
                      ∷ name
                      ∷ codes "' AND password = '"
                      ∷ hashed
                      ∷ codes "'"
                      ∷ []))
                elim result [
                  | some (row ∷ _) ↦ do
                    user_id ← int_column row 0
                    stored_name ← text_column row 1
                    session_id ← generate_session_id lib
                    _ ← save_session lib session_id user_id stored_name
                    reply_json lib StatusCode.ok_200 (codes "OK") (
                        object (
                          fields (
                            (codes "code", number (pos 0))
                            ∷ (codes "message", text (utf8 "登录成功"))
                            ∷ (codes "sessionId", text session_id)
                            ∷ (codes "userId", number user_id)
                            ∷ (codes "username", text stored_name)
                            ∷ [])))
                  | _ ↦ send_error lib (utf8 "用户名或密码错误") StatusCode.unauthorized_401
                ]))
        (λ what. send_error lib (utf8 "登录失败: " ++ what) StatusCode.internal_server_error_500)

  unfoldable pub handle_logout : M W Bool
  handle_logout = do
    s ← get
    end_session lib (get_header s.request (codes "X-Session-ID"))
    reply_json lib StatusCode.ok_200 (codes "OK") (
        object (
          fields (
            (codes "code", number (pos 0))
            ∷ (codes "message", text (codes "Logout successful"))
            ∷ [])))

  abbrev without_question : Bytes → Bytes
  without_question [] = []
  without_question (c ∷ q) = if c == b'?' then q else c ∷ q

  -- The rows of the search, each an object.
  unfoldable pub user_items : List Row → M W Items
  user_items [] = pure nil
  user_items (row ∷ rows) = do
    id ← int_column row 0
    more ← user_items rows
    pure (
        cons
          (object (
            fields (
              (codes "id", number id)
              ∷ (codes "username", text (text_column_or_empty row 1))
              ∷ (codes "email", text (text_column_or_empty row 2))
              ∷ [])))
          more)

  abbrev no_keyword : M W Bool
  no_keyword = send_error lib (utf8 "搜索关键词不能为空") StatusCode.bad_request_400

  unfoldable pub handle_search_users : M W Bool
  handle_search_users = with_session lib λ user_id username. do
    s ← get
    elim (after_prefix (codes "keyword=") (without_question s.request.query)) [
      | none ↦ no_keyword
      | some encoded ↦ do
        keyword ← lift (url_decode lib.scan_hex none encoded)
        if length keyword == 0 then no_keyword else (do
          word ← escape_string lib keyword
          result ← execute_query_with_result lib (
              concat (
                codes "SELECT id, username, email FROM users WHERE username LIKE '%"
                ∷ word
                ∷ codes "%' AND id != "
                ∷ int_text user_id
                ∷ codes " LIMIT 10"
                ∷ []))
          users ← elim result [ none ↦ pure nil | some rows ↦ user_items rows ]
          reply_json lib StatusCode.ok_200 (codes "OK") (
              object (
                fields (
                  (codes "code", number (pos 0))
                  ∷ (codes "message", text (codes "Success"))
                  ∷ (codes "users", array users)
                  ∷ []))))
    ]
