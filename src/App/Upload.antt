-- ===== src/App/Upload.antt =====
-- app/FileUploadContext.hpp and `handleFileUpload`: a multipart body in pieces, written to a file.
pub mod Requests
pub mod Search
pub mod Chunks
use cloud_storage.Common.{
  ℕ, ◌+◌, ◌-◌, ◌%◌, ◌^◌, Bool, true, false, not, ◌&&◌, ◌||◌, List, [], ◌∷◌, ◌++◌, Option, none,
  some, Bytes, codes, length, take, drop, ltb, leb, ◌==◌, if◌then◌else◌, bytes_eq, to_lower, map,
}
use mathlib.Core.Option
use cloud_storage.Http.Request.{get_header}
use cloud_storage.App.Decode.{url_decode}
use cloud_storage.Http.Response.{StatusCode}
use cloud_storage.Http.Context.{HttpContext, ParseState}
use cloud_storage.App.Text.{ℤ, pos, utf8, int_text, nat_text, to_int, find_text, after_prefix}
use cloud_storage.App.Json.{Json, size_json, object, fields, text, number}
use cloud_storage.App.Platform.{Platform, undefined}
use cloud_storage.App.Effects.{
  Exchange, M, ◌>>=◌, ◌>>◌, pure, lift, raise, try, get, when, modify, on_world, concat,
  FileUploadContext, UploadState, expect_headers, expect_content, expect_boundary, complete, Custom,
  upload, download, execute_query, escape_string, reply_json, send_error,
}
use cloud_storage.App.Sessions.{with_session, generate_unique_filename}

abbrev pub upload_dir : Bytes
upload_dir = codes "uploads"

-- What follows the first `boundary=` that has a text behind it, up to the end: the regular
-- expression "boundary=(.+)$", whose `.` is no end of line.
abbrev no_line_end : Bytes → Bool
no_line_end [] = true
no_line_end (c ∷ cs) = not (c == 10 || c == 13) && no_line_end cs

abbrev is_line : Bytes → Bool
is_line [] = false
is_line (c ∷ cs) = no_line_end (c ∷ cs)

unfoldable pub find_boundary : Bytes → Option Bytes
unfolding after_prefix
find_boundary [] = none
find_boundary (c ∷ cs) =
    let later = find_boundary cs in
    elim (after_prefix (codes "boundary=") (c ∷ cs)) [
      | none ↦ later
      | some rest ↦ if is_line rest then some rest else later
    ]

-- `([^"]+)"`.
abbrev to_quote : Bytes → Option Bytes
to_quote [] = none
to_quote (c ∷ cs) =
    let more = to_quote cs in if c == b'"' then some [] else Option.map (λ t. c ∷ t) more

abbrev quoted : Bytes → Option Bytes
quoted s = elim (to_quote s) [ none ↦ none | some t ↦ if length t == 0 then none else some t ]

-- `.*filename="([^"]+)"`: the last one of the line.
unfoldable pub last_filename : Bytes → Option Bytes
unfolding after_prefix
last_filename [] = none
last_filename (c ∷ cs) =
    let later = last_filename cs in
    let here : Option Bytes = elim (after_prefix (codes "filename=\"") (c ∷ cs)) [
      | none ↦ none
      | some s ↦ quoted s
    ] in
    if c == 10 || c == 13 then here else elim later [ some t ↦ some t | none ↦ here ]

-- The regular expression of the source, "Content-Disposition:.*filename=" and a name in quotes.
unfoldable pub disposition_filename : Bytes → Option Bytes
unfolding after_prefix last_filename
disposition_filename [] = none
disposition_filename (c ∷ cs) =
    let later = disposition_filename cs in
    elim (after_prefix (codes "Content-Disposition:") (c ∷ cs)) [
      | none ↦ later
      | some rest ↦ elim (last_filename rest) [ some t ↦ some t | none ↦ later ]
    ]

-- What is behind the last `sep`.
abbrev pub after_last : ℕ → Bytes → Option Bytes
after_last sep [] = none
after_last sep (c ∷ cs) = elim (after_last sep cs) [
  | some t ↦ some t
  | none ↦ if c == sep then some cs else none
]

-- `fs::path(p).filename().string()`, for a path that ends in no slash.
unfoldable pub file_name : Bytes → Bytes
file_name p = elim (after_last b'/' p) [ some t ↦ t | none ↦ p ]

abbrev one_of : Bytes → List Bytes → Bool
one_of t [] = false
one_of t (name ∷ names) = bytes_eq t name || one_of t names

-- `fs::path(p).parent_path()`: what is in front of the last slash.
abbrev before_last : ℕ → Bytes → Option Bytes
before_last sep [] = none
before_last sep (c ∷ cs) = elim (before_last sep cs) [
  | some t ↦ some (c ∷ t)
  | none ↦ if c == sep then some [] else none
]

unfoldable pub parent_path : Bytes → Bytes
parent_path p = elim (before_last b'/' p) [ some t ↦ t | none ↦ [] ]

unfoldable pub get_file_type : Bytes → Bytes
unfolding to_lower bytes_eq
get_file_type filename = elim (after_last b'.' filename) [
  | none ↦ codes "unknown"
  | some s ↦
      let extension = map to_lower s in
      if length s == 0
      then codes "unknown"
      else if one_of extension (codes "jpg" ∷ codes "jpeg" ∷ codes "png" ∷ codes "gif" ∷ [])
      then codes "image"
      else if one_of extension (codes "mp4" ∷ codes "avi" ∷ codes "mov" ∷ codes "wmv" ∷ [])
      then codes "video"
      else if bytes_eq extension (codes "pdf")
      then codes "pdf"
      else if one_of extension (codes "doc" ∷ codes "docx" ∷ [])
      then codes "word"
      else if one_of extension (codes "xls" ∷ codes "xlsx" ∷ [])
      then codes "excel"
      else if one_of extension (codes "ppt" ∷ codes "pptx" ∷ [])
      then codes "powerpoint"
      else if one_of extension (codes "txt" ∷ codes "csv" ∷ [])
      then codes "text"
      else codes "other"
]

module _ {W D : Type 0} (lib : Platform W D) where
  abbrev pub set_upload : FileUploadContext → M W (Unit {0})
  set_upload c = modify (λ s. record s { custom = some (upload c) })

  -- The constructor, which also makes the directory.
  unfoldable pub new_upload : Bytes → Bytes → M W FileUploadContext
  new_upload filename original_filename = do
    let dir = parent_path filename
    when (not (length dir == 0)) (modify (λ s. record s { world = lib.make_directory dir s.world }))
    opened ← on_world (lib.create_file filename)
    if opened
        then pure (record {
          filename = filename;
          original_filename = original_filename;
          total_bytes = 0;
          state = expect_headers;
          boundary = [];
        })
        else raise (codes "Failed to open file: " ++ filename)

  unfoldable pub write_data : FileUploadContext → Bytes → M W FileUploadContext
  write_data c bytes = do
    written ← on_world (lib.write_file c.filename bytes)
    if written
        then (do
          let c' : FileUploadContext = record c {
            total_bytes = (c.total_bytes + length bytes) % 2 ^ 64;
          }
          set_upload c'
          pure c')
        else raise (codes "Failed to write to file: " ++ c.filename)

  unfoldable pub set_state : FileUploadContext → UploadState → M W FileUploadContext
  set_state c state = do
    let c' : FileUploadContext = record c { state = state }
    set_upload c'
    pure c'

  -- `writeData(body.data() + from, to - from)`: a length that wraps reads behind the body.
  abbrev write_range : FileUploadContext → Bytes → ℕ → ℕ → M W FileUploadContext
  write_range c body from to =
      if leb from to then write_data c (take (to - from) (drop from body)) else lift undefined

  -- The file content of the first body.
  unfoldable pub first_piece : FileUploadContext → Bytes → M W FileUploadContext
  first_piece c body = elim (find_text (codes "\r\n\r\n") body) [
    | none ↦ pure c
    | some p ↦ elim (find_text (c.boundary ++ codes "--") body) [
      | some end ↦ do
        c1 ← (if ltb 0 end then write_range c body (p + 4) end else pure c)
        set_state c1 complete
      | none ↦ do
        c1 ←
            (if ltb (p + 4) (length body) then write_range c body (p + 4) (length body) else pure c)
        set_state c1 expect_boundary
    ]
  ]

  -- `case kExpectBoundary`.
  unfoldable pub at_boundary : FileUploadContext → Bytes → M W FileUploadContext
  at_boundary c body = elim (find_text (c.boundary ++ codes "--") body) [
    | some end ↦ do
      c1 ← (if ltb 0 end then write_data c (take end body) else pure c)
      set_state c1 complete
    | none ↦ elim (find_text c.boundary body) [
      | some at ↦ elim (find_text (codes "\r\n\r\n") (drop at body)) [
        | some _ ↦ do
          c1 ← (if ltb 0 at then write_data c (take at body) else pure c)
          set_state c1 expect_content
        | none ↦ pure c
      ]
      | none ↦ write_data c body
    ]
  ]

  -- `case kExpectContent`.
  unfoldable pub at_content : FileUploadContext → Bytes → M W FileUploadContext
  at_content c body = elim (find_text c.boundary body) [
    | some at ↦ do c1 ← write_data c (take at body); set_state c1 expect_boundary
    | none ↦ write_data c body
  ]

  -- The switch on the state.
  unfoldable pub at_state : UploadState → FileUploadContext → Bytes → M W FileUploadContext
  at_state expect_boundary c body = at_boundary c body
  at_state expect_content c body = at_content c body
  at_state complete c body = pure c
  at_state expect_headers c body = pure c

  -- The bodies behind the first one.
  unfoldable pub next_piece : FileUploadContext → Bytes → M W FileUploadContext
  next_piece c body = if length body == 0 then pure c else at_state c.state c body
