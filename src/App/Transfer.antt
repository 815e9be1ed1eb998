-- ===== src/App/Transfer.antt =====
-- app/FileDownloadContext.hpp, the range of a request, and the answer with a file: what
-- `handleDownload` and `handleShareDownload` do once the access is granted, the same in both.
pub mod Chunks
pub mod Ranges
use cloud_storage.Common.{
  ℕ, zero, suc, ◌+◌, ◌-◌, ◌*◌, ◌%◌, ◌^◌, Bool, true, false, not, ◌&&◌, ◌||◌, List, [], ◌∷◌, ◌++◌,
  Option, none, some, Bytes, codes, length, take, drop, replicate, min, ltb, leb, ◌==◌,
  if◌then◌else◌, is_digit, size_sub,
}
use cloud_storage.Http.Request.{HttpRequest, Method, get_header}
use cloud_storage.Http.Response.{StatusCode}
use cloud_storage.App.Text.{nat_text, stoull, after_prefix}
use cloud_storage.App.Platform.{Platform, Res, returns, throws, undefined}
use cloud_storage.App.Effects.{
  Exchange, M, ◌>>=◌, ◌>>◌, pure, lift, raise, try, get, modify, concat, FileDownContext, upload,
  download, streams, header, status, send_error, shut_down_when_written,
}
use cloud_storage.App.Upload.{upload_dir}

abbrev pub chunk_size : ℕ
chunk_size = 1024 * 1024

unfoldable pub seek_to : FileDownContext → ℕ → FileDownContext
seek_to c position = record c {
  position = position;
  current_position = position;
  is_complete = false;
}

-- `n` bytes of the stream, in a buffer that was zero.
abbrev pub read_bytes : FileDownContext → ℕ → Bytes
read_bytes c n = let got = take n (drop c.position c.content) in got ++ replicate (n - length got) 0

-- The chunk, none for `false`.
unfoldable pub read_next_chunk : FileDownContext → Option Bytes × FileDownContext
read_next_chunk c =
    let remaining_bytes = size_sub c.file_size c.current_position in
    let bytes_to_read = min chunk_size remaining_bytes in
    if c.is_complete
    then (none, c)
    else if bytes_to_read == 0
    then (none, record c { is_complete = true })
    else (
      some (read_bytes c bytes_to_read),
      record c {
        position = c.position + bytes_to_read;
        current_position = (c.current_position + bytes_to_read) % 2 ^ 64;
      },
    )

-- What the write complete callback of a download asks of the connection.
pub data Order : Type 0 where
  send : Bytes → Order
  shutdown : Order

abbrev pub order_of : Option Bytes × FileDownContext → Order × FileDownContext
order_of (some chunk, c) = (send chunk, c)
order_of (none, c) = (shutdown, c)

unfoldable pub on_written : FileDownContext → Order × FileDownContext
on_written c = order_of (read_next_chunk c)

-- The part of the file that an answer is about; `whole` without a range in the request.
pub data Span : Type 0 where
  whole : ℕ → ℕ → Span
  partial : ℕ → ℕ → Span
  unsatisfiable : Span

-- The digits at the front, and the rest.
abbrev pub digits_span : Bytes → Bytes × Bytes
digits_span [] = ([], [])
digits_span (c ∷ cs) =
    let (ds, rest) = digits_span cs in if is_digit c then (c ∷ ds, rest) else ([], c ∷ cs)

abbrev behind_dash : Bytes → Bytes → Option (Bytes × Bytes)
behind_dash ds [] = none
behind_dash ds (c ∷ cs) =
    if c == b'-' && ltb 0 (length ds) then some (ds, (digits_span cs).0) else none

-- The groups of the regular expression "bytes=(\d+)-(\d*)" where it first matches.
unfoldable pub find_range : Bytes → Option (Bytes × Bytes)
unfolding after_prefix is_digit
find_range [] = none
find_range (c ∷ cs) =
    let later = find_range cs in
    elim (after_prefix (codes "bytes=") (c ∷ cs)) [
      | none ↦ later
      | some s ↦ elim (behind_dash (digits_span s).0 (digits_span s).1) [
        | some groups ↦ some groups
        | none ↦ later
      ]
    ]

abbrev pub to_number : Bytes → Res ℕ
to_number s = elim (stoull s) [ some n ↦ returns n | none ↦ throws (codes "stoull") ]

-- `startPos` and `endPos` against the size.
unfoldable pub clip_range : ℕ → ℕ → ℕ → Span
clip_range size start end =
    if leb size start
    then unsatisfiable
    else partial start (if leb size end then size_sub size 1 else end)

abbrev pub with_end : ℕ → ℕ → Res ℕ → Res Span
with_end size start (returns end) = returns (clip_range size start end)
with_end size start (throws what) = throws what
with_end size start undefined = undefined

abbrev pub with_start : ℕ → Bytes → Res ℕ → Res Span
with_start size second (returns start) =
    if length second == 0
    then returns (clip_range size start (size_sub size 1))
    else with_end size start (to_number second)
with_start size second (throws what) = throws what
with_start size second undefined = undefined

abbrev pub parsed : ℕ → Option (Bytes × Bytes) → Res Span
parsed size none = returns (whole 0 (size_sub size 1))
parsed size (some (first, second)) = with_start size second (to_number first)

unfoldable pub parse_range : Bytes → ℕ → Res Span
parse_range range_header size = parsed size (find_range range_header)

module _ {W D : Type 0} (lib : Platform W D) where
  unfoldable pub new_download : Bytes → Bytes → M W FileDownContext
  new_download filepath original_filename = do
    s ← get
    elim (lib.read_file filepath s.world) [
      | none ↦ raise (codes "Failed to open file: " ++ filepath)
      | some content ↦ pure (record {
        filepath = filepath;
        original_filename = original_filename;
        content = content;
        position = 0;
        file_size = lib.file_size filepath s.world;
        current_position = 0;
        is_complete = false;
      })
    ]

  -- The headers of the first answer.
  unfoldable pub span_headers : Span → ℕ → M W (Unit {0})
  span_headers (partial start end) size = do
    status StatusCode.partial_content_206 (codes "Partial Content")
    header (codes "Content-Range") (
        concat (
          codes "bytes "
          ∷ nat_text start
          ∷ codes "-"
          ∷ nat_text end
          ∷ codes "/"
          ∷ nat_text size
          ∷ []))
  span_headers _ size = status StatusCode.ok_200 (codes "OK")

  abbrev pub span_start : Span → ℕ
  span_start (whole start end) = start
  span_start (partial start end) = start
  span_start unsatisfiable = 0

  abbrev stream : FileDownContext → M W Bool
  stream c s = (returns true, record s { on_write_complete = some (streams c) })

  -- The context, new or as an earlier request of the connection left it, and the callback.
  unfoldable pub stream_file : Bytes → Bytes → ℕ → Span → M W Bool
  stream_file filepath original_filename size span = do
    s ← get
    elim s.context [
      | none ↦ send_error lib (codes "Internal Server Error") StatusCode.internal_server_error_500
      | some _ ↦ elim s.custom [
        | some (upload _) ↦ lift undefined
        | some (download c) ↦ stream c
        | none ↦ do
          c ← new_download filepath original_filename
          span_headers span size
          header (codes "Content-Type") (codes "application/octet-stream")
          header (codes "Content-Disposition")
              (concat (codes "attachment; filename=\"" ∷ original_filename ∷ codes "\"" ∷ []))
          header (codes "Accept-Ranges") (codes "bytes")
          header (codes "Connection") (codes "keep-alive")
          let c1 = seek_to c (span_start span)
          modify (λ t. record t { custom = some (download c1) })
          stream c1
      ]
    ]

  unfoldable pub head_reply : ℕ → M W Bool
  head_reply size = do
    status StatusCode.ok_200 (codes "OK")
    header (codes "Content-Type") (codes "application/octet-stream")
    header (codes "Content-Length") (nat_text size)
    header (codes "Accept-Ranges") (codes "bytes")
    header (codes "Connection") (codes "close")
    shut_down_when_written
    pure true

  abbrev is_head : Method → Bool
  is_head Method.head = true
  is_head _ = false

  unfoldable pub serve_file : Bytes → Bytes → M W Bool
  serve_file server_filename original_filename =
      try
        (do
          s ← get
          let filepath = concat (upload_dir ∷ codes "/" ∷ server_filename ∷ [])
          let size = lib.file_size filepath s.world
          if not (lib.exists filepath s.world) || not (lib.is_regular_file filepath s.world)
              then send_error lib (codes "File not found") StatusCode.not_found_404
              else if is_head s.request.method
              then head_reply size
              else (do
                span ← lift (parse_range (get_header s.request (codes "Range")) size)
                elim span [
                  | unsatisfiable ↦
                      send_error lib (codes "Range Not Satisfiable")
                        StatusCode.range_not_satisfiable_416
                  | whole start end ↦ stream_file filepath original_filename size (whole start end)
                  | partial start end ↦
                      stream_file filepath original_filename size (partial start end)
                ]))
        (λ what. send_error lib (codes "Download failed") StatusCode.internal_server_error_500)
