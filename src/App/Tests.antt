-- ===== src/App/Tests.antt =====
-- Examples of the application. No file is there at first.
pub mod Disk
use cloud_storage.App.Tests.Disk.{World, put, disk, disk-KeepsFile, disk-KeepsMaps}
use cloud_storage.Common.{
  ℕ, zero, suc, List, Bool, true, false, [], ◌∷◌, ◌++◌, Option, none, some, Bytes, codes, ◌≡◌, ◌↔◌,
  refl, arith, if◌then◌else◌, bytes_eq, bytes_eq_refl, ap, ◌∙◌,
}
use cloud_storage.Http.Headers.{Headers}
use cloud_storage.Http.Headers
use cloud_storage.Http.Request.{get_header, new_request, Method}
use cloud_storage.Http.Response.{new_response}
use cloud_storage.Http.Context.{new_context}
use cloud_storage.App.Text.{ℤ, pos, int_eq, stoi, find_text, is_some}
use cloud_storage.App.Platform.{Platform, Row, returns, throws}
use cloud_storage.App.Effects.{
  Exchange, FileUploadContext, expect_boundary, complete, FileDownContext, int_column, text_column,
  int_column_or_zero, ◌>>◌, upload,
}
use cloud_storage.App.Upload.Chunks.{
  next_pieces, next_pieces-joined, counted, After, plain, no_more,
}
use cloud_storage.App.Storage.{KeepsFile, KeepsMaps, utf8_from}
use cloud_storage.App.Transfer.{parse_range}
use cloud_storage.App.Transfer.Ranges.{parse_range-InFile, AnswerInFile}
use cloud_storage.App.Transfer.Chunks.{written, written_lem}
use cloud_storage.App.Access.{Visit, visit, has_permission, is_shared}
use cloud_storage.App.Access.Downloads.{download_row}
use cloud_storage.App.Access.Permission.{Granted, has_permission-Granted}
use cloud_storage.App.Access.Refusal.{Reads, IsRefused, with_files, download_row-IsRefused}
use cloud_storage.App.Names.{
  add_filename_mapping, get_original_filename, erase_filename_mapping, erase, load_mapping,
  mapping_file,
}
use cloud_storage.App.Names.Lookup.{get_original_filename-changed, name_in, loaded, after_save}
use cloud_storage.App.Shares.Visits.{share_access_row}
use cloud_storage.App.Shares.Columns.{ShareRow, columns, share_access_row-throws}
use cloud_storage.App.Pattern.{regex_match, escape_regex}
use cloud_storage.App.Pattern.Exact.{escape_regex-exact}
use cloud_storage.App.Routes.{
  run_handler, file_upload, download, delete, share_access, share_download, share_info,
}
use cloud_storage.App.Sessions.{validate_session}
use cloud_storage.App.Routes.Protected.{session_check, IsDenied, run_handler-IsDenied, upload_files}
use cloud_storage.App.Routes.Dispatch.{route_of, find_route-segment}

abbrev idle_exchange : Exchange World
idle_exchange = record {
  mysql = true;
  mapping = [];
  world = λ p. none;
  request = new_request;
  response = new_response false;
  context = some new_context;
  custom = none;
  on_write_complete = none;
}

abbrev begun : FileUploadContext
begun = record {
  filename = codes "uploads/upload_1";
  original_filename = codes "a.txt";
  total_bytes = 2;
  state = expect_boundary;
  boundary = codes "--x";
}

abbrev begun_exchange : Exchange World
begun_exchange = record idle_exchange {
  world = put (codes "uploads/upload_1") (some (codes "ab")) (λ p. none);
}

next_pieces-joined_example :
    (s' : Exchange World) × (next_pieces disk begun
        (codes "cd" ∷ codes "ef--x--" ∷ [])
        begun_exchange
      ≡ (returns (record (counted begun (codes "abcdef")) { state = complete }), s'))
    × After disk (codes "uploads/upload_1") (codes "abcdef") begun_exchange s'
    × (s'.custom ≡ some (upload (record (counted begun (codes "abcdef")) { state = complete })))
unfolding find_text bytes_eq
next_pieces-joined_example =
    next_pieces-joined disk begun (codes "ab") (codes "cd" ∷ []) (codes "ef--x--") 2 begun_exchange
      (disk-KeepsFile (codes "uploads/upload_1")) refl refl refl (plain refl no_more) refl

parse_range-InFile_example : AnswerInFile 10 (parse_range (codes "bytes=2-5") 10)
parse_range-InFile_example = parse_range-InFile (codes "bytes=2-5") 10

abbrev at_two : FileDownContext
at_two = record {
  filepath = codes "uploads/upload_1";
  original_filename = codes "a.txt";
  content = codes "abcde";
  position = 2;
  file_size = 5;
  current_position = 2;
  is_complete = false;
}

written_lem_example : written 2 at_two ≡ some (codes "cde")
written_lem_example =
    written_lem 1 at_two
      (record {
        not_complete = refl;
        same_position = refl;
        in_file = omega arith;
        whole_file = refl;
        file_size_bound = omega arith;
      })
      (omega arith)

abbrev alice : Option (ℤ × Bytes)
alice = some (pos 7, codes "alice")

-- A protected file of another user, with the extract code "Q1".
abbrev protected_row : Row
protected_row =
    some (codes "3")
    ∷ some (codes "upload_1")
    ∷ some (codes "a.txt")
    ∷ some (codes "9")
    ∷ some (codes "protected")
    ∷ none
    ∷ some (codes "Q1")
    ∷ []

abbrev code_visit : Visit
code_visit = visit alice (codes "abc") (codes "Q1") protected_row (pos 9) (pos 0)

has_permission-Granted_example : (has_permission code_visit ≡ true) ↔ Granted code_visit
has_permission-Granted_example = has_permission-Granted code_visit

grants_with_code : has_permission code_visit ≡ true
unfolding has_permission int_eq is_shared
grants_with_code = refl

protected_row-Reads : Reads World protected_row (pos 9) (pos 0)
unfolding int_column text_column int_column_or_zero stoi
protected_row-Reads = record {
  file_id = pos 3;
  filename = codes "upload_1";
  original_filename = codes "a.txt";
  reads_id = λ s. refl;
  reads_filename = λ s. refl;
  reads_original = λ s. refl;
  reads_owner = λ s. refl;
  reads_shared = λ s. refl;
}

wrong_code : ¬ Granted (visit alice (codes "abc") (codes "Q2") protected_row (pos 9) (pos 0))
unfolding has_permission int_eq is_shared
wrong_code g =
    let e : false ≡ true =
      (has_permission-Granted
          (visit alice (codes "abc") (codes "Q2") protected_row (pos 9) (pos 0))).1
        g in
    absurd cc

download_row-IsRefused_example :
    IsRefused disk
      (visit alice (codes "abc") (codes "Q2") protected_row (pos 9) (pos 0))
      idle_exchange
      (download_row disk alice (codes "abc") (codes "Q2") protected_row idle_exchange)
    × (download_row
          (with_files disk (λ p w. some (codes "secret")) (λ p w. true) (λ p w. 6))
          alice
          (codes "abc")
          (codes "Q2")
          protected_row
          idle_exchange
        ≡ download_row disk alice (codes "abc") (codes "Q2") protected_row idle_exchange)
download_row-IsRefused_example =
    download_row-IsRefused disk alice (codes "abc") (codes "Q2") protected_row (pos 9) (pos 0)
      idle_exchange (λ p w. some (codes "secret")) (λ p w. true) (λ p w. 6) protected_row-Reads
      wrong_code

get_original_filename-changed_example :
    ((add_filename_mapping disk (codes "u1") (codes "a") >> get_original_filename disk (codes "u1"))
        idle_exchange
      ≡ (
        returns (
            if bytes_eq (codes "u1") (codes "u1")
            then codes "a"
            else name_in (loaded disk idle_exchange) (codes "u1")),
        after_save disk ((codes "u1", codes "a") ∷ []) idle_exchange,
      ))
    × ((erase_filename_mapping disk (codes "u1") >> get_original_filename disk (codes "u1"))
          idle_exchange
        ≡ (
          returns (
              if bytes_eq (codes "u1") (codes "u1")
              then codes "u1"
              else name_in (loaded disk idle_exchange) (codes "u1")),
          after_save disk [] idle_exchange,
        ))
unfolding Headers.set erase load_mapping utf8_from
get_original_filename-changed_example =
    get_original_filename-changed disk (disk-KeepsFile mapping_file) disk-KeepsMaps (codes "u1")
      (codes "a") (codes "u1") idle_exchange tt tt refl refl

abbrev public_share : ShareRow
public_share = record {
  id = codes "1";
  file_id = codes "3";
  owner_id = codes "9";
  shared_with_id = none;
  share_type = codes "public";
  share_code = codes "abc";
  expire_time = none;
  created_at = some (codes "2024-01-01 00:00:00");
  extract_code = none;
  filename = codes "upload_1";
  original_filename = codes "a.txt";
  file_size = codes "5";
  file_type = some (codes "text");
  owner_username = codes "bob";
  user_id = codes "9";
}

share_access_row-throws_example :
    share_access_row disk alice (codes "abc") [] (columns public_share) idle_exchange
    ≡ (throws (codes "stoi"), idle_exchange)
unfolding stoi
share_access_row-throws_example =
    share_access_row-throws disk alice (codes "abc") [] public_share idle_exchange refl

escape_regex-exact_example :
    regex_match (codes "^" ++ (escape_regex (codes "/a.b") ++ codes "$")) (codes "/aXb")
    ≡ (if bytes_eq (codes "/aXb") (codes "/a.b") then some [] else none)
escape_regex-exact_example = escape_regex-exact (codes "/a.b") (codes "/aXb")

find_route-segment_example :
    (route_of Method.get (codes "/download/" ++ codes "u1")
      ≡ some (download, (codes "filename", codes "u1") ∷ []))
    × (route_of Method.head (codes "/download/" ++ codes "u1")
        ≡ some (download, (codes "filename", codes "u1") ∷ []))
    × (route_of Method.delete (codes "/delete/" ++ codes "u1")
        ≡ some (delete, (codes "filename", codes "u1") ∷ []))
    × (route_of Method.get (codes "/share/" ++ codes "u1")
        ≡ some (share_access, (codes "code", codes "u1") ∷ []))
    × (route_of Method.get (codes "/share/download/" ++ codes "u1")
        ≡ some (share_download, (codes "filename", codes "u1") ∷ []))
    × (route_of Method.get (codes "/share/info/" ++ codes "u1")
        ≡ some (share_info, (codes "code", codes "u1") ∷ []))
find_route-segment_example = find_route-segment (codes "u1") (ground arith, (ground arith, tt))

-- A request without a session.
no_session : session_check disk idle_exchange ≡ (returns none, idle_exchange)
unfolding validate_session get_header Headers.find
no_session = refl

run_handler-IsDenied_example : IsDenied idle_exchange (run_handler disk file_upload idle_exchange)
run_handler-IsDenied_example =
    run_handler-IsDenied disk file_upload idle_exchange idle_exchange upload_files no_session
