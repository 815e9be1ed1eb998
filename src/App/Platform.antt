-- ===== src/App/Platform.antt =====
-- What the handlers use of MySQL, of nlohmann::json, of the file system, of the clock and of
-- random numbers. `W` is the world outside the program, `D` a parsed document.
use cloud_storage.Common.{ℕ, Bool, List, Option, Bytes}
use cloud_storage.Http.Query.{Scanner}
use cloud_storage.App.Text.{ℤ}
use cloud_storage.App.Json.{Json}

-- What an expression of the source comes to: a value, an exception with its `what()`, or undefined
-- behaviour.
pub data Res {ℓ} (A : Type ℓ) : Type ℓ where
  returns : A → Res A
  throws : Bytes → Res A
  undefined : Res A

-- A column of a row is a text or NULL.
abbrev pub Row : Type 0
Row = List (Option Bytes)

pub record Platform (W D : Type 0) : Type 0 where
  -- `mysql_init`, `mysql_real_connect` and `mysql_set_character_set`: false where they fail.
  pub init_mysql : W → Bool × W
  pub connect_mysql : W → Bool × W
  pub set_character_set : W → Bool × W
  -- `mysql_query(...) == 0`, `mysql_store_result`, `mysql_insert_id`, `mysql_real_escape_string`.
  pub run_query : Bytes → W → Bool × W
  pub store_result : W → Option (List Row) × W
  pub insert_id : W → ℕ
  pub escape : Bytes → Bytes
  -- `json::parse`, `j[key]` read as a string or as an int, `contains`, `is_null`, and `value` with
  -- a default.
  pub parse : Bytes → Res D
  pub text_at : D → Bytes → Res Bytes
  pub int_at : D → Bytes → Res ℤ
  pub contains : D → Bytes → Bool
  pub is_null_at : D → Bytes → Bool
  pub text_or : D → Bytes → Bytes → Res Bytes
  pub dump : Json → Bytes
  -- `std::hash<std::string>` in hexadecimal.
  pub hash_text : Bytes → Bytes
  -- Milliseconds since the epoch, and a number between two bounds.
  pub clock : W → ℕ × W
  pub random : ℕ → ℕ → W → ℕ × W
  -- The file system. `make_directory` does nothing where the directory is.
  pub make_directory : Bytes → W → W
  pub exists : Bytes → W → Bool
  pub is_regular_file : Bytes → W → Bool
  pub file_size : Bytes → W → ℕ
  pub read_file : Bytes → W → Option Bytes
  -- `create_file` opens an output stream on a path, which empties the file; `write_file` writes to
  -- the stream on a path and flushes. Both are false where the stream fails.
  pub create_file : Bytes → W → Bool × W
  pub write_file : Bytes → Bytes → W → Bool × W
  pub unlink : Bytes → W → Bool × W
  -- `json(mapping).dump(2)`, and `json::parse(file).get<std::map<...>>()` on the text of a file:
  -- none where they throw.
  pub dump_mapping : List (Bytes × Bytes) → Option Bytes
  pub parse_mapping : Bytes → Option (List (Bytes × Bytes))
  -- The directory of the source file.
  pub project_root : Bytes
  -- `sscanf` with "%x": for the handlers' `urlDecode`, none where it stores nothing, and for that of
  -- the request.
  pub scan_hex : Bytes → Option ℕ
  pub scanner : Scanner
