-- ===== src/App/Storage.antt =====
-- What the properties rely on of one file, and of the JSON text of a map.
use cloud_storage.Common.{
  ℕ, Bool, true, false, ◌&&◌, List, [], ◌∷◌, ◌++◌, Option, none, some, Bytes, leb, ltb, ◌==◌, ◌≡◌,
}
use cloud_storage.Http.Headers.{Headers}
use cloud_storage.Common.{if◌then◌else◌, bytes_lt}
use cloud_storage.App.Platform.{Platform}

-- A file that can be opened on a disk that does not run full: the stream empties it when it opens,
-- and what is written to the stream comes behind what the file holds.
pub record KeepsFile {W D : Type 0} (lib : Platform W D) (path : Bytes) : Type 0 where
  pub opens : (w : W) → (lib.create_file path w).0 ≡ true
  pub empties : (w : W) → lib.read_file path (lib.create_file path w).1 ≡ some []
  pub takes : (bytes : Bytes) (w : W) → (lib.write_file path bytes w).0 ≡ true
  pub appends :
      (bytes held : Bytes) (w : W)
      → lib.read_file path w ≡ some held
      → lib.read_file path (lib.write_file path bytes w).1 ≡ some (held ++ bytes)
  pub there : (held : Bytes) (w : W) → lib.read_file path w ≡ some held → lib.exists path w ≡ true

-- The ranges of the bytes that follow the first byte of a character in UTF-8 (RFC 3629).
abbrev tail_byte : ℕ × ℕ
tail_byte = (0x80, 0xbf)

abbrev utf8_tail : ℕ → Option (List (ℕ × ℕ))
utf8_tail c =
    if ltb c 0x80
    then some []
    else if ltb c 0xc2
    then none
    else if ltb c 0xe0
    then some (tail_byte ∷ [])
    else if c == 0xe0
    then some ((0xa0, 0xbf) ∷ tail_byte ∷ [])
    else if c == 0xed
    then some ((0x80, 0x9f) ∷ tail_byte ∷ [])
    else if ltb c 0xf0
    then some (tail_byte ∷ tail_byte ∷ [])
    else if c == 0xf0
    then some ((0x90, 0xbf) ∷ tail_byte ∷ tail_byte ∷ [])
    else if ltb c 0xf4
    then some (tail_byte ∷ tail_byte ∷ tail_byte ∷ [])
    else if c == 0xf4
    then some ((0x80, 0x8f) ∷ tail_byte ∷ tail_byte ∷ [])
    else none

unfoldable pub utf8_from : List (ℕ × ℕ) → Bytes → Bool
utf8_from [] [] = true
utf8_from (range ∷ more) [] = false
utf8_from ((low, high) ∷ more) (c ∷ cs) = leb low c && leb c high && utf8_from more cs
utf8_from [] (c ∷ cs) = elim (utf8_tail c) [ none ↦ false | some more ↦ utf8_from more cs ]

abbrev pub IsUtf8 : Bytes → Type 0
IsUtf8 t = utf8_from [] t ≡ true

-- A map holds texts in UTF-8.
abbrev pub AreUtf8 : Headers → Type 0
AreUtf8 [] = Unit {0}
AreUtf8 ((k, v) ∷ m) = IsUtf8 k × IsUtf8 v × AreUtf8 m

abbrev pub IsBelow : Bytes → Headers → Type 0
IsBelow k [] = Unit {0}
IsBelow k ((j, w) ∷ m) = (bytes_lt k j ≡ true) × IsBelow k m

-- The keys ascend, as they do in a `std::map`.
abbrev pub IsAscending : Headers → Type 0
IsAscending [] = Unit {0}
IsAscending ((k, v) ∷ m) = IsBelow k m × IsAscending m

-- The JSON text of a map of texts in UTF-8 parses to the same map.
pub record KeepsMaps {W D : Type 0} (lib : Platform W D) : Type 0 where
  pub parses :
      (m : Headers)
      → IsAscending m
      → AreUtf8 m
      → (t : Bytes) × (lib.dump_mapping m ≡ some t) × (lib.parse_mapping t ≡ some m)
