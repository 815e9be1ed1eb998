-- ===== src/App/Decode.antt =====
-- `HttpUploadHandler::urlDecode`.
use cloud_storage.Common.{
  ℕ, ◌%◌, true, false, [], ◌∷◌, Option, none, some, Bytes, ◌==◌, if◌then◌else◌,
}
use cloud_storage.App.Platform.{Res, returns, throws, undefined}

abbrev add_char : ℕ → Res Bytes → Res Bytes
add_char c (returns s) = returns (c ∷ s)
add_char c (throws what) = throws what
add_char c undefined = undefined

abbrev put_char : Option ℕ → Res Bytes → Res Bytes
put_char none rest = undefined
put_char (some v) rest = add_char (v % 256) rest

-- What the number holds behind a `sscanf`: as before where it stores nothing.
abbrev scanned : Option ℕ → Option ℕ → Option ℕ
scanned (some v) ii = some v
scanned none ii = ii

-- `ii` is the number that `sscanf` writes, which has no value at first.
unfoldable pub url_decode : (Bytes → Option ℕ) → Option ℕ → Bytes → Res Bytes
url_decode scan ii [] = returns []
url_decode scan ii (c ∷ []) = elim (c == b'%') [
  | true ↦ put_char (scanned (scan []) ii) (returns [])
  | false ↦ add_char (if c == b'+' then b' ' else c) (returns [])
]
url_decode scan ii (c ∷ d ∷ []) = elim (c == b'%') [
  | true ↦ put_char (scanned (scan (d ∷ [])) ii) (returns [])
  | false ↦ add_char (if c == b'+' then b' ' else c) (url_decode scan ii (d ∷ []))
]
url_decode scan ii (c ∷ d ∷ e ∷ cs) = elim (c == b'%') [
  | true ↦ let ii1 = scanned (scan (d ∷ e ∷ [])) ii in put_char ii1 (url_decode scan ii1 cs)
  | false ↦ add_char (if c == b'+' then b' ' else c) (url_decode scan ii (d ∷ e ∷ cs))
]
