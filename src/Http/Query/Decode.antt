-- ===== src/Http/Query/Decode.antt =====
-- `urlDecode` and percent encoding.
use cloud_storage.Common.{
  ℕ, ◌+◌, ◌-◌, ◌/◌, ◌%◌, ◌<◌, ◌≡◌, refl, ap, ◌∙◌, Bool, true, false, [], ◌∷◌, Bytes, ltb,
  if◌then◌else◌, ◌≢◌, arith, Bool-cases, inl, inr,
}
use cloud_storage.Http.Query.{Scanner, ReadsHex, url_decode, is_hex, hex_value}

abbrev hex_digit : ℕ → ℕ
hex_digit n = if ltb n 10 then b'0' + n else b'A' + n - 10

-- Percent encoding that leaves the bytes of `plain` as they are.
abbrev pub percent_encode : (ℕ → Bool) → Bytes → Bytes
percent_encode plain [] = []
percent_encode plain (c ∷ cs) =
    let rest = percent_encode plain cs in
    if plain c then c ∷ rest else b'%' ∷ hex_digit (c / 16) ∷ hex_digit (c % 16) ∷ rest

abbrev pub AreBytes : Bytes → Type 0
AreBytes [] = Unit
AreBytes (c ∷ cs) = (c < 256) × AreBytes cs

hex_digit_lem : (n : ℕ) → n < 16 → (is_hex (hex_digit n) ≡ true) × (hex_value (hex_digit n) ≡ n)
hex_digit_lem n h = ground arith

module _ (s : Scanner) where
  url_decode_plain :
      (c : ℕ) (cs : Bytes) → c ≢ b'%' → c ≢ b'+' → url_decode s (c ∷ cs) ≡ c ∷ url_decode s cs
  unfolding url_decode
  url_decode_plain c [] h k = ground arith
  url_decode_plain c (d ∷ []) h k = ground arith
  url_decode_plain c (d ∷ e ∷ cs) h k = ground arith

  url_decode_escape :
      ReadsHex s
      → (n : ℕ) (cs : Bytes) → n < 256
      → url_decode s (b'%' ∷ hex_digit (n / 16) ∷ hex_digit (n % 16) ∷ cs) ≡ n ∷ url_decode s cs
  unfolding url_decode
  url_decode_escape reads n cs h =
      let (h1, v1) = hex_digit_lem (n / 16) (omega arith) in
      let (h2, v2) = hex_digit_lem (n % 16) (omega arith) in
      let scanned = reads.reads_digits (hex_digit (n / 16)) (hex_digit (n % 16)) h1 h2 in
      let e : s.scan_hex (hex_digit (n / 16)) (hex_digit (n % 16)) % 256 ≡ n = omega arith in
      ap (λ (m : ℕ). m ∷ url_decode s cs) e

  -- If `sscanf` reads hexadecimal digits as C says, and the encoding escapes `%` and `+`, then
  -- `urlDecode` gives back each text of bytes from its percent encoding.
  pub url_decode-percent_encode :
      (plain : ℕ → Bool) (text : Bytes)
      → ReadsHex s
      → plain b'%' ≡ false
      → plain b'+' ≡ false
      → AreBytes text
      → url_decode s (percent_encode plain text) ≡ text
  unfolding url_decode
  url_decode-percent_encode plain [] reads p q h = refl
  url_decode-percent_encode plain (c ∷ text) reads p q h =
      let ih = url_decode-percent_encode plain text reads p q h.1 in
      elim (Bool-cases (plain c)) [
        | inl kept ↦
            let e = url_decode_plain c (percent_encode plain text) (ground arith) (ground arith) in
            rw kept (e ∙ ap (◌∷◌ c) ih)
        | inr escaped ↦
            let e = url_decode_escape reads c (percent_encode plain text) h.0 in
            rw escaped (e ∙ ap (◌∷◌ c) ih)
      ]
