-- ===== src/Http/Context/Lines.antt =====
-- How the parser cuts a line off the front of the buffer.
use cloud_storage.Common.{
  ℕ, ◌+◌, ◌-◌, ◌≡◌, sym, ap, ◌∙◌, ◌++◌, Bytes, length, take, drop, arith, none, some, length-append,
  take-append, drop-append, append_assoc, take-take, ok,
}
use cloud_storage.Buffer.{Buffer, readable, find_crlf, retrieve_until}
use cloud_storage.Buffer.Layout.{IsValid, IsValid-Layout, before, behind, length-readable}
use cloud_storage.Buffer.Writes.{Holds}
use cloud_storage.Buffer.Reads.{retrieve_until-Holds}
use cloud_storage.Buffer.Search.{crlf, search_crlf-line}
use cloud_storage.Buffer.{search_crlf}
use cloud_storage.Http.Context.{slice}

-- A valid buffer begins with `line`, which holds no line break, and goes on with `rest` behind one.
pub record HasLine (b : Buffer) (line rest : Bytes) : Type 0 where
  pub valid : IsValid b
  pub text : readable b ≡ line ++ (crlf ++ rest)
  pub unbroken : search_crlf line ≡ none

module _ {b : Buffer} {line rest : Bytes} (h : HasLine b line rest) where
  pub HasLine-find_crlf : find_crlf b ≡ some (b.read_index + length line)
  unfolding find_crlf
  HasLine-find_crlf = rw (h.text, search_crlf-line line rest h.unbroken)

  HasLine-length : length (readable b) ≡ length line + 2 + length rest
  HasLine-length = ap length h.text ∙ length-append line (crlf ++ rest) ∙ omega arith

  pub HasLine-slice : slice b b.read_index (b.read_index + length line) ≡ line
  unfolding readable
  HasLine-slice =
      let n : b.read_index + length line - b.read_index ≡ length line = omega arith in
      let e = HasLine-length in
      let count = length-readable b h.valid in
      rw n (
        sym (
          take-take (length line) (b.write_index - b.read_index) (drop b.read_index b.storage)
            (omega arith))
        ∙ ap (take (length line)) h.text
        ∙ take-append line (crlf ++ rest))

  -- `retrieveUntil(crlf + 2)` leaves the rest.
  pub HasLine-retrieve_until :
      (b' : Buffer) × (retrieve_until b (b.read_index + length line + 2) ≡ ok b') × Holds b' rest
  HasLine-retrieve_until =
      let len = length line + 2 in
      let at : b.read_index + len ≡ b.read_index + length line + 2 = omega arith in
      let (b', e, r) = retrieve_until-Holds b len h.valid (omega (arith, HasLine-length)) in
      let size : length (line ++ crlf) ≡ len = omega (arith, length-append line crlf) in
      let cut : drop len (readable b) ≡ rest =
        ap (drop len) (h.text ∙ sym (append_assoc line crlf rest))
        ∙ ap (λ (n : ℕ). drop n ((line ++ crlf) ++ rest)) (sym size)
        ∙ drop-append (line ++ crlf) rest in
      (b', ap (retrieve_until b) (sym at) ∙ e, record { valid = r.valid; holds = r.holds ∙ cut })

  -- From a suffix `tail` of the line to the end of the storage: the suffix, the line break, and
  -- what follows.
  pub HasLine-drop :
      (head tail : Bytes)
      → line ≡ head ++ tail
      → (more : Bytes) × (drop (b.read_index + length line - length tail) b.storage
          ≡ tail ++ (crlf ++ more))
  HasLine-drop head tail e =
      let l = IsValid-Layout b h.valid in
      let sizes : length line ≡ length head + length tail = ap length e ∙ length-append head tail in
      let pre = before b ++ head in
      let size : b.read_index + length line - length tail ≡ length pre =
        omega (arith, l.read_at, length-append (before b) head) in
      let split : b.storage ≡ pre ++ (tail ++ (crlf ++ (rest ++ behind b))) =
        l.splits
        ∙ ap (λ (s : Bytes). before b ++ (s ++ behind b))
            (h.text ∙ ap (λ (s : Bytes). s ++ (crlf ++ rest)) e ∙ append_assoc head tail _)
        ∙ ap (◌++◌ (before b)) (append_assoc head _ _ ∙ ap (◌++◌ head) (append_assoc tail _ _))
        ∙ sym (append_assoc (before b) head _) in
      (
        rest ++ behind b,
        ap (λ (n : ℕ). drop n b.storage) size ∙ ap (drop (length pre)) split ∙ drop-append pre _,
      )
