-- ===== src/Buffer/Reads.antt =====
-- The operations of Buffer that consume: `retrieve` and its variants, `unWrite`.
use cloud_storage.Common.{
  ℕ, ◌+◌, ◌-◌, ◌≤◌, ◌≡◌, refl, sym, ap, ◌∙◌, ◌++◌, [], inl, inr, Bool-cases, Bytes, length, take,
  drop, arith, ltb, length-append, length-take, length-drop, take-append-drop, drop-all,
  append_assoc, le→leb, ok, take-take,
}
use cloud_storage.Buffer.{
  Buffer, readable, readable_bytes, retrieve, retrieve_all, retrieve_until, retrieve_as_string,
  un_write,
}
use cloud_storage.Buffer.Layout.{
  IsValid, Layout, Layout-readable, Layout-IsValid, IsValid-Layout, before, behind,
  readable_bytes_lem, length-readable,
}
use cloud_storage.Buffer.Writes.{Holds}

pub retrieve_all-Holds : (b : Buffer) → IsValid b → Holds (retrieve_all b) []
unfolding retrieve_all readable
retrieve_all-Holds b v = record { valid = omega (arith, v.roomy); holds = refl }

-- The read position moves past `len` bytes.
skipped-Holds :
    (b : Buffer) (len : ℕ)
    → IsValid b
    → len ≤ length (readable b)
    → Holds (record b { read_index = b.read_index + len }) (drop len (readable b))
skipped-Holds b len v h =
    let l = IsValid-Layout b v in
    let first = take len (readable b) in
    let e1 = length-take len (readable b) in
    let e2 = length-drop len (readable b) in
    let l' : Layout (record b { read_index = b.read_index + len }) (before b ++ first)
        (drop len (readable b)) (behind b) =
      record {
        splits =
            l.splits
            ∙ ap (λ (s : Bytes). before b ++ (s ++ behind b))
                (sym (take-append-drop len (readable b)))
            ∙ ap (◌++◌ (before b)) (append_assoc first _ _)
            ∙ sym (append_assoc (before b) first _);
        read_at = omega (arith, l.read_at, length-append (before b) first);
        write_at = omega (arith, l.write_at, length-append (before b) first);
      } in
    record { valid = Layout-IsValid l' v.roomy; holds = Layout-readable l' }

-- `retrieve` of at most the readable bytes returns a valid buffer without the first `len` of them.
pub retrieve-Holds :
    (b : Buffer) (len : ℕ)
    → IsValid b
    → len ≤ length (readable b)
    → (b' : Buffer) × (retrieve b len ≡ ok b') × Holds b' (drop len (readable b))
unfolding retrieve
retrieve-Holds b len v h =
    let n = readable_bytes_lem b v in
    let fits = le→leb len (readable_bytes b) (omega arith) in
    elim (Bool-cases (ltb len (readable_bytes b))) [
      | inl part ↦
          (record b { read_index = b.read_index + len }, rw (fits, part), skipped-Holds b len v h)
      | inr all ↦
          let le : readable_bytes b ≤ len = ground arith in
          let r = retrieve_all-Holds b v in
          (
            retrieve_all b,
            rw (fits, all),
            record {
              valid = r.valid;
              holds = r.holds ∙ sym (drop-all (readable b) len (omega arith));
            },
          )
    ]

-- `retrieveUntil` a position `len` bytes behind `peek()` is `retrieve` of `len` bytes.
pub retrieve_until-retrieve :
    (b : Buffer) (len : ℕ)
    → IsValid b
    → len ≤ length (readable b)
    → retrieve_until b (b.read_index + len) ≡ retrieve b len
unfolding retrieve_until
retrieve_until-retrieve b len v h =
    let n = length-readable b v in
    let o = v.ordered in
    let e : b.read_index + len - b.read_index ≡ len = omega arith in
    rw (
      le→leb b.read_index (b.read_index + len) (omega arith),
      le→leb (b.read_index + len) b.write_index (omega arith),
      e,
    )

pub retrieve_until-Holds :
    (b : Buffer) (len : ℕ)
    → IsValid b
    → len ≤ length (readable b)
    → (b' : Buffer) × (retrieve_until b (b.read_index + len) ≡ ok b')
      × Holds b' (drop len (readable b))
retrieve_until-Holds b len v h =
    let (b', e, r) = retrieve-Holds b len v h in (b', retrieve_until-retrieve b len v h ∙ e, r)

-- What `retrieveAsString` copies out is the front of the readable bytes.
copied_lem :
    (b : Buffer) (len : ℕ)
    → IsValid b
    → len ≤ length (readable b)
    → take len (drop b.read_index b.storage) ≡ take len (readable b)
unfolding readable
copied_lem b len v h = sym (
    take-take len (b.write_index - b.read_index) (drop b.read_index b.storage)
      (omega (arith, length-readable b v)))

-- `retrieveAsString` splits the readable bytes: it returns the first `len` and leaves the rest.
retrieve_as_string-Holds :
    (b : Buffer) (len : ℕ)
    → IsValid b
    → len ≤ length (readable b)
    → (b' : Buffer) × (retrieve_as_string b len ≡ ok (take len (readable b), b'))
      × Holds b' (drop len (readable b))
unfolding retrieve_as_string
retrieve_as_string-Holds b len v h =
    let (b', e, r) = retrieve-Holds b len v h in
    let n = readable_bytes_lem b v in
    (b', rw (le→leb len (readable_bytes b) (omega arith), e, copied_lem b len v h), r)

-- `unWrite` of at most the readable bytes drops the last `len` of them.
pub un_write-Holds :
    (b : Buffer) (len : ℕ)
    → IsValid b
    → len ≤ length (readable b)
    → (b' : Buffer) × (un_write b len ≡ ok b')
      × Holds b' (take (length (readable b) - len) (readable b))
unfolding un_write
un_write-Holds b len v h =
    let l = IsValid-Layout b v in
    let kept = take (length (readable b) - len) (readable b) in
    let cut = drop (length (readable b) - len) (readable b) in
    let e1 = length-take (length (readable b) - len) (readable b) in
    let b' : Buffer = record b { write_index = b.write_index - len } in
    let n = readable_bytes_lem b v in
    let l' : Layout b' (before b) kept (cut ++ behind b) = record {
      splits =
          l.splits
          ∙ ap (λ (s : Bytes). before b ++ (s ++ behind b)) (sym (take-append-drop _ (readable b)))
          ∙ ap (◌++◌ (before b)) (append_assoc kept cut (behind b));
      read_at = l.read_at;
      write_at = omega (arith, l.write_at);
    } in
    (
      b',
      rw (le→leb len (readable_bytes b) (omega arith)),
      record { valid = Layout-IsValid l' v.roomy; holds = Layout-readable l' },
    )
