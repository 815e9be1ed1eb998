-- ===== src/Buffer/Space.antt =====
-- `makeSpace` and `checkWritableSpace`: how a buffer gets room at its end.
use cloud_storage.Common.{
  ℕ, ◌+◌, ◌-◌, ◌≤◌, ◌<◌, ◌≡◌, refl, sym, ap, ◌∙◌, ◌++◌, inl, inr, Bool-cases, Bytes, length, take,
  drop, replicate, copy_to, copy_to_lem, arith, ltb, length-append, length-take, length-drop,
  length-replicate, take-append-drop, take-all, append_assoc, lt→ltb, le→leb, le→ltb_false, ok,
  ==_iff,
}
use cloud_storage.Buffer.{
  Buffer, readable, readable_bytes, writable_bytes, prependable_bytes, k_cheap_prepend, resize,
  make_space, check_writable_space,
}
use cloud_storage.Buffer.Layout.{
  IsValid, Layout, Layout-readable, Layout-length, Layout-IsValid, IsValid-Layout, before, behind,
  readable_bytes_lem, writable_bytes_lem, length-readable,
}

-- A valid buffer whose readable bytes are `body`, with room for `len` more bytes.
pub record Roomy (b : Buffer) (body : Bytes) (len : ℕ) : Type 0 where
  pub valid : IsValid b
  pub holds : readable b ≡ body
  pub room : len + b.write_index ≤ length b.storage

Layout-Roomy :
    {b : Buffer} {pre body post : Bytes} (len : ℕ)
    → Layout b pre body post
    → k_cheap_prepend ≤ length b.storage
    → len ≤ length post
    → Roomy b body len
Layout-Roomy len l h k = record {
  valid = Layout-IsValid l h;
  holds = Layout-readable l;
  room = omega (arith, Layout-length l, l.write_at);
}

-- The first branch of `makeSpace`.
grown : Buffer → ℕ → Buffer
grown b len = record b { storage = resize (b.write_index + len) b.storage }

grown-Roomy :
    (b : Buffer) (len : ℕ)
    → IsValid b
    → length b.storage ≤ b.write_index + len
    → Roomy (grown b len) (readable b) len
unfolding grown resize
grown-Roomy b len v h =
    let zeros : Bytes = replicate (b.write_index + len - length b.storage) 0 in
    let l = IsValid-Layout b v in
    let size = length-replicate {A = ℕ} (b.write_index + len - length b.storage) 0 in
    let whole = take-all b.storage (b.write_index + len) h in
    let l' : Layout (grown b len) (before b) (readable b) (behind b ++ zeros) = record {
      splits = rw (whole) (
          ap (λ (s : Bytes). s ++ zeros) l.splits
          ∙ append_assoc (before b) _ zeros
          ∙ ap (◌++◌ (before b)) (append_assoc (readable b) (behind b) zeros));
      read_at = l.read_at;
      write_at = l.write_at;
    } in
    Layout-Roomy len l'
      (omega
        (arith, v.roomy, Layout-length l, Layout-length l', length-append {0} (behind b) zeros))
      (omega (arith, length-append {0} (behind b) zeros, size, Layout-length l, l.write_at))

-- The second branch of `makeSpace`: the readable bytes move to the front.
moved : Buffer → Buffer
moved b = record b {
  storage = copy_to k_cheap_prepend (readable b) b.storage;
  read_index = k_cheap_prepend;
  write_index = k_cheap_prepend + readable_bytes b;
}

moved-Roomy :
    (b : Buffer) (len : ℕ)
    → IsValid b
    → k_cheap_prepend ≤ b.read_index
    → len + k_cheap_prepend + b.write_index ≤ length b.storage + b.read_index
    → Roomy (moved b) (readable b) len
unfolding moved
moved-Roomy b len v h room =
    let front : Bytes = take k_cheap_prepend b.storage in
    let rest : Bytes = drop k_cheap_prepend b.storage in
    let size : length front ≡ k_cheap_prepend =
      omega (arith, length-take {0} k_cheap_prepend b.storage, v.roomy) in
    let fits : length (readable b) ≤ length rest =
      omega (arith, length-drop {0} k_cheap_prepend b.storage, length-readable b v, v.within) in
    let l : Layout (moved b) front (readable b) (drop (length (readable b)) rest) = record {
      splits =
          ap (copy_to k_cheap_prepend (readable b))
            (sym (take-append-drop k_cheap_prepend b.storage))
          ∙ ap (λ (n : ℕ). copy_to n (readable b) (front ++ rest)) (sym size)
          ∙ copy_to_lem front (readable b) rest fits;
      read_at = sym size;
      write_at = omega (arith, size, readable_bytes_lem b v);
    } in
    let e1 = length-drop k_cheap_prepend b.storage in
    let e2 = length-readable b v in
    let e3 = length-drop (length (readable b)) rest in
    Layout-Roomy len l (omega (arith, Layout-length l)) (omega arith)

-- A call of `makeSpace` with too little room returns, whichever branch it takes.
make_space_lem :
    (b : Buffer) (len : ℕ)
    → IsValid b
    → writable_bytes b < len
    → (b' : Buffer) × (make_space b len ≡ ok b') × Roomy b' (readable b) len
unfolding make_space grown moved prependable_bytes
make_space_lem b len v h =
    let w = writable_bytes_lem b v in
    elim (Bool-cases (ltb (writable_bytes b + b.read_index) (len + k_cheap_prepend))) [
      | inl small ↦ (grown b len, rw small, grown-Roomy b len v (omega (arith, v.within)))
      | inr large ↦
          let le : len + k_cheap_prepend ≤ writable_bytes b + b.read_index = ground arith in
          let count = readable_bytes_lem b v in
          let r = moved-Roomy b len v (omega arith) (omega (arith, v.within)) in
          let front = lt→ltb k_cheap_prepend b.read_index (omega arith) in
          let same : readable_bytes b ≡ readable_bytes (moved b) =
            count ∙ ap length (sym r.holds) ∙ sym (readable_bytes_lem (moved b) r.valid) in
          (moved b, rw (large, front, (==_iff _ _).1 same), r)
    ]

pub check_writable_space_lem :
    (b : Buffer) (len : ℕ)
    → IsValid b
    → (b' : Buffer) × (check_writable_space b len ≡ ok b') × Roomy b' (readable b) len
unfolding check_writable_space
check_writable_space_lem b len v = elim (Bool-cases (ltb (writable_bytes b) len)) [
  | inl short ↦
      let (b', e, r) = make_space_lem b len v (ground arith) in
      let w = writable_bytes_lem b' r.valid in
      (b', rw (short, e, le→leb len (writable_bytes b') (omega (arith, r.room))), r)
  | inr enough ↦
      let w = writable_bytes_lem b v in
      let le : len ≤ writable_bytes b = ground arith in
      (
        b,
        rw (enough, le→leb len (writable_bytes b) le),
        record { valid = v; holds = refl; room = omega (arith, v.within) },
      )
]

-- With room at the end nothing changes.
pub check_writable_space_room :
    (b : Buffer) (len : ℕ)
    → IsValid b
    → len + b.write_index ≤ length b.storage
    → check_writable_space b len ≡ ok b
unfolding check_writable_space
check_writable_space_room b len v h =
    let w = writable_bytes_lem b v in
    let le : len ≤ writable_bytes b = omega arith in
    rw (le→ltb_false (writable_bytes b) len le, le→leb len (writable_bytes b) le)
