-- ===== src/Buffer/Writes.antt =====
-- The operations of Buffer that write: `append`, `prepend`, `shrink`, `readFd`.
use cloud_storage.Common.{
  ℕ, ◌+◌, ◌-◌, ◌%◌, ◌^◌, ◌≤◌, ◌<◌, ◌≡◌, refl, sym, ap, ◌∙◌, ◌++◌, [], inl, inr, Bool-cases, Bytes,
  length, take, drop, copy_to, copy_to_lem, arith, ltb, length-append, length-take, length-drop,
  take-append-drop, take-all, drop-append, append_assoc, append-nil, subst, size_sub_le, lt→ltb,
  le→leb, lt→leb_false, Result, ok, ◌>>=◌,
}
use cloud_storage.Buffer.{
  Buffer, readable, readable_bytes, writable_bytes, prependable_bytes, has_written, append, prepend,
  shrink, k_cheap_prepend, fresh, read_fd, ReadResult, failed, got, iov_room, extra_bytes,
  buffer_len,
}
use cloud_storage.Buffer.Layout.{
  IsValid, Layout, Layout-readable, Layout-length, Layout-IsValid, IsValid-Layout, before, behind,
  readable_bytes_lem, writable_bytes_lem,
}
use cloud_storage.Buffer.Space.{check_writable_space_lem, check_writable_space_room}

-- A valid buffer whose readable bytes are `body`.
pub record Holds (b : Buffer) (body : Bytes) : Type 0 where
  pub valid : IsValid b
  pub holds : readable b ≡ body

-- `b` with `chars` copied behind its readable bytes.
abbrev pub written : Buffer → Bytes → Buffer
written b chars = record b {
  storage = copy_to b.write_index chars b.storage;
  write_index = b.write_index + length chars;
}

module _ (b : Buffer) (chars : Bytes) (v : IsValid b)
    (room : length chars + b.write_index ≤ length b.storage) where
  written-Layout :
      Layout (written b chars) (before b) (readable b ++ chars) (drop (length chars) (behind b))
  written-Layout =
      let l = IsValid-Layout b v in
      let pre : Bytes = before b ++ readable b in
      let size : length pre ≡ b.write_index =
        omega (arith, length-append (before b) (readable b), l.write_at) in
      let fits : length chars ≤ length (behind b) = omega (arith, Layout-length l, l.write_at) in
      record {
        splits =
            ap (copy_to b.write_index chars) (l.splits ∙ sym (append_assoc (before b) _ _))
            ∙ ap (λ (n : ℕ). copy_to n chars (pre ++ behind b)) (sym size)
            ∙ copy_to_lem pre chars (behind b) fits
            ∙ append_assoc (before b) _ _
            ∙ ap (◌++◌ (before b)) (sym (append_assoc (readable b) _ _));
        read_at = l.read_at;
        write_at = omega (arith, l.write_at, length-append (readable b) chars);
      }

  pub length-written : length (written b chars).storage ≡ length b.storage
  length-written =
      let l = IsValid-Layout b v in
      omega (
        arith,
        Layout-length written-Layout,
        Layout-length l,
        length-append (readable b) chars,
        length-drop (length chars) (behind b),
        l.write_at,
      )

  pub written-Holds : Holds (written b chars) (readable b ++ chars)
  written-Holds = record {
    valid = Layout-IsValid written-Layout (omega (arith, length-written, v.roomy));
    holds = Layout-readable written-Layout;
  }

  has_written_lem :
      has_written (record b { storage = copy_to b.write_index chars b.storage }) (length chars)
      ≡ ok (written b chars)
  unfolding has_written writable_bytes
  has_written_lem =
      let w = v.within in
      let e : length (written b chars).storage ≡ length b.storage = length-written in
      rw (
        e,
        size_sub_le (length b.storage) b.write_index w,
        le→leb (length chars) (length b.storage - b.write_index) (omega arith),
      )

  -- With room at the end, `append` leaves the storage where it is.
  pub append_in_place : append b chars ≡ ok (written b chars)
  unfolding append
  append_in_place = rw (check_writable_space_room b (length chars) v room) has_written_lem

-- On a valid buffer `append` returns, whatever the room: no assertion fails, the buffer stays
-- valid, and its readable bytes are the old ones followed by the new ones.
pub append-Holds :
    (b : Buffer) (chars : Bytes)
    → IsValid b
    → (b' : Buffer) × (append b chars ≡ ok b') × Holds b' (readable b ++ chars)
unfolding append
append-Holds b chars v =
    let (g, e, r) = check_writable_space_lem b (length chars) v in
    let h = written-Holds g chars r.valid r.room in
    (
      written g chars,
      rw e (has_written_lem g chars r.valid r.room),
      record { valid = h.valid; holds = h.holds ∙ ap (λ (s : Bytes). s ++ chars) r.holds },
    )

-- On a valid buffer with as many prependable bytes, `prepend` returns a valid buffer whose
-- readable bytes are the new ones followed by the old ones.
pub prepend-Holds :
    (b : Buffer) (chars : Bytes)
    → IsValid b
    → length chars ≤ prependable_bytes b
    → (b' : Buffer) × (prepend b chars ≡ ok b') × Holds b' (chars ++ readable b)
unfolding prepend prependable_bytes
prepend-Holds b chars v h =
    let start = b.read_index - length chars in
    let l = IsValid-Layout b v in
    let p = take start (before b) in
    let q = drop start (before b) in
    let rest = readable b ++ behind b in
    let e1 = length-take start (before b) in
    let e2 = length-drop start (before b) in
    let e3 = length-append q rest in
    let b' : Buffer = record b { read_index = start; storage = copy_to start chars b.storage } in
    let cut : drop (length chars) (q ++ rest) ≡ rest =
      ap (λ (n : ℕ). drop n (q ++ rest)) (omega (arith, l.read_at)) ∙ drop-append q rest in
    let l' : Layout b' p (chars ++ readable b) (behind b) = record {
      splits =
          ap (copy_to start chars) (
            l.splits
            ∙ ap (λ (s : Bytes). s ++ rest) (sym (take-append-drop start (before b)))
            ∙ append_assoc p q rest)
          ∙ ap (λ (n : ℕ). copy_to n chars (p ++ (q ++ rest))) (omega (arith, l.read_at))
          ∙ copy_to_lem p chars (q ++ rest) (omega (arith, l.read_at))
          ∙ ap (λ (s : Bytes). p ++ (chars ++ s)) cut
          ∙ ap (◌++◌ p) (sym (append_assoc chars _ _));
      read_at = omega (arith, l.read_at);
      write_at = omega (arith, l.write_at, l.read_at, length-append chars (readable b));
    } in
    let size = Layout-length l in
    (
      b',
      rw (le→leb (length chars) b.read_index h),
      record {
        valid =
            Layout-IsValid l' (
              omega
                (arith, v.roomy, Layout-length l', l.read_at, length-append chars (readable b)));
        holds = Layout-readable l';
      },
    )

pub fresh-IsValid : IsValid fresh
fresh-IsValid = omega arith

readable-fresh : readable fresh ≡ []
unfolding readable
readable-fresh = refl

-- Whatever is reserved, the readable bytes are kept.
pub shrink_kept :
    (b : Buffer) (reserve : ℕ)
    → IsValid b
    → (b' : Buffer) × (shrink b reserve ≡ ok b') × Holds b' (readable b)
unfolding shrink
shrink_kept b reserve v =
    let asked = (readable_bytes b + reserve) % 2 ^ 64 in
    let (g, e, r) = check_writable_space_lem fresh asked fresh-IsValid in
    let (b', a, h) = append-Holds g (readable b) r.valid in
    (
      b',
      rw e a,
      record {
        valid = h.valid;
        holds = h.holds ∙ ap (λ (s : Bytes). s ++ readable b) (r.holds ∙ readable-fresh);
      },
    )

-- `shrink` returns a valid buffer with the same readable bytes and room for `reserve` more, where
-- the readable bytes, the reserve and the eight bytes in front come to less than 2 ^ 64.
pub shrink-Holds :
    (b : Buffer) (reserve : ℕ)
    → IsValid b
    → readable_bytes b + reserve + k_cheap_prepend < 2 ^ 64
    → (b' : Buffer) × (shrink b reserve ≡ ok b')
      × Holds b' (readable b)
      × (reserve ≤ writable_bytes b')
unfolding shrink
shrink-Holds b reserve v bound =
    let asked = (readable_bytes b + reserve) % 2 ^ 64 in
    let no_wrap : asked ≡ readable_bytes b + reserve = omega (arith, bound) in
    let (g, e, r) = check_writable_space_lem fresh asked fresh-IsValid in
    let n = readable_bytes_lem b v in
    let room : length (readable b) + g.write_index ≤ length g.storage =
      omega (arith, r.room, no_wrap) in
    let h = written-Holds g (readable b) r.valid room in
    let size = length-written g (readable b) r.valid room in
    (
      written g (readable b),
      rw e (append_in_place g (readable b) r.valid room),
      record {
        valid = h.valid;
        holds = h.holds ∙ ap (λ (s : Bytes). s ++ readable b) (r.holds ∙ readable-fresh);
      },
      omega (arith, writable_bytes_lem (written g (readable b)) h.valid, r.room, no_wrap),
    )

-- The bytes that a call of `readv` delivers.
abbrev pub delivered : ReadResult → Bytes
delivered (failed errno) = []
delivered (got bytes) = bytes

-- `readFd` when the writable part takes all.
read_fd_small :
    (b : Buffer) (bytes : Bytes)
    → IsValid b
    → length bytes ≤ writable_bytes b
    → read_fd b (got bytes) ≡ ok (written b bytes, got bytes)
unfolding read_fd
read_fd_small b bytes v h =
    rw (le→leb (length bytes) (writable_bytes b) h, take-all bytes (writable_bytes b) h)

-- `b` filled to its end with the first of the bytes.
abbrev filled : Buffer → Bytes → Buffer
filled b first = record b {
  storage = copy_to b.write_index first b.storage;
  write_index = length (copy_to b.write_index first b.storage);
}

read_fd_step :
    (b : Buffer) (bytes : Bytes)
    → writable_bytes b < length bytes
    → length bytes ≤ iov_room b
    → read_fd b (got bytes) ≡ (
        append (filled b (take (writable_bytes b) bytes)) (drop (writable_bytes b) bytes) >>= λ b'.
        ok (b', got bytes))
unfolding read_fd iov_room extra_bytes
read_fd_step b bytes h room =
    let n = writable_bytes b in
    let small : n < buffer_len = ground arith in
    let short : length bytes ≤ n + buffer_len = ground arith in
    let extra = drop n bytes in
    let e2 = length-drop n bytes in
    let cut : take (length bytes - n) (take buffer_len extra) ≡ extra =
      ap (take (length bytes - n)) (take-all extra buffer_len (omega arith))
      ∙ take-all extra _ (omega arith) in
    rw (lt→leb_false (length bytes) n h, lt→ltb n buffer_len small, cut)

-- `readFd` when bytes are left over in `extrabuf`.
read_fd_large :
    (b : Buffer) (bytes : Bytes)
    → IsValid b
    → writable_bytes b < length bytes
    → length bytes ≤ iov_room b
    → (b' : Buffer) × (read_fd b (got bytes) ≡ ok (b', got bytes)) × Holds b' (readable b ++ bytes)
read_fd_large b bytes v h room =
    let n = writable_bytes b in
    let w = writable_bytes_lem b v in
    let first = take n bytes in
    let extra = drop n bytes in
    let e1 = length-take n bytes in
    let fits : length first + b.write_index ≤ length b.storage = omega (arith, v.within) in
    let h1 = written-Holds b first v fits in
    let full = filled b first in
    let at : b.write_index + length first ≡ length full.storage =
      omega (arith, length-written b first v fits, v.within) in
    let same : written b first ≡ full =
      λ i. record b { storage = full.storage; write_index = at i } in
    let h2 : Holds full (readable b ++ first) =
      subst (λ (c : Buffer). Holds c (readable b ++ first)) same h1 in
    let (b', e, h3) = append-Holds full extra h2.valid in
    (
      b',
      read_fd_step b bytes h room ∙ ap (λ (r : Result Buffer). r >>= λ c. ok (c, got bytes)) e,
      record {
        valid = h3.valid;
        holds =
            h3.holds
            ∙ ap (λ (s : Bytes). s ++ extra) h2.holds
            ∙ append_assoc (readable b) first extra
            ∙ ap (◌++◌ (readable b)) (take-append-drop n bytes);
      },
    )

-- If `readv` delivers no more than the room that it is offered, `readFd` returns its result, and
-- a valid buffer whose readable bytes are the old ones followed by those delivered (none when the
-- call fails).
pub read_fd-Holds :
    (b : Buffer) (r : ReadResult)
    → IsValid b
    → length (delivered r) ≤ iov_room b
    → (b' : Buffer) × (read_fd b r ≡ ok (b', r)) × Holds b' (readable b ++ delivered r)
unfolding read_fd
read_fd-Holds b (failed errno) v h =
    (b, refl, record { valid = v; holds = sym (append-nil (readable b)) })
read_fd-Holds b (got bytes) v h = elim (Bool-cases (ltb (writable_bytes b) (length bytes))) [
  | inl more ↦ read_fd_large b bytes v (ground arith) h
  | inr less ↦
      let le : length bytes ≤ writable_bytes b = ground arith in
      (
        written b bytes,
        read_fd_small b bytes v le,
        written-Holds b bytes v (omega (arith, writable_bytes_lem b v, v.within)),
      )
]
