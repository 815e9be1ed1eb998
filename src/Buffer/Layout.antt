-- ===== src/Buffer/Layout.antt =====
-- How the bytes of a buffer lie in its storage: what is before the readable part, the readable
-- part, and what is behind it. The proofs about each operation work on these three lists.
use cloud_storage.Common.{
  ◌+◌, ◌-◌, ◌≤◌, ◌≡◌, sym, ap, ◌∙◌, ◌++◌, Bytes, length, take, drop, arith, length-append,
  length-take, length-drop, take-append, drop-append, take-append-drop, size_sub_le,
}
use cloud_storage.Buffer.{Buffer, readable, readable_bytes, writable_bytes, k_cheap_prepend}

-- The invariant of the class.
pub record IsValid (b : Buffer) : Type 0 where
  pub ordered : b.read_index ≤ b.write_index
  pub within : b.write_index ≤ length b.storage
  pub roomy : k_cheap_prepend ≤ length b.storage

pub record Layout (b : Buffer) (pre body post : Bytes) : Type 0 where
  pub splits : b.storage ≡ pre ++ (body ++ post)
  pub read_at : b.read_index ≡ length pre
  pub write_at : b.write_index ≡ length pre + length body

pub length-readable : (b : Buffer) → IsValid b → length (readable b) ≡ b.write_index - b.read_index
unfolding readable
length-readable b v = omega (
  arith,
  length-take (b.write_index - b.read_index) (drop b.read_index b.storage),
  length-drop b.read_index b.storage,
)

pub readable_bytes_lem : (b : Buffer) → IsValid b → readable_bytes b ≡ length (readable b)
unfolding readable_bytes
readable_bytes_lem b v = rw (size_sub_le _ _ v.ordered) (sym (length-readable b v))

pub writable_bytes_lem :
    (b : Buffer) → IsValid b → writable_bytes b ≡ length b.storage - b.write_index
unfolding writable_bytes
writable_bytes_lem b v = size_sub_le _ _ v.within

module _ {b : Buffer} {pre body post : Bytes} (l : Layout b pre body post) where
  pub Layout-readable : readable b ≡ body
  unfolding readable
  Layout-readable =
      let n : b.write_index - b.read_index ≡ length body = omega (arith, l.read_at, l.write_at) in
      rw (n, l.read_at, l.splits, drop-append pre (body ++ post)) (take-append body post)

  pub Layout-length : length b.storage ≡ length pre + length body + length post
  Layout-length =
      ap length l.splits ∙ length-append pre (body ++ post) ∙ omega (arith, length-append body post)

  pub Layout-IsValid : k_cheap_prepend ≤ length b.storage → IsValid b
  Layout-IsValid h = record {
    ordered = omega (arith, l.read_at, l.write_at);
    within = omega (arith, l.write_at, Layout-length);
    roomy = h;
  }

-- A valid buffer has the layout that its positions show.
abbrev pub before : Buffer → Bytes
before b = take b.read_index b.storage

abbrev pub behind : Buffer → Bytes
behind b = drop (b.write_index - b.read_index) (drop b.read_index b.storage)

pub IsValid-Layout : (b : Buffer) → IsValid b → Layout b (before b) (readable b) (behind b)
unfolding readable
IsValid-Layout b v = record {
  splits =
      sym (take-append-drop b.read_index b.storage)
      ∙ ap (◌++◌ (before b)) (sym (take-append-drop _ (drop b.read_index b.storage)));
  read_at = omega (arith, length-take b.read_index b.storage);
  write_at = omega (
    arith,
    length-take b.read_index b.storage,
    length-take (b.write_index - b.read_index) (drop b.read_index b.storage),
    length-drop b.read_index b.storage,
  );
}
