-- ===== src/Buffer.antt =====
-- inc/network/Buffer.hpp and src/network/Buffer.cpp: one contiguous vector of bytes with a read
-- and a write position. A `const char *` into the buffer is its offset from the vector's start.
-- Sums of sizes are taken to stay below 2 ^ 64, since the bytes they count are in memory. What
-- `shrink` is asked for is no such size: its sum wraps, and is taken to leave room for the eight
-- bytes that `makeSpace` adds.
pub mod Layout
pub mod Space
pub mod Writes
pub mod Reads
pub mod Search
pub mod Queue
mod Tests
use cloud_storage.Common.{
  ℕ, zero, suc, ◌+◌, ◌-◌, ◌%◌, ◌^◌, ◌≤◌, ◌<◌, Bool, true, false, ◌&&◌, List, [], ◌∷◌, ◌++◌, Option,
  none, some, Bytes, length, take, drop, replicate, copy_to, leb, ltb, ◌==◌, if◌then◌else◌,
  size_sub, Result, ok, failed_assert, ◌>>=◌, ◌>>◌, assert,
}
use mathlib.Core.Option

pub record Buffer : Type 0 where
  pub storage : Bytes
  pub read_index : ℕ
  pub write_index : ℕ

abbrev pub k_cheap_prepend : ℕ
k_cheap_prepend = 8

abbrev pub k_initial_size : ℕ
k_initial_size = 1024

-- `BUFFER_LEN`, the size of the stack buffer of `readFd`.
abbrev pub buffer_len : ℕ
buffer_len = 65536

unfoldable pub readable_bytes : Buffer → ℕ
readable_bytes b = size_sub b.write_index b.read_index

unfoldable pub writable_bytes : Buffer → ℕ
writable_bytes b = size_sub (length b.storage) b.write_index

unfoldable pub prependable_bytes : Buffer → ℕ
prependable_bytes b = b.read_index

-- The members as the constructor initialises them.
abbrev pub fresh : Buffer
fresh = record {
  storage = replicate (k_cheap_prepend + k_initial_size) 0;
  read_index = k_cheap_prepend;
  write_index = k_cheap_prepend;
}

-- The constructor allocates `kInitialSize`, whatever size it is asked for.
unfoldable pub new_buffer : ℕ → Result Buffer
unfolding readable_bytes writable_bytes prependable_bytes
new_buffer initial_size = do
  let b = fresh
  assert (readable_bytes b == 0)
  assert (writable_bytes b == initial_size)
  assert (prependable_bytes b == k_cheap_prepend)
  ok b

-- The bytes between `peek()` and `beginWrite()`.
unfoldable pub readable : Buffer → Bytes
readable b = take (b.write_index - b.read_index) (drop b.read_index b.storage)

unfoldable pub starts_crlf : Bytes → Bool
starts_crlf (c ∷ d ∷ rest) = c == b'\r' && d == b'\n'
starts_crlf _ = false

-- `std::search` for "\r\n", and `memchr`: the offset of the first match.
unfoldable pub search_crlf : Bytes → Option ℕ
unfolding starts_crlf
search_crlf [] = none
search_crlf (c ∷ cs) = if starts_crlf (c ∷ cs) then some 0 else Option.map suc (search_crlf cs)

unfoldable pub memchr : ℕ → Bytes → Option ℕ
memchr x [] = none
memchr x (c ∷ cs) = if c == x then some 0 else Option.map suc (memchr x cs)

unfoldable pub find_crlf : Buffer → Option ℕ
unfolding search_crlf readable
find_crlf b = Option.map (λ k. b.read_index + k) (search_crlf (readable b))

-- From a position `start` of the readable part.
unfoldable pub find_crlf_from : Buffer → ℕ → Result (Option ℕ)
unfolding search_crlf
find_crlf_from b start = do
  assert (leb b.read_index start)
  assert (leb start b.write_index)
  ok (
      Option.map (λ k. start + k)
        (search_crlf (take (b.write_index - start) (drop start b.storage))))

unfoldable pub find_eol : Buffer → Option ℕ
unfolding memchr readable
find_eol b = Option.map (λ k. b.read_index + k) (memchr b'\n' (readable b))

unfoldable pub find_eol_from : Buffer → ℕ → Result (Option ℕ)
unfolding memchr
find_eol_from b start = do
  assert (leb b.read_index start)
  assert (leb start b.write_index)
  ok (
      Option.map (λ k. start + k)
        (memchr b'\n' (take (b.write_index - start) (drop start b.storage))))

unfoldable pub retrieve_all : Buffer → Buffer
retrieve_all b = record b { read_index = k_cheap_prepend; write_index = k_cheap_prepend }

unfoldable pub retrieve : Buffer → ℕ → Result Buffer
unfolding readable_bytes retrieve_all
retrieve b len = do
  assert (leb len (readable_bytes b))
  ok (
      if ltb len (readable_bytes b)
      then record b { read_index = b.read_index + len }
      else retrieve_all b)

unfoldable pub retrieve_until : Buffer → ℕ → Result Buffer
unfolding retrieve
retrieve_until b end = do
  assert (leb b.read_index end)
  assert (leb end b.write_index)
  retrieve b (end - b.read_index)

unfoldable pub retrieve_as_string : Buffer → ℕ → Result (Bytes × Buffer)
unfolding readable_bytes
retrieve_as_string b len = do
  assert (leb len (readable_bytes b))
  let result = take len (drop b.read_index b.storage)
  rest ← retrieve b len
  ok (result, rest)

unfoldable pub retrieve_all_as_string : Buffer → Result (Bytes × Buffer)
unfolding retrieve_as_string
retrieve_all_as_string b = retrieve_as_string b (readable_bytes b)

-- `vector::resize`: new places hold zero.
unfoldable pub resize : ℕ → Bytes → Bytes
resize n xs = take n xs ++ replicate (n - length xs) 0

unfoldable pub make_space : Buffer → ℕ → Result Buffer
unfolding readable_bytes writable_bytes prependable_bytes resize readable copy_to
make_space b len =
    if ltb (writable_bytes b + prependable_bytes b) (len + k_cheap_prepend)
    then ok (record b { storage = resize (b.write_index + len) b.storage })
    else do
      assert (ltb k_cheap_prepend b.read_index)
      let count = readable_bytes b
      let moved = record b {
        storage = copy_to k_cheap_prepend (readable b) b.storage;
        read_index = k_cheap_prepend;
        write_index = k_cheap_prepend + count;
      }
      assert (count == readable_bytes moved)
      ok moved

unfoldable pub check_writable_space : Buffer → ℕ → Result Buffer
unfolding writable_bytes make_space
check_writable_space b len = do
  grown ← if ltb (writable_bytes b) len then make_space b len else ok b
  assert (leb len (writable_bytes grown))
  ok grown

unfoldable pub has_written : Buffer → ℕ → Result Buffer
unfolding writable_bytes
has_written b len = do
  assert (leb len (writable_bytes b))
  ok (record b { write_index = b.write_index + len })

unfoldable pub un_write : Buffer → ℕ → Result Buffer
unfolding readable_bytes
un_write b len = do
  assert (leb len (readable_bytes b))
  ok (record b { write_index = b.write_index - len })

unfoldable pub append : Buffer → Bytes → Result Buffer
unfolding check_writable_space has_written copy_to
append b chars = do
  grown ← check_writable_space b (length chars)
  has_written (record grown { storage = copy_to grown.write_index chars grown.storage })
      (length chars)

unfoldable pub prepend : Buffer → Bytes → Result Buffer
unfolding prependable_bytes copy_to
prepend b chars = do
  assert (leb (length chars) (prependable_bytes b))
  let start = b.read_index - length chars
  ok (record b { read_index = start; storage = copy_to start chars b.storage })

-- `other` takes the contents, and `swap` hands its fields to the buffer. `reserve` is any size_t, so
-- that the sum wraps.
unfoldable pub shrink : Buffer → ℕ → Result Buffer
unfolding new_buffer check_writable_space append readable_bytes readable
shrink b reserve = do
  other ← new_buffer k_initial_size
  roomy ← check_writable_space other ((readable_bytes b + reserve) % 2 ^ 64)
  append roomy (readable b)

-- What `readv` does: an error number, or the bytes it delivers, in order.
pub data ReadResult : Type 0 where
  failed : ℕ → ReadResult
  got : Bytes → ReadResult

-- The room that `readFd` offers: the writable part, and the stack buffer if that part is smaller.
unfoldable pub iov_room : Buffer → ℕ
unfolding writable_bytes
iov_room b =
    if ltb (writable_bytes b) buffer_len then writable_bytes b + buffer_len else writable_bytes b

-- The bytes of the second block: `extrabuf`, if it takes part.
unfoldable pub extra_bytes : Buffer → Bytes → Bytes
unfolding writable_bytes
extra_bytes b bytes =
    if ltb (writable_bytes b) buffer_len
    then take buffer_len (drop (writable_bytes b) bytes)
    else []

-- The result of `readFd` is the count read, or `savedErrno`.
unfoldable pub read_fd : Buffer → ReadResult → Result (Buffer × ReadResult)
unfolding writable_bytes append copy_to extra_bytes
read_fd b (failed errno) = ok (b, failed errno)
read_fd b (got bytes) =
    let writable = writable_bytes b in
    let filled = copy_to b.write_index (take writable bytes) b.storage in
    if leb (length bytes) writable
    then ok (record b { storage = filled; write_index = b.write_index + length bytes }, got bytes)
    else do
      let full = record b { storage = filled; write_index = length filled }
      b' ← append full (take (length bytes - writable) (extra_bytes b bytes))
      ok (b', got bytes)
