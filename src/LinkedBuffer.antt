-- ===== src/LinkedBuffer.antt =====
-- inc/network/LinkedBuffer.hpp: blocks of memory, each with a part that can be read.
pub mod Contents
pub mod Loops
pub mod Shrinking
pub mod Queue
mod Tests
use cloud_storage.Common.{
  ℕ, zero, suc, ◌+◌, ◌-◌, Bool, true, false, ◌||◌, List, [], ◌∷◌, ◌++◌, Option, none, some, Bytes,
  length, take, drop, replicate, copy_to, min, max, ltb, leb, ◌==◌, if◌then◌else◌, Result, ok,
  failed_assert, out_of_fuel, ◌>>=◌, ◌>>◌, assert,
}

abbrev pub linked_block_size : ℕ
linked_block_size = 4096

abbrev pub linked_prepend_size : ℕ
linked_prepend_size = 8

-- The bytes of new memory are taken to be 0; none of them is read.
pub record Block : Type 0 where
  pub data_bytes : Bytes
  pub prependable : ℕ
  pub readable : ℕ
  pub writable : ℕ
  pub capacity : ℕ

unfoldable pub new_block : ℕ → Block
new_block cap = record {
  data_bytes = replicate cap 0;
  prependable = linked_prepend_size;
  readable = 0;
  writable = cap - linked_prepend_size;
  capacity = cap;
}

-- The bytes from `peek()` to `beginWrite()`.
unfoldable pub window : Block → Bytes
window b = take b.readable (drop b.prependable b.data_bytes)

pub record LinkedBuffer : Type 0 where
  pub blocks : List Block
  pub total_readable : ℕ

abbrev pub new_linked_buffer : LinkedBuffer
new_linked_buffer = record { blocks = []; total_readable = 0 }

unfoldable pub block_writable : List Block → ℕ
block_writable [] = 0
block_writable (b ∷ bs) = b.writable + block_writable bs

unfoldable pub block_prependable : List Block → ℕ
block_prependable [] = 0
block_prependable (b ∷ bs) = b.prependable + block_prependable bs

-- `memcpy` to `beginWrite()` and the two counters.
unfoldable pub write_block : Block → Bytes → Block
unfolding copy_to
write_block b bytes = record b {
  data_bytes = copy_to (b.prependable + b.readable) bytes b.data_bytes;
  readable = b.readable + length bytes;
  writable = b.writable - length bytes;
}

abbrev pub write_len : Block → Bytes → ℕ
write_len b bytes = min (length bytes) b.writable

abbrev pub fitting : Bytes → ℕ
fitting bytes = max linked_block_size (length bytes)

-- The last block, or a new one behind it when it is full, takes what it has room for. The second
-- part is the number of bytes that it took.
unfoldable pub write_back : List Block → Bytes → List Block × ℕ
unfolding write_block new_block
write_back [] bytes =
    let b = new_block (fitting bytes) in
    (write_block b (take (write_len b bytes) bytes) ∷ [], write_len b bytes)
write_back (b ∷ []) bytes =
    let n = new_block (fitting bytes) in
    elim (b.writable == 0) [
      | true ↦ (b ∷ write_block n (take (write_len n bytes) bytes) ∷ [], write_len n bytes)
      | false ↦ (write_block b (take (write_len b bytes) bytes) ∷ [], write_len b bytes)
    ]
write_back (b ∷ c ∷ bs) bytes = (b ∷ (write_back (c ∷ bs) bytes).0, (write_back (c ∷ bs) bytes).1)

-- The loop of `append`, with a round for each byte at most.
unfoldable pub append_loop : ℕ → LinkedBuffer → Bytes → Result LinkedBuffer
unfolding write_back
append_loop rounds b [] = ok b
append_loop zero b (x ∷ bytes) = out_of_fuel
append_loop (suc rounds) b (x ∷ bytes) =
    append_loop rounds
      (record {
        blocks = (write_back b.blocks (x ∷ bytes)).0;
        total_readable = b.total_readable + (write_back b.blocks (x ∷ bytes)).1;
      })
      (drop (write_back b.blocks (x ∷ bytes)).1 (x ∷ bytes))

unfoldable pub append : LinkedBuffer → Bytes → Result LinkedBuffer
unfolding append_loop
append b bytes = append_loop (length bytes) b bytes

abbrev pub skip_bytes : Block → ℕ → Block
skip_bytes b n = record b { readable = b.readable - n; prependable = b.prependable + n }

-- The loop of `retrieve`, on the blocks and `total_readable_`.
unfoldable pub retrieve_blocks : ℕ → List Block → ℕ → LinkedBuffer
retrieve_blocks zero blocks total = record { blocks = blocks; total_readable = total }
retrieve_blocks (suc n) [] total = record { blocks = []; total_readable = total }
retrieve_blocks (suc n) (b ∷ bs) total = elim (leb b.readable (suc n)) [
  | true ↦ retrieve_blocks (suc n - b.readable) bs (total - b.readable)
  | false ↦ record { blocks = skip_bytes b (suc n) ∷ bs; total_readable = total - suc n }
]

unfoldable pub retrieve : LinkedBuffer → ℕ → Result LinkedBuffer
unfolding retrieve_blocks
retrieve b len = do
  assert (leb len b.total_readable)
  ok (retrieve_blocks len b.blocks b.total_readable)

unfoldable pub retrieve_all : LinkedBuffer → LinkedBuffer
retrieve_all b = record { blocks = []; total_readable = 0 }

-- The loop of `retrieveAsString`: the text, and the buffer that is left.
unfoldable pub read_blocks : ℕ → List Block → ℕ → Bytes × LinkedBuffer
unfolding window
read_blocks zero blocks total = ([], record { blocks = blocks; total_readable = total })
read_blocks (suc n) [] total = ([], record { blocks = []; total_readable = total })
read_blocks (suc n) (b ∷ bs) total =
    let rest = read_blocks (suc n - b.readable) bs (total - b.readable) in
    elim (leb b.readable (suc n)) [
      | true ↦ (window b ++ rest.0, rest.1)
      | false ↦ (
        take (suc n) (window b),
        record { blocks = skip_bytes b (suc n) ∷ bs; total_readable = total - suc n },
      )
    ]

unfoldable pub retrieve_as_string : LinkedBuffer → ℕ → Result (Bytes × LinkedBuffer)
unfolding read_blocks
retrieve_as_string b len = do
  assert (leb len b.total_readable)
  ok (read_blocks len b.blocks b.total_readable)

unfoldable pub retrieve_all_as_string : LinkedBuffer → Result (Bytes × LinkedBuffer)
unfolding retrieve_as_string
retrieve_all_as_string b = retrieve_as_string b b.total_readable

-- New memory of a block's capacity, with the readable bytes copied to their place.
abbrev pub new_memory : Block → Block
new_memory b = record b { data_bytes = copy_to b.prependable (window b) (replicate b.capacity 0) }

unfoldable pub block_shrink : Block → Block
unfolding copy_to window
block_shrink b =
    let cap = b.prependable + b.readable + 1 in
    if b.prependable + b.readable + b.writable == b.capacity
    then new_memory (record b { capacity = cap; writable = cap - b.prependable - b.readable })
    else b

-- The loop of `shrink`.
unfoldable pub shrink_blocks : List Block → List Block
unfolding block_shrink
shrink_blocks [] = []
shrink_blocks (b ∷ bs) =
    let rest = shrink_blocks bs in if b.readable == 0 then rest else block_shrink b ∷ rest

-- More room in the last block.
unfoldable pub reserve_back : ℕ → List Block → List Block
unfolding copy_to window
reserve_back need [] = []
reserve_back need (b ∷ []) =
    new_memory (record b { writable = b.writable + need; capacity = b.capacity + need }) ∷ []
reserve_back need (b ∷ c ∷ bs) = b ∷ reserve_back need (c ∷ bs)

unfoldable pub shrink : LinkedBuffer → ℕ → LinkedBuffer
unfolding shrink_blocks reserve_back block_writable
shrink b reserve =
    let bs = shrink_blocks b.blocks in
    if ltb (block_writable bs) reserve
    then record b { blocks = reserve_back (reserve - block_writable bs) bs }
    else record b { blocks = bs }

-- What is returned and the buffer, where `writev` answers `some n`, or `none` for an error.
unfoldable pub write_fd : LinkedBuffer → Option ℕ → Result (Option ℕ × LinkedBuffer)
unfolding retrieve
write_fd b answer = if b.total_readable == 0 then ok (some 0, b) else elim answer [
  | none ↦ ok (none, b)
  | some zero ↦ ok (some 0, b)
  | some (suc n) ↦ do b' ← retrieve b (suc n); ok (some (suc n), b')
]

-- `prepend`, which leaves the number of readable bytes.
unfoldable pub prepend : LinkedBuffer → Bytes → Result LinkedBuffer
unfolding copy_to
prepend b [] = ok b
prepend b (x ∷ bytes) = elim b.blocks [
  | [] ↦ failed_assert
  | front ∷ bs ↦ do
    let len = length (x ∷ bytes)
    assert (leb len front.prependable)
    let front' : Block = record front {
      prependable = front.prependable - len;
      data_bytes = copy_to (front.prependable - len) (x ∷ bytes) front.data_bytes;
    }
    ok (record b { blocks = front' ∷ bs })
]
