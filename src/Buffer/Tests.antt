-- ===== src/Buffer/Tests.antt =====
-- Runs of the buffer's code, and its theorems at concrete inputs.
use cloud_storage.Common.{
  ◌≡◌, ◌≤◌, ◌+◌, refl, [], ◌∷◌, ◌++◌, none, some, Bytes, codes, arith, length, ok, failed_assert,
}
use cloud_storage.Common.{ℕ, List, ltb, true, ◌-◌, ◌^◌, ◌>>=◌}
use cloud_storage.Buffer.{
  Buffer, readable, new_buffer, fresh, append, prepend, shrink, read_fd, got, find_crlf,
  readable_bytes, writable_bytes, prependable_bytes, iov_room,
}
use cloud_storage.Buffer.Layout.{IsValid}
use cloud_storage.Buffer.Writes.{Holds, fresh-IsValid, prepend-Holds, shrink-Holds, read_fd-Holds}
use cloud_storage.Buffer.Search.{crlf, IsCrlfFree, find_crlf-first}
use cloud_storage.Buffer.Queue.{
  Call, appends, reads, retrieves, un_writes, shrinks, run, queue_run, run-Holds,
}

-- A buffer of eleven bytes, with "b\r\nc" to read at position 5 and room for two more.
abbrev sample : Buffer
sample = record { storage = codes "....ab\r\nc..."; read_index = 5; write_index = 9 }

sample-IsValid : IsValid sample
sample-IsValid = omega arith

-- A size other than 1024 fails the constructor's own assertion.
new_buffer_of_other_size : new_buffer 4096 ≡ failed_assert
unfolding new_buffer
new_buffer_of_other_size = refl

new_buffer_of_default_size : new_buffer 1024 ≡ ok fresh
unfolding new_buffer
new_buffer_of_default_size = refl

-- Growing, and then moving to the front.
append_grows :
    append sample (codes "0123")
    ≡ ok (record { storage = codes "....ab\r\nc0123"; read_index = 5; write_index = 13 })
unfolding append
append_grows = refl

find_crlf_runs : find_crlf sample ≡ some 6
unfolding find_crlf
find_crlf_runs = refl

abbrev calls : List Call
calls =
    appends (codes "hello")
    ∷ retrieves 2
    ∷ reads (got (codes " you"))
    ∷ un_writes 1
    ∷ shrinks 9
    ∷ []

run-Holds_example : (b' : Buffer) × (run fresh calls ≡ ok b') × Holds b' (codes "llo yo")
unfolding queue_run readable
run-Holds_example = run-Holds fresh calls (codes "llo yo") fresh-IsValid refl

prepend-Holds_example :
    (b' : Buffer) × (prepend sample (codes "xy") ≡ ok b') × Holds b' (codes "xyb\r\nc")
unfolding readable prependable_bytes
prepend-Holds_example = prepend-Holds sample (codes "xy") sample-IsValid (omega arith)

shrink-Holds_example :
    (b' : Buffer) × (shrink sample 2000 ≡ ok b')
    × Holds b' (readable sample)
    × (2000 ≤ writable_bytes b')
unfolding readable_bytes
shrink-Holds_example = shrink-Holds sample 2000 sample-IsValid (omega arith)

-- A reserve whose sum wraps: `shrink` returns without the room.
shrink_wraps :
    (do b ← shrink sample (2 ^ 64 - 1); ok (ltb (writable_bytes b) (2 ^ 64 - 1))) ≡ ok true
unfolding shrink writable_bytes
shrink_wraps = refl

read_fd-Holds_example :
    (b' : Buffer) × (read_fd sample (got (codes "12345")) ≡ ok (b', got (codes "12345")))
    × Holds b' (codes "b\r\nc12345")
unfolding readable iov_room
read_fd-Holds_example = read_fd-Holds sample (got (codes "12345")) sample-IsValid (omega arith)

find_crlf-first_example :
    ((p : ℕ)
      → find_crlf sample ≡ some p
      → (pre : Bytes) × (post : Bytes) × (readable sample ≡ pre ++ (crlf ++ post))
        × (p ≡ 5 + length pre)
        × IsCrlfFree pre)
    × (find_crlf sample ≡ none → IsCrlfFree (readable sample))
find_crlf-first_example = find_crlf-first sample
