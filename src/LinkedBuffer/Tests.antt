-- ===== src/LinkedBuffer/Tests.antt =====
-- Runs of the linked buffer's code, and its theorems at concrete inputs.
use cloud_storage.Common.{◌>>=◌, ◌≡◌, refl, [], ◌∷◌, codes, ok}
use cloud_storage.LinkedBuffer.{LinkedBuffer, prepend, new_linked_buffer, retrieve_as_string}
use cloud_storage.LinkedBuffer.Queue.{
  appends, reads, retrieves, reads_all, shrinks, writes, run, queue_run, run-queue,
}

-- A block with six bytes in front of the text "cd", and room for two more.
abbrev sample : LinkedBuffer
sample = record {
  blocks =
      record {
        data_bytes = codes "......cd..";
        prependable = 6;
        readable = 2;
        writable = 2;
        capacity = 10;
      }
      ∷ [];
  total_readable = 2;
}

-- What is put in front pushes the last bytes out of what can be read.

prepend_drops_the_end :
    (do b ← prepend sample (codes "ab"); (text, rest) ← retrieve_as_string b 2; ok text)
    ≡ ok (codes "ab")
unfolding prepend retrieve_as_string
prepend_drops_the_end = refl

run-queue_example :
    run new_linked_buffer (
      appends (codes "GET /")
      ∷ reads 3
      ∷ appends (codes "files")
      ∷ retrieves 2
      ∷ shrinks 6000
      ∷ writes 3
      ∷ reads_all
      ∷ [])
    ≡ ok (codes "GETes", 0)
unfolding queue_run
run-queue_example = run-queue (
    appends (codes "GET /")
    ∷ reads 3
    ∷ appends (codes "files")
    ∷ retrieves 2
    ∷ shrinks 6000
    ∷ writes 3
    ∷ reads_all
    ∷ [])
