-- ===== src/LinkedBuffer/Queue.antt =====
-- A linked buffer is a queue of bytes.
use cloud_storage.Common.{
  ℕ, zero, suc, some, ◌==◌, true, false, Bool-cases, inl, inr, List, [], ◌∷◌, ◌++◌, Bytes, length,
  take, drop, leb, Result, ok, failed_assert, ◌>>=◌, ◌>>◌, assert, ◌≡◌, refl, ap, subst, ◌∙◌, arith,
  take-all, drop-all,
}
use cloud_storage.LinkedBuffer.{
  LinkedBuffer, append, read_blocks, retrieve, retrieve_all, retrieve_as_string,
  retrieve_all_as_string, new_linked_buffer, shrink, write_fd,
}
use cloud_storage.LinkedBuffer.Contents.{no_blocks}
use cloud_storage.LinkedBuffer.Shrinking.{shrink-Holding}
use cloud_storage.LinkedBuffer.Loops.{
  Holding, append_loop-Holding, read_blocks-Reads, retrieve_blocks_lem,
}

-- The calls that change the buffer.
pub data Call : Type 0 where
  appends : Bytes → Call
  reads : ℕ → Call
  reads_all : Call
  retrieves : ℕ → Call
  retrieves_all : Call
  shrinks : ℕ → Call
  writes : ℕ → Call

-- A call's text, and the buffer behind it.
unfoldable pub perform : LinkedBuffer → Call → Result (Bytes × LinkedBuffer)
perform b (appends bytes) = do b' ← append b bytes; ok ([], b')
perform b (reads len) = retrieve_as_string b len
perform b reads_all = retrieve_all_as_string b
perform b (retrieves len) = do b' ← retrieve b len; ok ([], b')
perform b retrieves_all = ok ([], retrieve_all b)
perform b (shrinks reserve) = ok ([], shrink b reserve)
perform b (writes n) = do (answer, b') ← write_fd b (some n); ok ([], b')

-- The texts that a history of calls returns, one behind the other, and the size in the end.
unfoldable pub run : LinkedBuffer → List Call → Result (Bytes × ℕ)
unfolding perform
run b [] = ok ([], b.total_readable)
run b (c ∷ cs) = do (text, b') ← perform b c; (texts, size) ← run b' cs; ok (text ++ texts, size)

-- The same calls on a plain queue.
unfoldable pub queue_step : Bytes → Call → Result (Bytes × Bytes)
queue_step q (appends bytes) = ok ([], q ++ bytes)
queue_step q (reads len) = do assert (leb len (length q)); ok (take len q, drop len q)
queue_step q reads_all = ok (q, [])
queue_step q (retrieves len) = do assert (leb len (length q)); ok ([], drop len q)
queue_step q retrieves_all = ok ([], [])
queue_step q (shrinks reserve) = ok ([], q)
queue_step [] (writes n) = ok ([], [])
queue_step (c ∷ q) (writes n) = do assert (leb n (length (c ∷ q))); ok ([], drop n (c ∷ q))

unfoldable pub queue_run : Bytes → List Call → Result (Bytes × ℕ)
unfolding queue_step
queue_run q [] = ok ([], length q)
queue_run q (c ∷ cs) = do
  (text, q') ← queue_step q c
  (texts, size) ← queue_run q' cs
  ok (text ++ texts, size)

-- A call returns on the buffer and on the queue, with the same text, or is refused on both.
data Agree (out : Result (Bytes × LinkedBuffer)) (spec : Result (Bytes × Bytes)) : Type 0 where
  returns :
      (text q : Bytes) (b : LinkedBuffer)
      → out ≡ ok (text, b)
      → spec ≡ ok (text, q)
      → Holding b q
      → Agree out spec
  refused : out ≡ failed_assert → spec ≡ failed_assert → Agree out spec

retrieve-Holding :
    (b : LinkedBuffer) (q : Bytes) (len : ℕ)
    → Holding b q
    → leb len (length q) ≡ true
    → (b' : LinkedBuffer) × (retrieve b len ≡ ok b') × Holding b' (drop len q)
unfolding retrieve
retrieve-Holding b q len s fits = (
  (read_blocks len b.blocks b.total_readable).1,
  rw (ap (leb len) s.total ∙ fits, retrieve_blocks_lem len b.blocks b.total_readable) refl,
  (read_blocks-Reads len b.blocks b.total_readable q s.hold s.total (ground arith)).rest,
)

perform-Agree :
    (b : LinkedBuffer) (q : Bytes) (c : Call) → Holding b q → Agree (perform b c) (queue_step q c)
unfolding perform queue_step append retrieve retrieve_as_string retrieve_all retrieve_all_as_string
    write_fd
perform-Agree b q (appends bytes) s =
    let (b', e, h) = append_loop-Holding (length bytes) b q bytes (omega arith) s in
    returns [] (q ++ bytes) b' (rw (append, e) refl) refl h
perform-Agree b q (reads len) s = elim (Bool-cases (leb len (length q))) [
  | inl fits ↦
      let k = read_blocks-Reads len b.blocks b.total_readable q s.hold s.total (ground arith) in
      returns (take len q) (drop len q) (read_blocks len b.blocks b.total_readable).1
        (rw (ap (leb len) s.total ∙ fits)
          (ap (λ (t : Bytes). ok (t, (read_blocks len b.blocks b.total_readable).1)) k.first))
        (rw fits refl) k.rest
  | inr long ↦ refused (rw (s.total, long) refl) (rw long refl)
]
perform-Agree b q reads_all s =
    let k =
      read_blocks-Reads b.total_readable b.blocks b.total_readable q s.hold s.total
        (omega (arith, s.total)) in
    let here : leb b.total_readable b.total_readable ≡ true = ground arith in
    returns q [] (read_blocks b.total_readable b.blocks b.total_readable).1
      (rw here (
        ap (λ (t : Bytes). ok (t, (read_blocks b.total_readable b.blocks b.total_readable).1))
          (k.first ∙ take-all q b.total_readable (omega (arith, s.total)))))
      refl (subst (Holding _) (drop-all q b.total_readable (omega (arith, s.total))) k.rest)
perform-Agree b q (retrieves len) s = elim (Bool-cases (leb len (length q))) [
  | inl fits ↦
      let (b', e, h) = retrieve-Holding b q len s fits in
      returns [] (drop len q) b' (rw e refl) (rw fits refl) h
  | inr long ↦ refused (rw (retrieve, s.total, long) refl) (rw long refl)
]
perform-Agree b q retrieves_all s =
    returns [] [] _ refl refl (record { hold = no_blocks; total = refl })
perform-Agree b q (shrinks reserve) s =
    returns [] q (shrink b reserve) refl refl (shrink-Holding b reserve q s)
perform-Agree b [] (writes n) s =
    let idle : (b.total_readable == 0) ≡ true = ground (arith, s.total) in
    returns [] [] b (rw (write_fd, idle) refl) refl s
perform-Agree b (c ∷ q) (writes zero) s =
    let busy : (b.total_readable == 0) ≡ false = ground (arith, s.total) in
    let fits : leb 0 (length (c ∷ q)) ≡ true = ground arith in
    returns [] (c ∷ q) b (rw (write_fd, busy) refl) (rw fits refl) s
perform-Agree b (c ∷ q) (writes (suc n)) s =
    let busy : (b.total_readable == 0) ≡ false = ground (arith, s.total) in
    elim (Bool-cases (leb (suc n) (length (c ∷ q)))) [
      | inl fits ↦
          let (b', e, h) = retrieve-Holding b (c ∷ q) (suc n) s fits in
          returns [] (drop n q) b' (rw (write_fd, busy, e) refl) (rw fits refl) h
      | inr long ↦ refused (rw (write_fd, busy, retrieve, s.total, long) refl) (rw long refl)
    ]

run-Holding :
    (cs : List Call) (b : LinkedBuffer) (q : Bytes) → Holding b q → run b cs ≡ queue_run q cs
unfolding run queue_run
run-Holding [] b q s = rw (s.total) refl
run-Holding (c ∷ cs) b q s = elim (perform-Agree b q c s) [
  | returns text q' b' e e' h ↦ rw (run, queue_run, e, e', run-Holding cs b' q' h) refl
  | refused e e' ↦ rw (run, queue_run, e, e') refl
]

-- Each history of `append`, `retrieveAsString`, `retrieveAllAsString`, `retrieve`, `retrieveAll`,
-- `shrink` and `writeFd`, where `writev` answers no error, on a new linked buffer returns, or is
-- stopped by the assertion on the length, as the same history on an empty queue of bytes: the same
-- texts, one behind the other, and in the end a count of readable bytes that is the length of the
-- queue. The loop of `append` ends.
pub run-queue : (cs : List Call) → run new_linked_buffer cs ≡ queue_run [] cs
run-queue cs = run-Holding cs new_linked_buffer [] (record { hold = no_blocks; total = refl })
