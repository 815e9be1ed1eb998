-- ===== src/Buffer/Queue.antt =====
-- Buffer as a queue of bytes: what a history of calls comes to, whatever the vector's layout.
use cloud_storage.Common.{
  ℕ, ◌-◌, ◌≤◌, ◌≡◌, refl, sym, ◌∙◌, ◌++◌, List, [], ◌∷◌, inl, inr, Bool-cases, Bytes, length, take,
  drop, arith, leb, subst, Option, none, some, Result, ok, ◌>>=◌, if◌then◌else◌, Option-cases,
}
use cloud_storage.Buffer.{
  Buffer, readable, append, retrieve, retrieve_all, un_write, shrink, read_fd, ReadResult, iov_room,
  buffer_len, writable_bytes,
}
use cloud_storage.Buffer.Layout.{IsValid}
use cloud_storage.Buffer.Writes.{Holds, append-Holds, shrink_kept, read_fd-Holds, delivered}
use cloud_storage.Buffer.Reads.{retrieve-Holds, retrieve_all-Holds, un_write-Holds}

-- A call of the class, as its owner makes it.
pub data Call : Type 0 where
  appends : Bytes → Call
  reads : ReadResult → Call
  retrieves : ℕ → Call
  retrieves_all : Call
  un_writes : ℕ → Call
  shrinks : ℕ → Call

unfoldable pub perform : Buffer → Call → Result Buffer
perform b (appends chars) = append b chars
perform b (reads r) = do (b', n) ← read_fd b r; ok b'
perform b (retrieves len) = retrieve b len
perform b retrieves_all = ok (retrieve_all b)
perform b (un_writes len) = un_write b len
perform b (shrinks reserve) = shrink b reserve

unfoldable pub run : Buffer → List Call → Result Buffer
run b [] = ok b
run b (c ∷ cs) = do b' ← perform b c; run b' cs

-- The same calls on a plain queue. `none` is a call that takes more bytes than there are, or a
-- `readv` that delivers more than the stack buffer holds.
unfoldable pub queue_step : Bytes → Call → Option Bytes
queue_step q (appends chars) = some (q ++ chars)
queue_step q (reads r) =
    if leb (length (delivered r)) buffer_len then some (q ++ delivered r) else none
queue_step q (retrieves len) = if leb len (length q) then some (drop len q) else none
queue_step q retrieves_all = some []
queue_step q (un_writes len) = if leb len (length q) then some (take (length q - len) q) else none
queue_step q (shrinks reserve) = some q

unfoldable pub queue_run : Bytes → List Call → Option Bytes
unfolding queue_step
queue_run q [] = some q
queue_run q (c ∷ cs) = elim (queue_step q c) [ none ↦ none | some q' ↦ queue_run q' cs ]

-- `readFd` always offers as much as the stack buffer.
iov_room-ge : (b : Buffer) → buffer_len ≤ iov_room b
unfolding iov_room
iov_room-ge b = elim (Bool-cases (leb (writable_bytes b) buffer_len)) [
  | inl h ↦ ground arith
  | inr h ↦ ground arith
]

perform-Holds :
    (b : Buffer) (c : Call) (q : Bytes)
    → IsValid b
    → queue_step (readable b) c ≡ some q
    → (b' : Buffer) × (perform b c ≡ ok b') × Holds b' q
unfolding perform queue_step
perform-Holds b (appends chars) q v e =
    let (b', r, h) = append-Holds b chars v in
    (b', r, record { valid = h.valid; holds = h.holds ∙ ground arith })
perform-Holds b (reads r) q v e = elim (Bool-cases (leb (length (delivered r)) buffer_len)) [
  | inl fits ↦
      let le : length (delivered r) ≤ buffer_len = ground arith in
      let (b', s, h) = read_fd-Holds b r v (omega (arith, iov_room-ge b)) in
      (b', rw s, record { valid = h.valid; holds = h.holds ∙ ground arith })
  | inr long ↦ let bad : none ≡ some q = ground arith in cc
]
perform-Holds b (retrieves len) q v e = elim (Bool-cases (leb len (length (readable b)))) [
  | inl fits ↦
      let (b', s, h) = retrieve-Holds b len v (ground arith) in
      (b', s, record { valid = h.valid; holds = h.holds ∙ ground arith })
  | inr long ↦ let bad : none ≡ some q = ground arith in cc
]
perform-Holds b retrieves_all q v e =
    let h = retrieve_all-Holds b v in
    (retrieve_all b, refl, record { valid = h.valid; holds = h.holds ∙ ground arith })
perform-Holds b (un_writes len) q v e = elim (Bool-cases (leb len (length (readable b)))) [
  | inl fits ↦
      let (b', s, h) = un_write-Holds b len v (ground arith) in
      (b', s, record { valid = h.valid; holds = h.holds ∙ ground arith })
  | inr long ↦ let bad : none ≡ some q = ground arith in cc
]
perform-Holds b (shrinks reserve) q v e =
    let (b', r, h) = shrink_kept b reserve v in
    (b', r, record { valid = h.valid; holds = h.holds ∙ ground arith })

-- A valid buffer refines the queue of its readable bytes: each history of `append`, `readFd`,
-- `retrieve`, `retrieveAll`, `unWrite` and `shrink` that the queue allows runs with no failed
-- assertion, and ends in a valid buffer that holds the queue's bytes.
pub run-Holds :
    (b : Buffer) (cs : List Call) (q : Bytes)
    → IsValid b
    → queue_run (readable b) cs ≡ some q
    → (b' : Buffer) × (run b cs ≡ ok b') × Holds b' q
unfolding run queue_run
run-Holds b [] q v e = (b, refl, record { valid = v; holds = ground arith })
run-Holds b (c ∷ cs) q v e = elim (Option-cases (queue_step (readable b) c)) [
  | inl no_step ↦ let bad : none ≡ some q = ground (arith, no_step) in cc
  | inr (q', step) ↦
      let (b', r, h) = perform-Holds b c q' v step in
      let later : queue_run q' cs ≡ some q = ground (arith, step) in
      let (b'', r', h') =
        run-Holds b' cs q h.valid
          (subst (λ (s : Bytes). queue_run s cs ≡ some q) (sym h.holds) later) in
      (b'', rw r r', h')
]
