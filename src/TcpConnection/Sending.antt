-- ===== src/TcpConnection/Sending.antt =====
-- The stream of a connection under `handleWrite`.
use cloud_storage.Common.{
  ℕ, zero, suc, ◌≡◌, refl, sym, ap, ◌∙◌, List, [], ◌∷◌, ◌++◌, Bool, true, false, Bytes, some,
  length, take, drop, min, arith, ok, ◌==◌, if◌then◌else◌, Bool-cases, inl, inr, append_assoc,
  take-append-drop, append-nil,
}
use cloud_storage.Buffer.{Buffer, readable, readable_bytes, retrieve}
use cloud_storage.Buffer.Layout.{IsValid, readable_bytes_lem}
use cloud_storage.Buffer.Writes.{Holds}
use cloud_storage.Buffer.Reads.{retrieve-Holds}
use cloud_storage.TcpConnection.{
  TcpConnection, Answer, Callbacks, accepts, refuses, is_disconnecting, is_fault, write, wrote,
  after_write, handle_write, handle_close, shutdown_in_loop, would_block,
}
use cloud_storage.TcpConnection.Streams.{
  is_live, WaitsRight, Streams, Quiet, Keeps, writing-is_live, live-WaitsRight, handle_close-Keeps,
}

-- Behind a `write` that took bytes.
pub wrote-Streams :
    (c : TcpConnection) (text : Bytes)
    → is_live c.state ≡ true
    → c.writing ≡ true
    → IsValid c.output
    → c.sent ++ readable c.output ≡ text
    → Streams (wrote c) text
unfolding wrote shutdown_in_loop
wrote-Streams c text l w v e =
    let count = readable_bytes_lem c.output v in
    elim (Bool-cases (readable_bytes c.output == 0)) [
      | inr more ↦ rw more (record {
        valid = v;
        all = e;
        waits = live-WaitsRight c.state _ _ l (w ∙ sym (ground arith));
      })
      | inl empty ↦
          let waits : WaitsRight c.state false (length (readable c.output)) =
            live-WaitsRight c.state _ _ l (sym (ground arith)) in
          elim (Bool-cases (is_disconnecting c.state)) [
            | inl shuts ↦ rw (empty, shuts) (record { valid = v; all = e; waits = waits })
            | inr stays ↦ rw (empty, stays) (record { valid = v; all = e; waits = waits })
          ]
    ]

-- The bytes that `write` took are the first of those that it was given.
pub take-min : (k : ℕ) (xs : Bytes) → take (min k (length xs)) xs ≡ take k xs
take-min zero xs = let none : min 0 (length xs) ≡ 0 = omega arith in ap (λ (m : ℕ). take m xs) none
take-min (suc k) [] =
    let none : min (suc k) 0 ≡ 0 = omega arith in
    let empty : Bytes = [] in ap (λ (m : ℕ). take m empty) none
take-min (suc k) (x ∷ xs) =
    let one : min (suc k) (suc (length xs)) ≡ suc (min k (length xs)) = omega arith in
    ap (λ (m : ℕ). take m (x ∷ xs)) one ∙ ap (λ (s : Bytes). x ∷ s) (take-min k xs)

-- `write` took up to `k` bytes, and the output buffer is `b` now.
abbrev pub took : ℕ → List Answer → TcpConnection → Buffer → TcpConnection
took k rest c b = record c {
  answers = rest;
  sent = c.sent ++ take k (readable c.output);
  output = b;
}

pub write-takes :
    (n k : ℕ) (rest : List Answer) (c : TcpConnection) (text : Bytes)
    → suc n ≡ min k (length (readable c.output))
    → c.writing ≡ true
    → Streams c text
    → (b : Buffer) × (retrieve c.output (suc n) ≡ ok b)
      × Holds b (drop (suc n) (readable c.output))
      × Streams (wrote (took k rest c b)) text
write-takes n k rest c text e w h =
    let (b, r, g) = retrieve-Holds c.output (suc n) h.valid (omega arith) in
    let taken : take k (readable c.output) ≡ take (suc n) (readable c.output) =
      sym (take-min k (readable c.output)) ∙ ap (λ (m : ℕ). take m (readable c.output)) (sym e) in
    (
      b,
      r,
      g,
      wrote-Streams (took k rest c b) text (writing-is_live c.state c.writing _ h.waits w) w g.valid
          (ap (λ (s : Bytes). (c.sent ++ s) ++ readable b) taken
            ∙ ap (λ (s : Bytes). (c.sent ++ take (suc n) (readable c.output)) ++ s) g.holds
            ∙ append_assoc c.sent _ _
            ∙ ap (λ (s : Bytes). c.sent ++ s) (take-append-drop (suc n) (readable c.output))
            ∙ h.all),
    )

module _ (cb : Callbacks) (quiet : Quiet cb.connection_callback)
    (quiet' : Quiet cb.close_callback) where
  -- A `write` that took nothing.
  after_write-none :
      (c : TcpConnection) (text : Bytes)
      → c.writing ≡ true
      → Streams c text
      → Keeps (if is_fault c.errno then handle_close cb c else ok c) text
  after_write-none c text w h = elim (Bool-cases (is_fault c.errno)) [
    | inl fault ↦
        let (c', e, s, k) =
          handle_close-Keeps cb quiet quiet' c text (writing-is_live c.state c.writing _ h.waits w)
            h in
        (c', rw fault e, k)
    | inr harmless ↦ (c, rw harmless refl, h)
  ]

  after_write-some :
      (n k : ℕ) (rest : List Answer) (c : TcpConnection) (text : Bytes)
      → n ≡ min k (length (readable c.output))
      → c.writing ≡ true
      → Streams c text
      → Keeps
          (after_write cb
            (some n, record c { answers = rest; sent = c.sent ++ take k (readable c.output) }))
          text
  unfolding after_write
  after_write-some zero k rest c text e w h =
      let took : take k (readable c.output) ≡ [] =
        sym (take-min k (readable c.output)) ∙ ap (λ (m : ℕ). take m (readable c.output)) (sym e) in
      after_write-none (record c { answers = rest; sent = c.sent ++ take k (readable c.output) })
        text w
        (record {
          valid = h.valid;
          all =
              ap (λ (s : Bytes). (c.sent ++ s) ++ readable c.output) took
              ∙ ap (λ (s : Bytes). s ++ readable c.output) (append-nil c.sent)
              ∙ h.all;
          waits = h.waits;
        })
  after_write-some (suc n) k rest c text e w h =
      let (b, r, g, k') = write-takes n k rest c text e w h in
      (wrote (took k rest c b), rw r refl, k')

  after_write-Keeps :
      (answers : List Answer) (c : TcpConnection) (text : Bytes)
      → c.writing ≡ true
      → Streams c text
      → Keeps (after_write cb (write c answers (readable c.output))) text
  unfolding after_write
  after_write-Keeps [] c text w h = (
    record c { errno = would_block },
    refl,
    record { valid = h.valid; all = h.all; waits = h.waits },
  )
  after_write-Keeps (accepts k ∷ rest) c text w h = after_write-some _ k rest c text refl w h
  after_write-Keeps (refuses e ∷ rest) c text w h =
      after_write-none (record c { answers = rest; errno = e }) text w
        (record { valid = h.valid; all = h.all; waits = h.waits })

  -- `handleWrite` returns, whatever `write` answers and whatever the state is: bytes only move from
  -- the front of the output buffer to the accepted bytes, and the channel goes on to wait exactly
  -- if bytes are left and the connection is still open. The callbacks are to return and leave the
  -- stream of a closed connection alone.
  pub handle_write-Keeps :
      (c : TcpConnection) (text : Bytes) → Streams c text → Keeps (handle_write cb c) text
  unfolding handle_write
  handle_write-Keeps c text h = elim (Bool-cases c.writing) [
    | inl w ↦
        let (c', e, k) = after_write-Keeps c.answers c text w h in
        (
          c',
          ap
                (λ (x : Bool).
                  if x then after_write cb (write c c.answers (readable c.output)) else ok c)
                w
              ∙ e,
          k,
        )
    | inr w ↦ (
      c,
      ap (λ (x : Bool). if x then after_write cb (write c c.answers (readable c.output)) else ok c)
          w,
      h,
    )
  ]
