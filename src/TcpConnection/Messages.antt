-- ===== src/TcpConnection/Messages.antt =====
-- The stream of a connection under `sendInLoop`.
use cloud_storage.Common.{
  ◌+◌, ◌-◌, ◌≡◌, refl, sym, ap, ◌∙◌, List, [], ◌∷◌, ◌++◌, Bool, true, false, not, ◌&&◌, Bytes,
  length, take, drop, min, arith, ltb, leb, ◌==◌, if◌then◌else◌, Bool-cases, inl, inr, append_assoc,
  take-append-drop, append-nil, length-append, eq-nil_of_length,
}
use cloud_storage.Buffer.{readable, readable_bytes}
use cloud_storage.Buffer.Layout.{readable_bytes_lem}
use cloud_storage.Buffer.Writes.{append-Holds}
use cloud_storage.TcpConnection.{
  TcpConnection, State, Answer, Callbacks, accepts, refuses, is_fault, write, queue_if, send_rest,
  after_direct_write, send_in_loop, write_complete_of, high_water_mark_of, would_block,
  is_disconnected, disconnected, connecting, connected, disconnecting,
}
use cloud_storage.TcpConnection.Streams.{is_live, Streams, Quiet, Keeps, live-WaitsRight}
use cloud_storage.TcpConnection.Sending.{handle_write-Keeps, take-min}

-- The message is tried at once and `write` fails with EPIPE or ECONNRESET.
abbrev pub faults : List Answer → Bool
faults (refuses e ∷ rest) = is_fault e
faults _ = false

abbrev pub drops : TcpConnection → Bool
drops c = (not c.writing && readable_bytes c.output == 0) && faults c.answers

live-not_disconnected : (s : State) → is_live s ≡ true → is_disconnected s ≡ false
live-not_disconnected disconnected e = cc
live-not_disconnected connecting e = refl
live-not_disconnected connected e = refl
live-not_disconnected disconnecting e = refl

module _ (cb : Callbacks) (quiet : Quiet cb.connection_callback)
    (quiet' : Quiet cb.close_callback) where
  send_rest-Keeps :
      (c : TcpConnection) (text rest : Bytes)
      → is_live c.state ≡ true
      → Streams c text
      → Keeps (send_rest cb c rest) (text ++ rest)
  unfolding send_rest
  send_rest-Keeps c text rest l h = elim (Bool-cases (ltb 0 (length rest))) [
    | inr empty ↦
        let nothing : rest ≡ [] = eq-nil_of_length rest (ground arith) in
        (
          c,
          rw (empty, send_rest) refl,
          record {
            valid = h.valid;
            all = h.all ∙ sym (ap (λ (s : Bytes). text ++ s) nothing ∙ append-nil text);
            waits = h.waits;
          },
        )
    | inl more ↦
        let (b, e, g) = append-Holds c.output rest h.valid in
        let old = readable_bytes c.output in
        let marked =
          queue_if
            (leb c.high_water_mark (old + length rest)
              && (ltb old c.high_water_mark && c.on_high_water_mark))
            c (high_water_mark_of (old + length rest)) in
        let c1 : TcpConnection = record marked { output = b; writing = true } in
        let size : length (readable b) ≡ length (readable c.output) + length rest =
          ap length g.holds ∙ length-append (readable c.output) rest in
        let (c2, e', k) = handle_write-Keeps cb quiet quiet' c1 (text ++ rest) (record {
          valid = g.valid;
          all =
              ap (λ (s : Bytes). c.sent ++ s) g.holds
              ∙ sym (append_assoc c.sent _ _)
              ∙ ap (λ (s : Bytes). s ++ rest) h.all;
          waits = live-WaitsRight c.state true _ l (ground arith);
        }) in
        (c2, rw (more, send_rest) (rw e e'), k)
  ]

  -- Nothing waits in the output buffer, and `write` is tried.
  after_direct_write-Keeps :
      (answers : List Answer) (c : TcpConnection) (text message : Bytes)
      → is_live c.state ≡ true
      → readable c.output ≡ []
      → Streams c text
      → Keeps
          (after_direct_write cb message (write c answers message))
          (if faults answers then text else text ++ message)
  unfolding after_direct_write
  after_direct_write-Keeps [] c text message l empty h =
      send_rest-Keeps (record c { errno = would_block }) text message l
        (record { valid = h.valid; all = h.all; waits = h.waits })
  after_direct_write-Keeps (refuses e ∷ rest) c text message l empty h =
      let c1 : TcpConnection = record c { answers = rest; errno = e } in
      let h1 : Streams c1 text = record { valid = h.valid; all = h.all; waits = h.waits } in
      elim (Bool-cases (is_fault e)) [
        | inl fault ↦ (c1, rw fault refl, rw fault h1)
        | inr harmless ↦
            let (c2, e', k) = send_rest-Keeps c1 text message l h1 in
            (c2, rw harmless e', rw harmless k)
      ]
  after_direct_write-Keeps (accepts n ∷ rest) c text message l empty h =
      let count = min n (length message) in
      let c1 : TcpConnection =
        queue_if (length message - count == 0 && c.on_write_complete)
          (record c { answers = rest; sent = c.sent ++ take n message }) write_complete_of in
      let (c2, e, k) = send_rest-Keeps c1 (text ++ take n message) (drop count message) l (record {
        valid = h.valid;
        all =
            ap (λ (s : Bytes). (c.sent ++ take n message) ++ s) empty
            ∙ append-nil _
            ∙ ap (λ (s : Bytes). s ++ take n message)
                (sym (append-nil c.sent) ∙ ap (λ (s : Bytes). c.sent ++ s) (sym empty) ∙ h.all);
        waits = h.waits;
      }) in
      let whole : (text ++ take n message) ++ drop count message ≡ text ++ message =
        append_assoc text _ _
        ∙ ap (λ (s : Bytes). text ++ (s ++ drop count message)) (sym (take-min n message))
        ∙ ap (λ (s : Bytes). text ++ s) (take-append-drop count message) in
      (c2, e, record { valid = k.valid; all = k.all ∙ whole; waits = k.waits })

  -- On a connection that is open for sending, `sendInLoop` returns, whatever `write` answers. The
  -- message is dropped whole if it was tried at once and `write` failed with EPIPE or ECONNRESET.
  -- Else its bytes follow, in order, all that the connection took on before: those that `write`
  -- accepted and those in the output buffer. The callbacks are to return and leave the stream of a
  -- closed connection alone.
  pub send_in_loop-Keeps :
      (c : TcpConnection) (text message : Bytes)
      → is_live c.state ≡ true
      → Streams c text
      → Keeps (send_in_loop cb c message) (if drops c then text else text ++ message)
  unfolding send_in_loop
  send_in_loop-Keeps c text message l h =
      let open_state = live-not_disconnected c.state l in
      elim (Bool-cases (not c.writing && readable_bytes c.output == 0)) [
        | inl direct ↦
            let zero_bytes : readable_bytes c.output ≡ 0 = ground arith in
            let empty =
              eq-nil_of_length (readable c.output)
                (sym (readable_bytes_lem c.output h.valid) ∙ zero_bytes) in
            let (c2, e, k) = after_direct_write-Keeps c.answers c text message l empty h in
            (c2, rw (open_state, direct) e, rw direct k)
        | inr later ↦
            let (c2, e, k) = send_rest-Keeps c text message l h in
            (c2, rw (open_state, later) e, rw later k)
      ]
