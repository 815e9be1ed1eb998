-- ===== src/TcpConnection/Draining.antt =====
-- Calls of `handleWrite`, one after the other, and the half-close behind them.
use cloud_storage.Common.{
  ℕ, zero, suc, ◌-◌, ◌≤◌, ◌<◌, ◌≡◌, refl, sym, ap, ◌∙◌, List, [], ◌∷◌, ◌++◌, Bool, true, false,
  Bytes, some, length, take, min, arith, ok, ltb, ◌==◌, if◌then◌else◌, Bool-cases, inl, inr, ◌⊎◌,
  map, append-nil, eq-nil_of_length, Result, ◌>>=◌, length-drop,
}
use cloud_storage.Buffer.{Buffer, readable, readable_bytes}
use cloud_storage.Buffer.Layout.{IsValid, readable_bytes_lem}
use cloud_storage.TcpConnection.{
  TcpConnection, State, Answer, Callbacks, accepts, is_disconnecting, write, wrote, after_write,
  handle_write, shutdown_in_loop, connected, disconnecting, connecting, disconnected,
}
use cloud_storage.TcpConnection.Streams.{is_live, WaitsRight, Streams}
use cloud_storage.TcpConnection.Sending.{took, write-takes}

-- `handleWrite`, so many times.
abbrev pub drain : ℕ → Callbacks → TcpConnection → Result TcpConnection
drain zero cb c = ok c
drain (suc n) cb c = handle_write cb c >>= λ c'. drain n cb c'

-- `write` takes at least one byte.
abbrev pub takes : ℕ → Answer
takes k = accepts (suc k)

-- What `wrote` leaves alone, and when it shuts the socket down.
record Wrote (c c' : TcpConnection) : Type 0 where
  state : c'.state ≡ c.state
  answers : c'.answers ≡ c.answers
  output : c'.output ≡ c.output
  shuts : length (readable c.output) ≡ 0 → is_disconnecting c.state ≡ true → c'.shut ≡ true

wrote-Wrote : (c : TcpConnection) → IsValid c.output → Wrote c (wrote c)
unfolding wrote shutdown_in_loop
wrote-Wrote c v =
    let count = readable_bytes_lem c.output v in
    elim (Bool-cases (readable_bytes c.output == 0)) [
      | inr more ↦
          rw more
            (record { state = refl; answers = refl; output = refl; shuts = λ e d. grind arith })
      | inl empty ↦ elim (Bool-cases (is_disconnecting c.state)) [
        | inl shuts ↦
            rw (empty, shuts)
              (record { state = refl; answers = refl; output = refl; shuts = λ e d. refl })
        | inr stays ↦
            rw (empty, stays)
              (record { state = refl; answers = refl; output = refl; shuts = λ e d. cc })
      ]
    ]

writing-pending : (s : State) (w : Bool) (n : ℕ) → WaitsRight s w n → w ≡ true → ltb 0 n ≡ true
writing-pending disconnected w n h e = cc
writing-pending connecting w n h e = cc
writing-pending connected w n h e = sym h ∙ e
writing-pending disconnecting w n h e = sym h ∙ e

live-pending : (s : State) (w : Bool) (n : ℕ) → WaitsRight s w n → is_live s ≡ true → w ≡ ltb 0 n
live-pending disconnected w n h e = cc
live-pending connecting w n h e = cc
live-pending connected w n h e = h
live-pending disconnecting w n h e = h

module _ (cb : Callbacks) where
  handle_write-answers :
      (c : TcpConnection) (answers : List Answer)
      → c.writing ≡ true
      → c.answers ≡ answers
      → handle_write cb c ≡ after_write cb (write c answers (readable c.output))
  unfolding handle_write
  handle_write-answers c answers w e =
      ap (λ (x : Bool). if x then after_write cb (write c c.answers (readable c.output)) else ok c)
        w
      ∙ ap (λ (a : List Answer). after_write cb (write c a (readable c.output))) e

  handle_write-idle : (c : TcpConnection) → c.writing ≡ false → handle_write cb c ≡ ok c
  unfolding handle_write
  handle_write-idle c w =
      ap (λ (x : Bool). if x then after_write cb (write c c.answers (readable c.output)) else ok c)
        w

  drain-idle : (n : ℕ) (c : TcpConnection) → c.writing ≡ false → drain n cb c ≡ ok c
  drain-idle zero c w = refl
  drain-idle (suc n) c w = rw (handle_write-idle c w) (drain-idle n c w)

  -- One call that writes.
  record Step (c : TcpConnection) (rest : List Answer) (text : Bytes) (c' : TcpConnection)
      : Type 0 where
    ran : handle_write cb c ≡ ok c'
    streams : Streams c' text
    state : c'.state ≡ c.state
    answers : c'.answers ≡ rest
    less : length (readable c'.output) < length (readable c.output)
    shuts : length (readable c'.output) ≡ 0 → is_disconnecting c.state ≡ true → c'.shut ≡ true

  step :
      (c : TcpConnection) (k : ℕ) (rest : List Answer) (text : Bytes)
      → c.writing ≡ true
      → is_live c.state ≡ true
      → c.answers ≡ takes k ∷ rest
      → Streams c text
      → (c' : TcpConnection) × Step c rest text c'
  unfolding after_write
  step c k rest text w l e h =
      let len = length (readable c.output) in
      let more = writing-pending c.state c.writing len h.waits w in
      let m = min k (len - 1) in
      let size : suc m ≡ min (suc k) len = ground arith in
      let (b, r, g, s) = write-takes m (suc k) rest c text size w h in
      let left : length (readable b) ≡ len - suc m =
        ap length g.holds ∙ length-drop (suc m) (readable c.output) in
      let x = wrote-Wrote (took (suc k) rest c b) g.valid in
      let c1 : TcpConnection = record c {
        answers = rest;
        sent = c.sent ++ take (suc k) (readable c.output);
      } in
      let tried : after_write cb (write c (takes k ∷ rest) (readable c.output))
          ≡ ok (wrote (took (suc k) rest c b)) =
        ap (λ (n : ℕ). after_write cb (some n, c1)) (sym size) ∙ rw r refl in
      let out : length (readable (wrote (took (suc k) rest c b)).output) ≡ length (readable b) =
        ap (λ (y : Buffer). length (readable y)) x.output in
      (
        wrote (took (suc k) rest c b),
        record {
          ran = handle_write-answers c (takes k ∷ rest) w e ∙ tried;
          streams = s;
          state = x.state;
          answers = x.answers;
          less = ground arith;
          shuts = λ none d. x.shuts (sym out ∙ none) d;
        },
      )

  -- Nothing is left to write.
  idle_all :
      (c : TcpConnection) (text : Bytes)
      → c.writing ≡ false
      → is_live c.state ≡ true
      → Streams c text
      → c.sent ≡ text
  idle_all c text w l h =
      let pending = live-pending c.state c.writing _ h.waits l in
      let empty = eq-nil_of_length (readable c.output) (ground arith) in
      sym (append-nil c.sent) ∙ ap (λ (s : Bytes). c.sent ++ s) (sym empty) ∙ h.all

  -- What `n` calls of `handleWrite` come to.
  abbrev pub Drained : ℕ → TcpConnection → Bytes → Type 0
  Drained n c text =
      (c' : TcpConnection) × (drain n cb c ≡ ok c')
      × (c'.sent ≡ text)
      × (c'.writing ≡ false)
      × (is_disconnecting c.state ≡ true → (c.writing ≡ true) ⊎ (c.shut ≡ true) → c'.shut ≡ true)

  drained :
      (n : ℕ) (c : TcpConnection) (text : Bytes)
      → c.writing ≡ false
      → is_live c.state ≡ true
      → Streams c text
      → Drained n c text
  drained n c text w l h = (
    c,
    drain-idle n c w,
    idle_all c text w l h,
    w,
    λ d. elim [ inl w' ↦ absurd cc | inr shut ↦ shut ],
  )

  -- Behind a call that writes, bytes are left or the socket is shut down.
  still_shuts :
      (c c1 : TcpConnection) (rest : List Answer) (text : Bytes)
      → Step c rest text c1
      → is_live c1.state ≡ true
      → is_disconnecting c.state ≡ true
      → (c1.writing ≡ true) ⊎ (c1.shut ≡ true)
  still_shuts c c1 rest text s l d = elim (Bool-cases c1.writing) [
    | inl w ↦ inl w
    | inr idle ↦
        let pending = live-pending c1.state c1.writing _ s.streams.waits l in
        inr (s.shuts (ground arith) d)
  ]

  -- An open connection whose next answers of `write` all take at least one byte, at least as many
  -- as there are bytes in the output buffer: so many calls of `handleWrite` return, and then all
  -- that the connection took on was accepted by `write` in order, and the channel no longer waits
  -- to write. If the connection is shutting down and had bytes left, its socket is shut down for
  -- writing at the end.
  pub drain-all :
      (counts : List ℕ) (c : TcpConnection) (text : Bytes)
      → c.answers ≡ map takes counts
      → is_live c.state ≡ true
      → Streams c text
      → length (readable c.output) ≤ length counts
      → (c' : TcpConnection) × (drain (length counts) cb c ≡ ok c')
        × (c'.sent ≡ text)
        × (c'.writing ≡ false)
        × (is_disconnecting c.state ≡ true → (c.writing ≡ true) ⊎ (c.shut ≡ true) → c'.shut ≡ true)
  drain-all [] c text e l h le =
      let pending = live-pending c.state c.writing _ h.waits l in
      drained 0 c text (ground arith) l h
  drain-all (k ∷ counts) c text e l h le = elim (Bool-cases c.writing) [
    | inr idle ↦ drained (length (k ∷ counts)) c text idle l h
    | inl w ↦
        let (c1, s) = step c k (map takes counts) text w l e h in
        let l1 : is_live c1.state ≡ true = ap is_live s.state ∙ l in
        let less = s.less in
        let (c2, r, sent, idle, shuts) =
          drain-all counts c1 text s.answers l1 s.streams (omega arith) in
        (
          c2,
          rw (s.ran) r,
          sent,
          idle,
          λ d was. shuts (ap is_disconnecting s.state ∙ d) (still_shuts c c1 _ text s l1 d),
        )
  ]
