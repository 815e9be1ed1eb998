-- ===== src/TcpConnection/Streams.antt =====
-- The bytes of a connection: those that `write` accepted, then those in the output buffer.
use cloud_storage.Common.{
  ℕ, ◌≡◌, refl, ◌++◌, Bool, true, false, ◌||◌, Bytes, length, ok, ltb, Result,
}
use cloud_storage.Buffer.{readable}
use cloud_storage.Buffer.Layout.{IsValid}
use cloud_storage.TcpConnection.{
  TcpConnection, State, Callback, Callbacks, disconnected, connecting, connected, disconnecting,
  is_connected, is_disconnecting, handle_close,
}

abbrev pub is_live : State → Bool
is_live s = is_connected s || is_disconnecting s

-- A live channel waits to write exactly if bytes are there to write, any other does not wait.
abbrev pub WaitsRight : State → Bool → ℕ → Type 0
WaitsRight connected writing n = writing ≡ ltb 0 n
WaitsRight disconnecting writing n = writing ≡ ltb 0 n
WaitsRight _ writing n = writing ≡ false

-- The invariant: `text` is all that the connection took on so far.
pub record Streams (c : TcpConnection) (text : Bytes) : Type 0 where
  pub valid : IsValid c.output
  pub all : c.sent ++ readable c.output ≡ text
  pub waits : WaitsRight c.state c.writing (length (readable c.output))

-- A callback that returns on a connection that is closed, and leaves its stream alone.
abbrev pub Quiet : Callback → Type 0
Quiet f =
    (c : TcpConnection) (text : Bytes)
    → c.state ≡ disconnected
    → Streams c text
    → (c' : TcpConnection) × (f c ≡ ok c') × (c'.state ≡ disconnected) × Streams c' text

-- What an operation comes to that keeps the stream.
abbrev pub Keeps : Result TcpConnection → Bytes → Type 0
Keeps result text = (c' : TcpConnection) × (result ≡ ok c') × Streams c' text

pub writing-is_live :
    (s : State) (w : Bool) (n : ℕ) → WaitsRight s w n → w ≡ true → is_live s ≡ true
writing-is_live disconnected w n h e = cc
writing-is_live connecting w n h e = cc
writing-is_live connected w n h e = refl
writing-is_live disconnecting w n h e = refl

pub live-WaitsRight :
    (s : State) (w : Bool) (n : ℕ) → is_live s ≡ true → w ≡ ltb 0 n → WaitsRight s w n
live-WaitsRight disconnected w n h e = cc
live-WaitsRight connecting w n h e = cc
live-WaitsRight connected w n h e = e
live-WaitsRight disconnecting w n h e = e

module _ (cb : Callbacks) (quiet : Quiet cb.connection_callback)
    (quiet' : Quiet cb.close_callback) where
  pub handle_close-Keeps :
      (c : TcpConnection) (text : Bytes)
      → is_live c.state ≡ true
      → Streams c text
      → (c' : TcpConnection) × (handle_close cb c ≡ ok c')
        × (c'.state ≡ disconnected)
        × Streams c' text
  unfolding handle_close
  handle_close-Keeps c text l h =
      let c1 : TcpConnection = record c {
        state = disconnected;
        reading = false;
        writing = false;
      } in
      let (c2, e, s, h2) =
        quiet c1 text refl (record { valid = h.valid; all = h.all; waits = refl }) in
      let (c3, e', s', h3) = quiet' c2 text s h2 in (c3, rw l (rw e e'), s', h3)
