-- ===== src/TcpConnection/Tests.antt =====
-- Runs of the connection's code, and its theorems at concrete inputs.
use cloud_storage.Common.{
  ◌≡◌, refl, List, [], ◌∷◌, ◌++◌, ◌⊎◌, true, false, Bool, Bytes, codes, arith, map, ok,
  if◌then◌else◌, Result, Option, none, some,
}
use cloud_storage.Buffer.{readable, append, fresh}
use cloud_storage.TcpConnection.{
  TcpConnection, Answer, Callback, Callbacks, accepts, refuses, connected, disconnecting, pipe,
  would_block, new_connection, handle_write, send_in_loop, send, is_disconnecting, after_write,
  send_rest, after_direct_write,
}
use cloud_storage.TcpConnection.Streams.{Streams, Quiet, Keeps}
use cloud_storage.TcpConnection.Sending.{handle_write-Keeps}
use cloud_storage.TcpConnection.Messages.{drops, send_in_loop-Keeps}
use cloud_storage.TcpConnection.Draining.{takes, drain, drain-all}

abbrev silent : Callback
silent c = ok c

abbrev callbacks : Callbacks
callbacks = record {
  connection_callback = silent;
  close_callback = silent;
  message_callback = silent;
}

silent-Quiet : Quiet silent
silent-Quiet c text s h = (c, refl, s, h)

-- Five bytes wait, and the connection is shutting down.
abbrev waiting : List Answer → TcpConnection
waiting answers = record (new_connection answers) {
  state = disconnecting;
  writing = true;
  output = record fresh {
    storage = fresh.storage ++ codes "hello";
    read_index = 1032;
    write_index = 1037;
  };
  sent = codes "GET ";
}

waiting-Streams : (answers : List Answer) → Streams (waiting answers) (codes "GET hello")
unfolding readable
waiting-Streams answers = record { valid = omega arith; all = refl; waits = refl }

handle_write-Keeps_example :
    Keeps (handle_write callbacks (waiting (refuses pipe ∷ []))) (codes "GET hello")
handle_write-Keeps_example =
    handle_write-Keeps callbacks silent-Quiet silent-Quiet (waiting (refuses pipe ∷ []))
      (codes "GET hello") (waiting-Streams (refuses pipe ∷ []))

send_in_loop-Keeps_example :
    Keeps (send_in_loop callbacks (waiting (accepts 3 ∷ [])) (codes " you")) (
      if drops (waiting (accepts 3 ∷ []))
      then codes "GET hello"
      else codes "GET hello" ++ codes " you")
send_in_loop-Keeps_example =
    send_in_loop-Keeps callbacks silent-Quiet silent-Quiet (waiting (accepts 3 ∷ []))
      (codes "GET hello") (codes " you") refl (waiting-Streams (accepts 3 ∷ []))

drain-all_example :
    (c' : TcpConnection) × (drain 5 callbacks (waiting (map takes (1 ∷ 0 ∷ 0 ∷ 3 ∷ 0 ∷ [])))
      ≡ ok c')
    × (c'.sent ≡ codes "GET hello")
    × (c'.writing ≡ false)
    × (is_disconnecting disconnecting ≡ true → (true ≡ true) ⊎ (false ≡ true) → c'.shut ≡ true)
unfolding readable
drain-all_example =
    drain-all callbacks (1 ∷ 0 ∷ 0 ∷ 3 ∷ 0 ∷ []) (waiting (map takes (1 ∷ 0 ∷ 0 ∷ 3 ∷ 0 ∷ [])))
      (codes "GET hello") refl refl (waiting-Streams (map takes (1 ∷ 0 ∷ 0 ∷ 3 ∷ 0 ∷ [])))
      (omega arith)

-- A message that `write` takes in two pieces on a connection that then shuts down.
abbrev summary : Result TcpConnection → Option (Bytes × Bytes × Bool)
unfolding readable
summary (ok c) = some (c.sent, readable c.output, c.shut)
summary _ = none

send_runs :
    summary (
      send true callbacks
        (record (new_connection (accepts 2 ∷ refuses would_block ∷ [])) { state = connected })
        (codes "abc"))
    ≡ some (codes "ab", codes "c", false)
unfolding readable send send_in_loop after_direct_write send_rest handle_write after_write append
send_runs = refl
