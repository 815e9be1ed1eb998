-- ===== src/TcpConnection.antt =====
-- inc/network/TcpConnection.hpp and src/network/TcpConnection.cpp: one connection and what its loop
-- runs for it. What `write` answers, call by call, is a list; the callbacks are a parameter.
pub mod Streams
pub mod Sending
pub mod Messages
pub mod Draining
mod Tests
use cloud_storage.Common.{
  ℕ, zero, suc, ◌+◌, ◌-◌, ◌*◌, Bool, true, false, not, ◌&&◌, ◌||◌, List, [], ◌∷◌, ◌++◌, Option,
  none, some, Bytes, length, take, drop, min, leb, ltb, ◌==◌, if◌then◌else◌, Result, ok, ◌>>=◌,
  ◌>>◌, assert,
}
use cloud_storage.Buffer.{
  Buffer, ReadResult, failed, got, fresh, readable, readable_bytes, append, retrieve, retrieve_all,
  retrieve_all_as_string, read_fd,
}

pub data State : Type 0 where
  disconnected connecting connected disconnecting : State

-- The numbers of `errno` that the code tells apart; `stale` is none of them.
pub data Errno : Type 0 where
  stale would_block pipe conn_reset : Errno

-- `write` accepts up to so many bytes, or fails.
pub data Answer : Type 0 where
  accepts : ℕ → Answer
  refuses : Errno → Answer

-- What waits in the loop for the connection.
pub data Task : Type 0 where
  send_in_loop_of : Bytes → Task
  shutdown_in_loop_of force_close_in_loop_of handle_write_of write_complete_of : Task
  high_water_mark_of : ℕ → Task

-- `writing` and `reading` are the two events of the channel, `on_write_complete` and
-- `on_high_water_mark` tell whether the callback is set. The last fields are the world around the
-- connection: answers of `write` still to come, `errno`, the bytes that `write` accepted so far,
-- whether the socket was shut down for writing, and the functions queued in the loop.
pub record TcpConnection : Type 0 where
  pub state : State
  pub reading : Bool
  pub writing : Bool
  pub on_write_complete : Bool
  pub on_high_water_mark : Bool
  pub high_water_mark : ℕ
  pub input : Buffer
  pub output : Buffer
  pub answers : List Answer
  pub errno : Errno
  pub sent : Bytes
  pub shut : Bool
  pub queued : List Task

abbrev pub Callback : Type 0
Callback = TcpConnection → Result TcpConnection

pub record Callbacks : Type 0 where
  pub connection_callback : Callback
  pub close_callback : Callback
  pub message_callback : Callback

abbrev pub new_connection : List Answer → TcpConnection
new_connection answers = record {
  state = connecting;
  reading = false;
  writing = false;
  on_write_complete = false;
  on_high_water_mark = false;
  high_water_mark = 64 * 1024 * 1024;
  input = fresh;
  output = fresh;
  answers = answers;
  errno = stale;
  sent = [];
  shut = false;
  queued = [];
}

abbrev pub is_connected : State → Bool
is_connected connected = true
is_connected _ = false

abbrev pub is_disconnected : State → Bool
is_disconnected disconnected = true
is_disconnected _ = false

abbrev pub is_connecting : State → Bool
is_connecting connecting = true
is_connecting _ = false

abbrev pub is_disconnecting : State → Bool
is_disconnecting disconnecting = true
is_disconnecting _ = false

-- `EPIPE` or `ECONNRESET`.
abbrev pub is_fault : Errno → Bool
is_fault pipe = true
is_fault conn_reset = true
is_fault _ = false

abbrev pub queue : TcpConnection → Task → TcpConnection
queue c task = record c { queued = c.queued ++ (task ∷ []) }

abbrev pub queue_if : Bool → TcpConnection → Task → TcpConnection
queue_if test c task = record c { queued = if test then c.queued ++ (task ∷ []) else c.queued }

-- One call of `write`: the count, or none for -1. Without an answer left it would block.
abbrev pub write : TcpConnection → List Answer → Bytes → Option ℕ × TcpConnection
write c [] message = (none, record c { errno = would_block })
write c (accepts k ∷ rest) message =
    (some (min k (length message)), record c { answers = rest; sent = c.sent ++ take k message })
write c (refuses e ∷ rest) message = (none, record c { answers = rest; errno = e })

unfoldable pub shutdown_in_loop : TcpConnection → TcpConnection
shutdown_in_loop c = record c { shut = if c.writing then c.shut else true }

unfoldable pub shutdown : Bool → TcpConnection → TcpConnection
shutdown in_loop c =
    let c' = record c { state = disconnecting } in
    if is_connected c.state
    then (if in_loop then shutdown_in_loop c' else queue c' shutdown_in_loop_of)
    else c

unfoldable pub handle_close : Callbacks → TcpConnection → Result TcpConnection
handle_close cb c = do
  assert (is_connected c.state || is_disconnecting c.state)
  c' ← cb.connection_callback (record c { state = disconnected; reading = false; writing = false })
  cb.close_callback c'

-- Behind `write` in `handleWrite`.
unfoldable pub wrote : TcpConnection → TcpConnection
wrote c =
    let done = queue_if c.on_write_complete (record c { writing = false }) write_complete_of in
    if readable_bytes c.output == 0
    then (if is_disconnecting c.state then shutdown_in_loop done else done)
    else queue c handle_write_of

unfoldable pub after_write : Callbacks → Option ℕ × TcpConnection → Result TcpConnection
after_write cb (some (suc n), c) = do
  output ← retrieve c.output (suc n)
  ok (wrote (record c { output = output }))
after_write cb (_, c) = if is_fault c.errno then handle_close cb c else ok c

unfoldable pub handle_write : Callbacks → TcpConnection → Result TcpConnection
handle_write cb c =
    if c.writing then after_write cb (write c c.answers (readable c.output)) else ok c

-- The rest of `sendInLoop`, with what is left to send.
unfoldable pub send_rest : Callbacks → TcpConnection → Bytes → Result TcpConnection
send_rest cb c rest =
    let old = readable_bytes c.output in
    let marked =
      queue_if
        (leb c.high_water_mark (old + length rest)
          && (ltb old c.high_water_mark && c.on_high_water_mark))
        c (high_water_mark_of (old + length rest)) in
    elim (ltb 0 (length rest)) [
      | false ↦ ok c
      | true ↦ append c.output rest >>= λ output.
          handle_write cb (record marked { output = output; writing = true })
    ]

-- Behind the direct `write` in `sendInLoop`: a fault drops the message.
unfoldable pub after_direct_write :
    Callbacks → Bytes → Option ℕ × TcpConnection → Result TcpConnection
after_direct_write cb message (some n, c) =
    send_rest cb (queue_if (length message - n == 0 && c.on_write_complete) c write_complete_of)
      (drop n message)
after_direct_write cb message (none, c) = if is_fault c.errno then ok c else send_rest cb c message

unfoldable pub send_in_loop : Callbacks → TcpConnection → Bytes → Result TcpConnection
send_in_loop cb c message =
    if is_disconnected c.state
    then ok c
    else if not c.writing && readable_bytes c.output == 0
    then after_direct_write cb message (write c c.answers message)
    else send_rest cb c message

-- `send` of a text, inside the loop's thread or outside.
unfoldable pub send : Bool → Callbacks → TcpConnection → Bytes → Result TcpConnection
send in_loop cb c message =
    if is_connected c.state
    then (if in_loop then send_in_loop cb c message else ok (queue c (send_in_loop_of message)))
    else ok c

-- `send` of a buffer, with the buffer that it leaves.
unfoldable pub send_buffer :
    Bool → Callbacks → TcpConnection → Buffer → Result (TcpConnection × Buffer)
send_buffer in_loop cb c b =
    if not (is_connected c.state)
    then ok (c, b)
    else if in_loop
    then (send_in_loop cb c (readable b) >>= λ c'. ok (c', retrieve_all b))
    else (retrieve_all_as_string b >>= λ taken. ok (queue c (send_in_loop_of taken.0), taken.1))

unfoldable pub force_close : TcpConnection → TcpConnection
force_close c =
    if is_connected c.state || is_disconnecting c.state
    then queue (record c { state = disconnecting }) force_close_in_loop_of
    else c

unfoldable pub force_close_in_loop : Callbacks → TcpConnection → Result TcpConnection
force_close_in_loop cb c =
    if is_connected c.state || is_disconnecting c.state then handle_close cb c else ok c

unfoldable pub connect_established : Callbacks → TcpConnection → Result TcpConnection
connect_established cb c = do
  assert (is_connecting c.state)
  cb.connection_callback (record c { state = connected; reading = true })

-- `channel_->remove()` asserts that the channel waits for no event.
unfoldable pub connect_destroyed : Callbacks → TcpConnection → Result TcpConnection
connect_destroyed cb c = do
  c' ←
      if is_connected c.state
      then cb.connection_callback
          (record c { state = disconnected; reading = false; writing = false })
      else ok c
  assert (not (c'.reading || c'.writing))
  ok c'

-- `n` of `handleRead`: the count read, or -1. Errors are only logged.
unfoldable pub handle_read : Callbacks → TcpConnection → ReadResult → Result TcpConnection
handle_read cb c result = do
  (b, n) ← read_fd c.input result
  let c' = record c { input = b }
  elim n [
    | failed _ ↦ ok c'
    | got bytes ↦ if length bytes == 0 then handle_close cb c' else cb.message_callback c'
  ]
