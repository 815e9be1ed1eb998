-- ===== src/Connector.antt =====
-- inc/network/Connector.hpp and src/network/Connector.cpp: the client's attempts to connect. What
-- `connect` leaves in `errno` is a list, call by call. Dereferencing a null `channel_` counts as an
-- assertion that fails.
pub mod Events
pub mod Accounts
pub mod History
pub mod Backoff
mod Tests
use cloud_storage.Common.{
  ℕ, zero, suc, ◌+◌, ◌*◌, Bool, true, false, List, [], ◌∷◌, ◌++◌, Option, none, some, min, ◌==◌,
  if◌then◌else◌, Result, ok, failed_assert, ◌>>=◌, ◌>>◌, assert,
}

pub data State : Type 0 where
  disconnected connecting connected : State

-- The values that `savedErrno` is compared with, and any other.
pub data Errno : Type 0 where
  no_error einprogress eintr eisconn : Errno
  eagain eaddrinuse eaddrnotavail econnrefused enetunreach : Errno
  eacces eperm eafnosupport ealready ebadf efault enotsock unexpected : Errno

pub data Task : Type 0 where
  start_in_loop_of stop_in_loop_of reset_channel_of : Task

-- `channel` is the descriptor of `channel_`, and `watched` tells whether the loop still watches it.
-- The last fields are the world: `errno` of the calls of `connect` to come, how many sockets were
-- created (the number of a socket is its descriptor), those that were closed and those that
-- `newConnectionCallback_` got, the delays of the timers in milliseconds, and what the loop queues.
pub record Connector : Type 0 where
  pub connect : Bool
  pub state : State
  pub channel : Option ℕ
  pub watched : Bool
  pub retry_delay_ms : ℕ
  pub errnos : List Errno
  pub opened : ℕ
  pub closed : List ℕ
  pub handed : List ℕ
  pub delays : List ℕ
  pub queued : List Task

abbrev pub k_max_retry_delay_ms : ℕ
k_max_retry_delay_ms = 30 * 1000

abbrev pub k_init_retry_delay_ms : ℕ
k_init_retry_delay_ms = 500

abbrev pub new_connector : List Errno → Connector
new_connector errnos = record {
  connect = false;
  state = disconnected;
  channel = none;
  watched = false;
  retry_delay_ms = k_init_retry_delay_ms;
  errnos = errnos;
  opened = 0;
  closed = [];
  handed = [];
  delays = [];
  queued = [];
}

abbrev pub is_disconnected : State → Bool
is_disconnected disconnected = true
is_disconnected _ = false

abbrev pub is_connecting : State → Bool
is_connecting connecting = true
is_connecting _ = false

abbrev pub is_null : Option ℕ → Bool
is_null none = true
is_null (some fd) = false

abbrev pub close : Connector → ℕ → Connector
close c fd = record c { closed = c.closed ++ (fd ∷ []) }

unfoldable pub retry : Connector → ℕ → Connector
retry c fd =
    let c' = close (record c { state = disconnected }) fd in
    if c.connect
    then record c' {
      delays = c.delays ++ (c.retry_delay_ms ∷ []);
      retry_delay_ms = min (c.retry_delay_ms * 2) k_max_retry_delay_ms;
    }
    else c'

-- `connecting`, on a socket.
unfoldable pub connecting_on : Connector → ℕ → Result Connector
connecting_on c fd = do
  assert (is_null c.channel)
  ok (record c { state = connecting; channel = some fd; watched = true })

-- The switch on `savedErrno`.
pub data Outcome : Type 0 where
  pending retries gives_up : Outcome

unfoldable pub outcome : Errno → Outcome
outcome no_error = pending
outcome einprogress = pending
outcome eintr = pending
outcome eisconn = pending
outcome eagain = retries
outcome eaddrinuse = retries
outcome eaddrnotavail = retries
outcome econnrefused = retries
outcome enetunreach = retries
outcome _ = gives_up

unfoldable pub after_connect : Outcome → Connector → ℕ → Result Connector
after_connect pending c fd = connecting_on c fd
after_connect retries c fd = ok (retry c fd)
after_connect gives_up c fd = ok (close c fd)

-- `connect`, with the answers to come. Without one left it is in progress.
unfoldable pub connect_with : List Errno → Connector → Result Connector
connect_with [] c = after_connect pending (record c { opened = c.opened + 1 }) c.opened
connect_with (e ∷ rest) c =
    after_connect (outcome e) (record c { errnos = rest; opened = c.opened + 1 }) c.opened

unfoldable pub start_in_loop : Connector → Result Connector
start_in_loop c = do
  assert (is_disconnected c.state)
  if c.connect then connect_with c.errnos c else ok c

unfoldable pub start : Bool → Connector → Result Connector
start in_loop c =
    let c' = record c { connect = true } in
    if in_loop
    then start_in_loop c'
    else ok (record c' { queued = c.queued ++ (start_in_loop_of ∷ []) })

-- The descriptor, and the connector behind the removal.
unfoldable pub remove_and_reset_channel : Connector → Result (ℕ × Connector)
remove_and_reset_channel c = elim c.channel [
  | none ↦ failed_assert
  | some fd ↦ ok (fd, record c { watched = false; queued = c.queued ++ (reset_channel_of ∷ []) })
]

unfoldable pub reset_channel : Connector → Connector
reset_channel c = record c { channel = none }

unfoldable pub stop : Connector → Connector
stop c = record c { connect = false; queued = c.queued ++ (stop_in_loop_of ∷ []) }

unfoldable pub stop_in_loop : Connector → Result Connector
stop_in_loop c =
    if is_connecting c.state
    then (remove_and_reset_channel (record c { state = disconnected }) >>= λ removed.
        ok (retry removed.1 removed.0))
    else ok c

unfoldable pub restart : Connector → Result Connector
restart c =
    start_in_loop
      (record c { state = disconnected; retry_delay_ms = k_init_retry_delay_ms; connect = true })

-- `handleWrite`, with the error of the socket and whether it is connected to itself.
unfoldable pub after_writable : ℕ → Bool → ℕ → Connector → Connector
after_writable err is_self fd c =
    if err == 0
    then (if is_self
        then retry c fd
        else if c.connect
        then record c { state = connected; handed = c.handed ++ (fd ∷ []) }
        else close (record c { state = connected }) fd)
    else retry c fd

unfoldable pub handle_write : ℕ → Bool → Connector → Result Connector
handle_write err is_self c =
    if is_connecting c.state
    then (remove_and_reset_channel c >>= λ removed.
        ok (after_writable err is_self removed.0 removed.1))
    else (do assert (is_disconnected c.state); ok c)

unfoldable pub handle_error : Connector → Result Connector
handle_error c =
    if is_connecting c.state
    then (remove_and_reset_channel c >>= λ removed. ok (retry removed.1 removed.0))
    else ok c
