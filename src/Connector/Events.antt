-- ===== src/Connector/Events.antt =====
-- What reaches a connector, one event after the other.
use cloud_storage.Common.{ℕ, List, [], ◌∷◌, Bool, Result, ok, ◌>>=◌}
use cloud_storage.Connector.{
  Connector, Task, start_in_loop_of, stop_in_loop_of, reset_channel_of, start_in_loop, start,
  reset_channel, stop, stop_in_loop, restart, handle_write, handle_error,
}

-- What reaches the connector: calls of its operations, the loop that runs the first function that
-- it queued, a timer of `retry`, and events of the socket.
pub data Event : Type 0 where
  starts : Bool → Event
  stops restarts runs_task timer_fires fails : Event
  is_writable : ℕ → Bool → Event

abbrev pub run_task : List Task → Connector → Result Connector
run_task [] c = ok c
run_task (start_in_loop_of ∷ rest) c = start_in_loop (record c { queued = rest })
run_task (stop_in_loop_of ∷ rest) c = stop_in_loop (record c { queued = rest })
run_task (reset_channel_of ∷ rest) c = ok (reset_channel (record c { queued = rest }))

abbrev pub step : Event → Connector → Result Connector
step (starts in_loop) c = start in_loop c
step stops c = ok (stop c)
step restarts c = restart c
step runs_task c = run_task c.queued c
step timer_fires c = start_in_loop c
step fails c = handle_error c
step (is_writable err is_self) c = handle_write err is_self c

abbrev pub run : List Event → Connector → Result Connector
run [] c = ok c
run (e ∷ more) c = step e c >>= λ c'. run more c'
