-- ===== src/Connector/Tests.antt =====
-- Runs of the connector's code, and its theorems at concrete inputs.
use cloud_storage.Common.{
  ℕ, ◌≡◌, refl, List, [], ◌∷◌, true, false, length, ok, Result, failed_assert, Option, some, none,
}
use cloud_storage.Connector.{
  Connector, new_connector, econnrefused, enetunreach, einprogress, outcome, disconnected, start,
  start_in_loop, connect_with, after_connect, connecting_on, handle_write, after_writable, retry,
  remove_and_reset_channel, reset_channel, stop,
}
use cloud_storage.Connector.Events.{Event, starts, timer_fires, runs_task, is_writable, stops, run}
use cloud_storage.Connector.Accounts.{Accounts, Safely}
use cloud_storage.Connector.History.{run-Accounts}
use cloud_storage.Connector.Backoff.{delays_from, start-backoff}

start-backoff_example :
    (c' : Connector) × (run
        (starts true ∷ timer_fires ∷ timer_fires ∷ [])
        (new_connector (econnrefused ∷ enetunreach ∷ econnrefused ∷ []))
      ≡ ok c')
    × (c'.delays ≡ delays_from 0 3)
    × (c'.state ≡ disconnected)
    × (length c'.closed ≡ c'.opened)
unfolding outcome
start-backoff_example =
    start-backoff econnrefused (enetunreach ∷ econnrefused ∷ []) (refl, (refl, (refl, tt)))

first_delays : delays_from 0 8 ≡ 500 ∷ 1000 ∷ 2000 ∷ 4000 ∷ 8000 ∷ 16000 ∷ 30000 ∷ 30000 ∷ []
first_delays = refl

-- A refused attempt, one in progress that succeeds, and the reset of its channel.
abbrev events : List Event
events = starts true ∷ timer_fires ∷ is_writable 0 false ∷ runs_task ∷ []

run-Accounts_example :
    Safely Accounts (run events (new_connector (econnrefused ∷ einprogress ∷ [])))
run-Accounts_example = run-Accounts events (econnrefused ∷ einprogress ∷ [])

abbrev handed_of : Result Connector → Option (List ℕ)
handed_of (ok c) = some c.handed
handed_of _ = none

success_runs :
    handed_of (run events (new_connector (econnrefused ∷ einprogress ∷ []))) ≡ some (1 ∷ [])
unfolding start start_in_loop connect_with after_connect connecting_on handle_write after_writable
    retry remove_and_reset_channel reset_channel outcome
success_runs = refl

-- `stop` and `start` while a timer of `retry` waits: the timer finds the connector connecting.
timer_behind_start :
    run
      (starts true ∷ stops ∷ starts true ∷ timer_fires ∷ [])
      (new_connector (econnrefused ∷ einprogress ∷ []))
    ≡ failed_assert
unfolding start start_in_loop connect_with after_connect connecting_on retry outcome stop
timer_behind_start = refl
