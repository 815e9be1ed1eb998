-- ===== src/Connector/History.antt =====
-- The accounts behind any sequence of events.
use cloud_storage.Common.{
  ℕ, ◌≡◌, refl, sym, ◌∙◌, List, [], ◌∷◌, ◌++◌, Bool, true, false, Option, none, some, arith, Result,
  ok, failed_assert, out_of_fuel, ◌>>=◌, subst,
}
use cloud_storage.Connector.{
  Connector, Errno, Task, start_in_loop_of, stop_in_loop_of, reset_channel_of, start, reset_channel,
  stop, restart, disconnected, new_connector, k_init_retry_delay_ms,
}
use cloud_storage.Connector.Events.{
  Event, starts, stops, restarts, runs_task, timer_fires, fails, is_writable, run_task, step, run,
}
use cloud_storage.Connector.Accounts.{
  resets, WatchesRight, Accounts, Safely, if_either, resets-append, start_in_loop-Safely,
  stop_in_loop-Safely, handle_error-Safely, handle_write-Safely,
}

reset-Accounts :
    (ch : Option ℕ) (w : Bool) (rest : List Task) (c : Connector)
    → Accounts (record c { channel = ch; watched = w; queued = reset_channel_of ∷ rest })
    → Accounts (reset_channel (record c { channel = ch; watched = w; queued = rest }))
unfolding reset_channel
reset-Accounts none w rest c h = absurd (omega (arith, h.watches.1))
reset-Accounts (some fd) true rest c h = absurd (omega (arith, h.watches))
reset-Accounts (some fd) false rest c h = record {
  balance = h.balance;
  watches = (refl, omega (arith, h.watches));
  connects = h.connects;
}

-- A queued function that does not reset the channel.
queued-Accounts :
    (t : Task) (c : Connector)
    → resets (t ∷ []) ≡ 0
    → Accounts c
    → Accounts (record c { queued = c.queued ++ (t ∷ []) })
queued-Accounts t c e h =
    let same : resets (c.queued ++ (t ∷ [])) ≡ resets c.queued =
      resets-append c.queued (t ∷ []) ∙ omega (arith, e) in
    record {
      balance = h.balance;
      watches = subst (WatchesRight c.channel c.watched) (sym same) h.watches;
      connects = h.connects;
    }

run_task-Safely :
    (q : List Task) (c : Connector)
    → Accounts (record c { queued = q })
    → Safely Accounts (run_task q (record c { queued = q }))
run_task-Safely [] c h = h
run_task-Safely (start_in_loop_of ∷ rest) c h =
    start_in_loop-Safely (record c { queued = rest })
      (record { balance = h.balance; watches = h.watches; connects = h.connects })
run_task-Safely (stop_in_loop_of ∷ rest) c h =
    stop_in_loop-Safely (record c { queued = rest })
      (record { balance = h.balance; watches = h.watches; connects = h.connects })
run_task-Safely (reset_channel_of ∷ rest) c h = reset-Accounts c.channel c.watched rest c h

step-Safely : (e : Event) (c : Connector) → Accounts c → Safely Accounts (step e c)
unfolding start stop restart
step-Safely (starts in_loop) c h =
    if_either (Safely Accounts) in_loop
      (start_in_loop-Safely (record c { connect = true })
        (record { balance = h.balance; watches = h.watches; connects = h.connects }))
      (queued-Accounts start_in_loop_of (record c { connect = true }) refl
        (record { balance = h.balance; watches = h.watches; connects = h.connects }))
step-Safely stops c h =
    queued-Accounts stop_in_loop_of (record c { connect = false }) refl
      (record { balance = h.balance; watches = h.watches; connects = h.connects })
step-Safely restarts c h =
    start_in_loop-Safely
      (record c { state = disconnected; retry_delay_ms = k_init_retry_delay_ms; connect = true })
      (record { balance = h.balance; watches = h.watches; connects = λ e. absurd cc })
step-Safely runs_task c h = run_task-Safely c.queued c h
step-Safely timer_fires c h = start_in_loop-Safely c h
step-Safely fails c h = handle_error-Safely c h
step-Safely (is_writable err is_self) c h = handle_write-Safely err is_self c h

run-from :
    (es : List Event) (r : Result Connector)
    → Safely Accounts r
    → Safely Accounts (r >>= λ c. run es c)
run-from es failed_assert h = tt
run-from es out_of_fuel h = h
run-from [] (ok c) h = h
run-from (e ∷ es) (ok c) h = run-from es (step e c) (step-Safely e c h)

-- A connector from its constructor on, through any sequence of calls, queued functions, timers and
-- events of its socket, whatever `connect` answers: an assertion fails on the way, or at the end
-- every socket that was created is accounted for, since those that were closed, those that were
-- handed over and the one that is watched add up; a connector that is connecting watches one; and a
-- channel that was removed waits for exactly one queued reset. No run is out of fuel.
pub run-Accounts :
    (es : List Event) (errnos : List Errno) → Safely Accounts (run es (new_connector errnos))
run-Accounts es errnos =
    run-from es (ok (new_connector errnos))
      (record { balance = refl; watches = (refl, refl); connects = λ e. absurd cc })
