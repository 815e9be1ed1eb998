-- ===== src/TimerQueue/Tests.antt =====
-- Examples of the timer queue.
use cloud_storage.Common.{◌+◌, List, [], ◌∷◌, none, length, ◌≡◌, arith, ok, ◌>>=◌}
use cloud_storage.TimerQueue.{TimerQueue}
use cloud_storage.TimerQueue.Silence.{Request, request_all, first_round, request_all-silent}

abbrev two_requests : List Request
two_requests =
    record { sec = 9; usec = 0; delay = 1000000; interval = 0 }
    ∷ record { sec = 10; usec = 5; delay = 2000000; interval = 2000000 }
    ∷ []

request_all-silent_example :
    (q : TimerQueue) × ((first_round 5 0 3000000 8 0 >>= request_all 1 two_requests) ≡ ok q)
    × (q.armed ≡ none)
    × (length q.timers ≡ 1 + length two_requests)
request_all-silent_example = request_all-silent 5 0 3000000 8 0 two_requests (omega arith)
