-- ===== src/EventLoopThreadPool/Tests.antt =====
-- Runs of the pool's code, and its theorems at concrete inputs.
use cloud_storage.Common.{
  ℕ, ◌+◌, ◌≡◌, refl, List, [], ◌∷◌, true, false, none, some, map, Result, ok, ◌>>=◌, arith,
}
use cloud_storage.EventLoopThreadPool.{
  EventLoopThreadPool, new_pool, start, stop, set_thread_num, get_next_loop, start_loops,
}
use cloud_storage.EventLoopThreadPool.Rounds.{serve, serve-cycle}
use cloud_storage.EventLoopThreadPool.Restart.{get_next_loop-stale}

abbrev running : EventLoopThreadPool ℕ
running = record (new_pool 9) {
  started = true;
  num_threads = 3;
  next = 2;
  loops = 10 ∷ 11 ∷ 12 ∷ [];
}

serve-cycle_example : serve 3 running ≡ ok (map some (12 ∷ 10 ∷ 11 ∷ []), running)
serve-cycle_example = serve-cycle running refl (omega arith)

abbrev loop_of : ℕ → ℕ
loop_of i = 100 + i

get_next_loop-stale_example :
    (p' : EventLoopThreadPool ℕ) × ((stop true running >>= λ q.
    start true loop_of false (set_thread_num q 2) >>= λ r. get_next_loop r)
      ≡ ok (none, p'))
get_next_loop-stale_example =
    get_next_loop-stale loop_of false 2 running refl (omega arith) (omega arith)

abbrev loops_of : Result (EventLoopThreadPool ℕ) → List ℕ
loops_of (ok p) = p.loops
loops_of _ = []

start_runs : loops_of (start true loop_of true (set_thread_num (new_pool 9) 2)) ≡ 100 ∷ 101 ∷ []
unfolding start set_thread_num start_loops
start_runs = refl
