-- ===== src/EventLoop/Tests.antt =====
-- Runs of the loop's code, and its theorems at concrete inputs.
use cloud_storage.Common.{
  ℕ, ◌+◌, ◌≡◌, refl, false, List, [], ◌∷◌, ◌++◌, map, length, ◌==◌, if◌then◌else◌,
}
use cloud_storage.EventLoop.{
  handle_read, EventLoop, new_loop, do_pending_functors, queue_in_loop, wakeup,
}
use cloud_storage.EventLoop.Pending.{
  other_queues, handles, reads_wakeups, ends_round, acts, IsAwake, queued_by,
  do_pending_functors_lem, round-IsAwake,
}

-- Function 1 queues 2 and 3; the others queue nothing.
abbrev queues : ℕ → List ℕ
queues f = if f == 1 then 2 ∷ 3 ∷ [] else []

abbrev waiting : EventLoop ℕ
waiting = record new_loop { pending_functors = 1 ∷ 7 ∷ []; wakeups = 1 }

do_pending_functors_lem_example : do_pending_functors queues waiting ≡ record waiting {
  calling_pending_functors = false;
  called = [] ++ (1 ∷ 7 ∷ []);
  wakeups = 1 + length (queued_by queues (1 ∷ 7 ∷ []));
  pending_functors = queued_by queues (1 ∷ 7 ∷ []);
}
do_pending_functors_lem_example = do_pending_functors_lem queues waiting

round-IsAwake_example : IsAwake queues (
    acts queues waiting (
      (reads_wakeups ∷ handles 1 ∷ other_queues 4 ∷ [])
      ++ (ends_round ∷ map other_queues (5 ∷ []))))
round-IsAwake_example =
    round-IsAwake queues waiting (reads_wakeups ∷ handles 1 ∷ other_queues 4 ∷ []) (5 ∷ [])

round_runs :
    (acts queues waiting (reads_wakeups ∷ handles 1 ∷ other_queues 4 ∷ ends_round ∷ [])).called
    ≡ 1 ∷ 1 ∷ 7 ∷ 2 ∷ 3 ∷ 4 ∷ []
unfolding queue_in_loop wakeup do_pending_functors handle_read
round_runs = refl
