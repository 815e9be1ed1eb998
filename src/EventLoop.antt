-- ===== src/EventLoop.antt =====
-- inc/network/EventLoop.hpp and src/network/EventLoop.cpp: the functions that wait in a loop, and
-- how the loop is woken for them. A function is a handle of any type; what it queues when it is
-- called is a parameter. The poller and the timers are not part of this model.
pub mod Pending
mod Tests
use cloud_storage.Common.{
  ℕ, ◌+◌, Bool, true, false, not, ◌||◌, List, [], ◌∷◌, ◌++◌, if◌then◌else◌, Result, ok, ◌>>◌,
  assert,
}

-- `wakeups` is the counter of the eventfd, and `called` are the functions called so far.
pub record EventLoop {ℓ} (F : Type ℓ) : Type ℓ where
  pub looping : Bool
  pub quit_flag : Bool
  pub event_handling : Bool
  pub calling_pending_functors : Bool
  pub pending_functors : List F
  pub wakeups : ℕ
  pub called : List F

module _ {ℓ} {F : Type ℓ} where
  abbrev pub new_loop : EventLoop F
  new_loop = record {
    looping = false;
    quit_flag = false;
    event_handling = false;
    calling_pending_functors = false;
    pending_functors = [];
    wakeups = 0;
    called = [];
  }

  unfoldable pub wakeup : EventLoop F → EventLoop F
  wakeup l = record l { wakeups = l.wakeups + 1 }

  -- The read of the eventfd takes the whole counter.
  unfoldable pub handle_read : EventLoop F → EventLoop F
  handle_read l = record l { wakeups = 0 }

  unfoldable pub queue_in_loop : Bool → EventLoop F → F → EventLoop F
  unfolding wakeup
  queue_in_loop in_thread l f =
      let queued = record l { pending_functors = l.pending_functors ++ (f ∷ []) } in
      if not in_thread || l.calling_pending_functors then wakeup queued else queued

  unfoldable pub quit : Bool → EventLoop F → EventLoop F
  quit in_thread l = let l' = record l { quit_flag = true } in if in_thread then l' else wakeup l'

  -- What each function queues, from the loop's own thread.
  module _ (queues : F → List F) where
    abbrev pub queue_all : EventLoop F → List F → EventLoop F
    queue_all l [] = l
    queue_all l (f ∷ more) = queue_all (queue_in_loop true l f) more

    abbrev pub call : EventLoop F → F → EventLoop F
    call l f = queue_all (record l { called = l.called ++ (f ∷ []) }) (queues f)

    abbrev pub call_all : EventLoop F → List F → EventLoop F
    call_all l [] = l
    call_all l (f ∷ more) = call_all (call l f) more

    unfoldable pub run_in_loop : Bool → EventLoop F → F → EventLoop F
    run_in_loop in_thread l f = if in_thread then call l f else queue_in_loop in_thread l f

    unfoldable pub do_pending_functors : EventLoop F → EventLoop F
    do_pending_functors l =
        let l' =
          call_all (record l { calling_pending_functors = true; pending_functors = [] })
            l.pending_functors in
        record l' { calling_pending_functors = false }
