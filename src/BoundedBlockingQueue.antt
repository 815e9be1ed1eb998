-- ===== src/BoundedBlockingQueue.antt =====
-- inc/utils/datastructures/BoundedBlockingQueue.hpp. A thread runs from one wait to the next while
-- it holds the mutex, so these parts of the operations are the steps.

pub mod Steps
mod Tests
use cloud_storage.Common.{
  ℕ, suc, zero, ◌+◌, ◌-◌, ◌<◌, Bool, true, false, List, [], ◌∷◌, ◌++◌, Option, none, some, length,
  leb, ◌==◌, if◌then◌else◌,
}

-- The threads at a condition variable: those that sleep, and those that have been woken and have not
-- held the mutex since.
pub record Condition : Type 0 where
  pub sleeping : ℕ
  pub woken : ℕ

-- `put_items` and `taken_items` are what went in and out so far.
pub record BoundedBlockingQueue {ℓ} (A : Type ℓ) : Type ℓ where
  pub capacity : ℕ
  pub queue : List A
  pub not_empty : Condition
  pub not_full : Condition
  pub put_items : List A
  pub taken_items : List A

abbrev pub no_threads : Condition
no_threads = record { sleeping = 0; woken = 0 }

-- `notifyOne`: nothing happens when no thread sleeps.
unfoldable pub notify_one : Condition → Condition
notify_one c = record {
  sleeping = c.sleeping - 1;
  woken = if c.sleeping == 0 then c.woken else suc c.woken;
}

-- A thread that was woken holds the mutex again.
abbrev pub resumed : Bool → Condition → Condition
resumed again c = record c { woken = if again then c.woken - 1 else c.woken }

-- `wait`, for a thread that holds the mutex.
abbrev pub asleep : Condition → Condition
asleep c = record c { sleeping = suc c.sleeping }

module _ {ℓ} {A : Type ℓ} where
  abbrev pub new_queue_of : ℕ → BoundedBlockingQueue A
  new_queue_of max_size = record {
    capacity = max_size;
    queue = [];
    not_empty = no_threads;
    not_full = no_threads;
    put_items = [];
    taken_items = [];
  }

  unfoldable pub is_full : BoundedBlockingQueue A → Bool
  is_full q = leb q.capacity (length q.queue)

  -- `put` from the test of the loop on; `again` tells whether the thread comes from the wait.
  unfoldable pub put : Bool → A → BoundedBlockingQueue A → BoundedBlockingQueue A
  unfolding is_full notify_one
  put again x q =
      if is_full q then record q { not_full = asleep (resumed again q.not_full) } else record q {
        queue = q.queue ++ (x ∷ []);
        not_full = resumed again q.not_full;
        not_empty = notify_one q.not_empty;
        put_items = q.put_items ++ (x ∷ []);
      }

  -- `take` from the test of the loop on.
  abbrev pub take_from : Bool → List A → BoundedBlockingQueue A → BoundedBlockingQueue A
  take_from again [] q = record q { not_empty = asleep (resumed again q.not_empty) }
  take_from again (front ∷ rest) q = record q {
    queue = rest;
    not_empty = resumed again q.not_empty;
    not_full = notify_one q.not_full;
    taken_items = q.taken_items ++ (front ∷ []);
  }

  unfoldable pub take_front : Bool → BoundedBlockingQueue A → BoundedBlockingQueue A
  unfolding notify_one
  take_front again q = take_from again q.queue q

  -- One step of one thread. A sleeping thread may also wake up by itself, as POSIX allows.
  pub data Step : BoundedBlockingQueue A → BoundedBlockingQueue A → Type ℓ where
    puts : (q : BoundedBlockingQueue A) (x : A) → Step q (put false x q)
    puts_again : (q : BoundedBlockingQueue A) (x : A) → 0 < q.not_full.woken → Step q (put true x q)
    takes : (q : BoundedBlockingQueue A) → Step q (take_front false q)
    takes_again : (q : BoundedBlockingQueue A) → 0 < q.not_empty.woken → Step q (take_front true q)
    producer_wakes :
        (q : BoundedBlockingQueue A)
        → 0 < q.not_full.sleeping
        → Step q (record q { not_full = notify_one q.not_full })
    consumer_wakes :
        (q : BoundedBlockingQueue A)
        → 0 < q.not_empty.sleeping
        → Step q (record q { not_empty = notify_one q.not_empty })

  -- The states that the threads reach from a new queue.
  pub data IsReachable (max_size : ℕ) : BoundedBlockingQueue A → Type ℓ where
    created : IsReachable max_size (new_queue_of max_size)
    stepped :
        {q q' : BoundedBlockingQueue A}
        → IsReachable max_size q
        → Step q q'
        → IsReachable max_size q'
