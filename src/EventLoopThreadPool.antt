-- ===== src/EventLoopThreadPool.antt =====
-- inc/network/EventLoopThreadPool.hpp and src/network/EventLoopThreadPool.cpp: the loops that
-- connections are spread over. A loop is a handle of any type. What starting a thread returns is a
-- parameter, and so is whether the call is made in the thread of the base loop. The number of threads
-- is not negative.
pub mod Rounds
pub mod Restart
mod Tests
use cloud_storage.Common.{
  ℕ, zero, suc, ◌+◌, Bool, true, false, not, ◌&&◌, List, [], ◌∷◌, ◌++◌, Option, none, some, length,
  get_elem?, leb, ◌==◌, if◌then◌else◌, Result, ok, ◌>>=◌, ◌>>◌, assert,
}

-- `next` is the index of the loop that is handed out next; `init_calls` and `quits` are the loops
-- that the start callback and `quit` were called for.
pub record EventLoopThreadPool {ℓ} (A : Type ℓ) : Type ℓ where
  pub base_loop : A
  pub started : Bool
  pub num_threads : ℕ
  pub next : ℕ
  pub loops : List A
  pub init_calls : List A
  pub quits : List A

module _ {ℓ} {A : Type ℓ} where
  abbrev pub new_pool : A → EventLoopThreadPool A
  new_pool base = record {
    base_loop = base;
    started = false;
    num_threads = 0;
    next = 0;
    loops = [];
    init_calls = [];
    quits = [];
  }

  unfoldable pub set_thread_num : EventLoopThreadPool A → ℕ → EventLoopThreadPool A
  set_thread_num p n = record p { num_threads = n }

  -- `n` threads from index `i` on.
  unfoldable pub start_loops : (ℕ → A) → ℕ → ℕ → List A
  start_loops start_loop i zero = []
  start_loops start_loop i (suc n) = start_loop i ∷ start_loops start_loop (i + 1) n

  -- Each thread calls the callback on its own loop; without threads the base loop gets it.
  unfoldable pub start :
      Bool → (ℕ → A) → Bool → EventLoopThreadPool A → Result (EventLoopThreadPool A)
  start in_loop start_loop has_callback p = do
    assert (not p.started)
    assert in_loop
    let more = start_loops start_loop 0 p.num_threads
    let called = if p.num_threads == 0 then p.base_loop ∷ [] else more
    ok (record p {
      started = true;
      loops = p.loops ++ more;
      init_calls = if has_callback then p.init_calls ++ called else p.init_calls;
    })

  unfoldable pub stop : Bool → EventLoopThreadPool A → Result (EventLoopThreadPool A)
  stop in_loop p = do
    assert p.started
    assert in_loop
    ok (record p { quits = p.quits ++ p.loops; loops = []; started = false })

  -- An index behind the last loop: `loops_[next_]` is undefined, and the loop is none.
  unfoldable pub get_next_loop : EventLoopThreadPool A → Result (Option A × EventLoopThreadPool A)
  get_next_loop p = do
    assert p.started
    let next = p.next + 1
    ok (
        if length p.loops == 0 then (some p.base_loop, p) else (
          get_elem? p.loops p.next,
          record p { next = if leb (length p.loops) next then 0 else next },
        ))

  unfoldable pub get_all_loops : EventLoopThreadPool A → Result (List A)
  get_all_loops p = do
    assert p.started
    ok (if length p.loops == 0 then p.base_loop ∷ [] else p.loops)
