-- ===== src/TimerQueue.antt =====
-- inc/network/Timer.hpp, inc/network/TimerQueue.hpp and src/network/TimerQueue.cpp. A pointer to a
-- timer is the timer, with its address: no timer changes while it is in a set.
pub mod Silence
mod Tests
use cloud_storage.Common.{
  ℕ, suc, zero, ◌+◌, ◌-◌, Bool, true, false, not, ◌&&◌, ◌||◌, List, [], ◌∷◌, ◌++◌, map, Option,
  none, some, length, ltb, leb, ◌==◌, if◌then◌else◌, Result, ok, failed_assert, ◌>>=◌, ◌>>◌, assert,
}
use cloud_storage.TimeStamp.{TimeStamp, invalid, add_time, less}

-- `interval` is in microseconds; the callback is known by the timer's sequence number.
pub record Timer : Type 0 where
  pub address : ℕ
  pub expiration : TimeStamp
  pub interval : ℕ
  pub sequence : ℕ

-- `new Timer` at an address, with the next sequence number.
unfoldable pub new_timer : ℕ → ℕ → TimeStamp → ℕ → Timer
new_timer address sequence when interval = record {
  address = address;
  expiration = when;
  interval = interval;
  sequence = sequence;
}

-- The timers of EventLoop::runAfter and EventLoop::runEvery, at the time `now`.
unfoldable pub run_after : ℕ → ℕ → TimeStamp → ℕ → Timer
unfolding new_timer
run_after address sequence now delay = new_timer address sequence (add_time now delay) 0

unfoldable pub run_every : ℕ → ℕ → TimeStamp → ℕ → Timer
unfolding new_timer
run_every address sequence now interval =
    new_timer address sequence (add_time now interval) interval

unfoldable pub repeats : Timer → Bool
repeats t = ltb 0 t.interval

unfoldable pub restart : Timer → TimeStamp → Timer
unfolding repeats add_time
restart t now = record t { expiration = if repeats t then add_time now t.interval else invalid }

pub record TimerId : Type 0 where
  pub address : ℕ
  pub sequence : ℕ

-- The sets as lists in their order: `timers` by expiration and address, the others by address and
-- sequence. `armed` is the time that the timerfd was last set to, none once it has been read.
pub record TimerQueue : Type 0 where
  pub timers : List Timer
  pub active_timers : List Timer
  pub calling_expired_timers : Bool
  pub canceling_timers : List TimerId
  pub armed : Option ℕ

abbrev pub new_queue : TimerQueue
new_queue = record {
  timers = [];
  active_timers = [];
  calling_expired_timers = false;
  canceling_timers = [];
  armed = none;
}

abbrev pub same_time : Timer → Timer → Bool
same_time a b = a.expiration.micro_seconds_since_epoch == b.expiration.micro_seconds_since_epoch

-- `<` of two entries, and of two active timers.
abbrev pub entry_less : Timer → Timer → Bool
entry_less a b = less a.expiration b.expiration || same_time a b && ltb a.address b.address

abbrev pub active_less : Timer → Timer → Bool
active_less a b = ltb a.address b.address || a.address == b.address && ltb a.sequence b.sequence

-- `std::set::insert`: none where the set has the element.
unfoldable pub set_insert : (Timer → Timer → Bool) → Timer → List Timer → Option (List Timer)
set_insert lt t [] = some (t ∷ [])
set_insert lt t (u ∷ us) = elim (lt t u) [
  | true ↦ some (t ∷ u ∷ us)
  | false ↦ elim (lt u t) [
    | true ↦ elim (set_insert lt t us) [ some vs ↦ some (u ∷ vs) | none ↦ none ]
    | false ↦ none
  ]
]

-- `std::set::erase`: none where the set has no such element.
unfoldable pub set_erase : (Timer → Timer → Bool) → Timer → List Timer → Option (List Timer)
set_erase lt t [] = none
set_erase lt t (u ∷ us) = elim (lt u t || lt t u) [
  | true ↦ elim (set_erase lt t us) [ some vs ↦ some (u ∷ vs) | none ↦ none ]
  | false ↦ some us
]

abbrev is_id : TimerId → Timer → Bool
is_id id t = t.address == id.address && t.sequence == id.sequence

-- `activeTimers_.find`.
unfoldable pub find_active : TimerId → List Timer → Option Timer
find_active id [] = none
find_active id (t ∷ ts) = elim (is_id id t) [ true ↦ some t | false ↦ find_active id ts ]

abbrev pub has_id : TimerId → List TimerId → Bool
has_id id [] = false
has_id id (i ∷ is) = i.address == id.address && i.sequence == id.sequence || has_id id is

-- An assertion that a set operation has succeeded.
abbrev pub done : Option (List Timer) → Result (List Timer)
done (some ts) = ok ts
done none = failed_assert

abbrev pub same_size : TimerQueue → Bool
same_size q = length q.timers == length q.active_timers

unfoldable pub how_much_time_from_now : TimeStamp → TimeStamp → ℕ
how_much_time_from_now when now =
    let microseconds = when.micro_seconds_since_epoch - now.micro_seconds_since_epoch in
    if ltb microseconds 100 then 100 else microseconds

unfoldable pub reset_timerfd : TimerQueue → TimeStamp → TimeStamp → TimerQueue
unfolding how_much_time_from_now
reset_timerfd q expiration now = record q { armed = some (how_much_time_from_now expiration now) }

abbrev pub is_earliest : Timer → List Timer → Bool
is_earliest t [] = true
is_earliest t (u ∷ us) = less t.expiration u.expiration

unfoldable pub insert : TimerQueue → Timer → Result (Bool × TimerQueue)
unfolding set_insert
insert q t = do
  assert (same_size q)
  timers ← done (set_insert entry_less t q.timers)
  active ← done (set_insert active_less t q.active_timers)
  let q' : TimerQueue = record q { timers = timers; active_timers = active }
  assert (same_size q')
  ok (is_earliest t q.timers, q')

-- `now` is the clock when the timerfd is set.
unfoldable pub add_timer_in_loop : TimerQueue → Timer → TimeStamp → Result TimerQueue
unfolding insert reset_timerfd
add_timer_in_loop q t now = do
  (earliest_changed, q') ← insert q t
  ok (if earliest_changed then reset_timerfd q' t.expiration now else q')

unfoldable pub cancel_in_loop : TimerQueue → TimerId → Result TimerQueue
unfolding find_active set_erase
cancel_in_loop q id = do
  assert (same_size q)
  q' ← elim (find_active id q.active_timers) [
    | some t ↦ do
      timers ← done (set_erase entry_less t q.timers)
      active ← done (set_erase active_less t q.active_timers)
      ok (record q { timers = timers; active_timers = active })
    | none ↦ ok (record q {
      canceling_timers =
          if q.calling_expired_timers && not (has_id id q.canceling_timers)
          then id ∷ q.canceling_timers
          else q.canceling_timers;
    })
  ]
  assert (same_size q')
  ok q'

-- The entries before `lower_bound` of the sentry, and the others.
unfoldable pub split_due : TimeStamp → List Timer → List Timer × List Timer
split_due now [] = ([], [])
split_due now (t ∷ ts) = elim (less now t.expiration) [
  | true ↦ ([], t ∷ ts)
  | false ↦ (t ∷ (split_due now ts).0, (split_due now ts).1)
]

unfoldable pub erase_all : List Timer → List Timer → Result (List Timer)
unfolding set_erase
erase_all [] active = ok active
erase_all (t ∷ ts) active = do rest ← done (set_erase active_less t active); erase_all ts rest

-- The first time behind the due ones is later than `now`.
abbrev pub later_first : TimeStamp → List Timer → Bool
later_first now [] = true
later_first now (t ∷ ts) = less now t.expiration

unfoldable pub get_expired : TimerQueue → TimeStamp → Result (List Timer × TimerQueue)
unfolding split_due erase_all
get_expired q now = do
  assert (same_size q)
  let (expired, rest) = split_due now q.timers
  assert (later_first now rest)
  active ← erase_all expired q.active_timers
  let q' : TimerQueue = record q { timers = rest; active_timers = active }
  assert (same_size q')
  ok (expired, q')

abbrev id_of : Timer → TimerId
id_of t = record { address = t.address; sequence = t.sequence }

-- The loop of `reset`.
unfoldable pub restart_all : List Timer → TimeStamp → TimerQueue → Result TimerQueue
unfolding repeats restart insert
restart_all [] now q = ok q
restart_all (t ∷ ts) now q = elim (repeats t && not (has_id (id_of t) q.canceling_timers)) [
  | true ↦ do (_, q') ← insert q (restart t now); restart_all ts now q'
  | false ↦ restart_all ts now q
]

-- `nextExpire`.
abbrev pub next_expire : List Timer → TimeStamp
next_expire [] = invalid
next_expire (t ∷ ts) = t.expiration

unfoldable pub reset : List Timer → TimeStamp → TimerQueue → Result TimerQueue
unfolding restart_all reset_timerfd
reset expired now q = do
  q' ← restart_all expired now q
  let next = next_expire q'.timers
  ok (if ltb 0 next.micro_seconds_since_epoch then reset_timerfd q' next now else q')

-- `run` is what the callbacks, called one after the other, do to the queue.
unfoldable pub handle_read :
    (List Timer → TimerQueue → Result TimerQueue) → TimerQueue → TimeStamp → Result TimerQueue
unfolding get_expired reset
handle_read run q now = do
  (expired, q1) ← get_expired (record q { armed = none }) now
  q2 ← run expired (record q1 { calling_expired_timers = true; canceling_timers = [] })
  reset expired now (record q2 { calling_expired_timers = false })
