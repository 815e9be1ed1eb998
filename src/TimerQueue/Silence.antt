-- ===== src/TimerQueue/Silence.antt =====
-- A queue behind the first repeating timer.
use cloud_storage.Common.{
  ℕ, suc, ◌+◌, ◌<◌, ◌≤◌, true, false, Bool-cases, inl, inr, ◌&&◌, List, [], ◌∷◌, ◌++◌, none, some,
  length, ltb, ◌==◌, Result, ok, ◌>>=◌, ◌≡◌, refl, ap, ◌∙◌, arith, length-append, lt→ltb,
}
use cloud_storage.TimeStamp.{TimeStamp, from_micro_seconds, now, add_time}
use cloud_storage.TimerQueue.{
  Timer, TimerQueue, new_queue, new_timer, run_every, set_insert, entry_less, active_less, insert,
  is_earliest, add_timer_in_loop, handle_read, restart, repeats, reset, restart_all, get_expired,
  split_due, erase_all, set_erase, reset_timerfd,
}

-- Timers of the time 0 at addresses below `n`.
abbrev pub Below : ℕ → List Timer → Type 0
Below n [] = Unit
Below n (t ∷ ts) = (t.address < n) × (t.expiration.micro_seconds_since_epoch ≡ 0) × Below n ts

abbrev AtZero : Timer → Type 0
AtZero t = t.expiration.micro_seconds_since_epoch ≡ 0

set_insert-entry :
    (t : Timer) (ts : List Timer)
    → AtZero t
    → Below t.address ts
    → set_insert entry_less t ts ≡ some (ts ++ (t ∷ []))
unfolding set_insert
set_insert-entry t [] z h = refl
set_insert-entry t (u ∷ us) z (a, e, b) =
    let p : entry_less t u ≡ false = ground (arith, z, a, e) in
    let q : entry_less u t ≡ true = ground (arith, z, a, e) in
    rw (p, set_insert) (rw q (rw (set_insert-entry t us z b) refl))

set_insert-active :
    (t : Timer) (ts : List Timer)
    → Below t.address ts
    → set_insert active_less t ts ≡ some (ts ++ (t ∷ []))
unfolding set_insert
set_insert-active t [] h = refl
set_insert-active t (u ∷ us) (a, e, b) =
    let p : active_less t u ≡ false = ground (arith, a) in
    let q : active_less u t ≡ true = ground (arith, a) in
    rw (p, set_insert) (rw q (rw (set_insert-active t us b) refl))

-- A queue whose two sets hold the same timers.
abbrev pub holding : List Timer → TimerQueue → TimerQueue
holding ts q = record q { timers = ts; active_timers = ts }

same : (n : ℕ) → (n == n) ≡ true
same n = ground arith

insert-append :
    (t : Timer) (ts : List Timer) (q : TimerQueue)
    → AtZero t
    → Below t.address ts
    → insert (holding ts q) t ≡ ok (is_earliest t ts, holding (ts ++ (t ∷ [])) q)
unfolding insert
insert-append t ts q z b =
    rw (same (length ts), insert)
      (rw (set_insert-entry t ts z b)
        (rw (set_insert-active t ts b) (rw (same (length (ts ++ (t ∷ [])))) refl)))

Below-append :
    (n m : ℕ) (t : Timer) (ts : List Timer)
    → n ≤ m
    → t.address < m
    → AtZero t
    → Below n ts
    → Below m (ts ++ (t ∷ []))
Below-append n m t [] h k z b = (k, z, tt)
Below-append n m t (u ∷ us) h k z (a, e, b) = (omega (arith, a), e, Below-append n m t us h k z b)

-- A later call of runEvery or runAfter: the clock, and the delay in microseconds. The interval is 0
-- for runAfter.
pub record Request : Type 0 where
  pub sec : ℕ
  pub usec : ℕ
  pub delay : ℕ
  pub interval : ℕ

-- The timers of the calls, each at an address behind those before it.
unfoldable pub request_all : ℕ → List Request → TimerQueue → Result TimerQueue
request_all n [] q = ok q
request_all n (r ∷ rs) q =
    add_timer_in_loop q (new_timer n n (add_time (now r.sec r.usec) r.delay) r.interval)
      (now r.sec r.usec)
    >>= request_all (suc n) rs

add-silent :
    (t u : Timer) (us : List Timer) (q : TimerQueue) (now : TimeStamp)
    → AtZero t
    → AtZero u
    → Below t.address (u ∷ us)
    → add_timer_in_loop (holding (u ∷ us) q) t now ≡ ok (holding ((u ∷ us) ++ (t ∷ [])) q)
unfolding add_timer_in_loop
add-silent t u us q now z y b =
    let p : is_earliest t (u ∷ us) ≡ false = ground (arith, z, y) in
    rw (insert-append t (u ∷ us) q z b, add_timer_in_loop) (rw p refl)

requests-silent :
    (n : ℕ) (rs : List Request) (u : Timer) (us : List Timer) (q : TimerQueue)
    → AtZero u
    → Below n (u ∷ us)
    → q.armed ≡ none
    → (q' : TimerQueue) × (request_all n rs (holding (u ∷ us) q) ≡ ok q')
      × (q'.armed ≡ none)
      × (length q'.timers ≡ length (u ∷ us) + length rs)
unfolding request_all add_time from_micro_seconds new_timer
requests-silent n [] u us q z b e = (holding (u ∷ us) q, refl, e, omega arith)
requests-silent n (r ∷ rs) u us q z b e =
    let t = new_timer n n (add_time (now r.sec r.usec) r.delay) r.interval in
    let (q', p, e', l) =
      requests-silent (suc n) rs u (us ++ (t ∷ [])) q z
        (Below-append n (suc n) t (u ∷ us) (omega arith) (omega arith) refl b) e in
    (
      q',
      rw (add-silent t u us q (now r.sec r.usec) refl z b, request_all) p,
      e',
      omega (arith, l, length-append us (t ∷ [])),
    )

-- The queue after the first timer, a repeating one, has been added and has run out once.
abbrev pub first_round : ℕ → ℕ → ℕ → ℕ → ℕ → Result TimerQueue
first_round sec usec interval sec1 usec1 =
    add_timer_in_loop new_queue (run_every 0 0 (now sec usec) interval) (now sec usec) >>= λ q.
    handle_read (λ ts q1. ok q1) q (now sec1 usec1)

restart-AtZero : (t : Timer) (time : TimeStamp) → AtZero (restart t time)
unfolding restart add_time from_micro_seconds
restart-AtZero t time = elim (Bool-cases (repeats t)) [
  | inl e ↦ rw (e, restart) refl
  | inr e ↦ rw (e, restart) refl
]

restart_all-one :
    (t : Timer) (time : TimeStamp)
    → repeats t ≡ true
    → restart_all (t ∷ []) time (holding [] new_queue)
      ≡ ok (holding (restart t time ∷ []) new_queue)
unfolding restart_all insert set_insert
restart_all-one t time e =
    ap
      (λ b. elim (b && true) as (λ _. Result TimerQueue) [
        | true ↦ insert (holding [] new_queue) (restart t time) >>= λ p. ok p.1
        | false ↦ ok (holding [] new_queue)
      ])
      e

reset-one :
    (t : Timer) (time : TimeStamp)
    → repeats t ≡ true
    → reset (t ∷ []) time (holding [] new_queue) ≡ ok (holding (restart t time ∷ []) new_queue)
unfolding reset
reset-one t time e =
    let z : ltb 0 (restart t time).expiration.micro_seconds_since_epoch ≡ false =
      ground (arith, restart-AtZero t time) in
    rw (restart_all-one t time e, reset) (rw z refl)

-- The first timer.
abbrev pub first_timer : ℕ → ℕ → ℕ → Timer
first_timer sec usec interval = run_every 0 0 (now sec usec) interval

first-expired :
    (sec usec interval sec1 usec1 : ℕ)
    → first_round sec usec interval sec1 usec1
      ≡ reset (first_timer sec usec interval ∷ []) (now sec1 usec1) (holding [] new_queue)
unfolding add_timer_in_loop insert set_insert reset_timerfd handle_read get_expired split_due
    erase_all set_erase add_time from_micro_seconds now run_every new_timer
first-expired sec usec interval sec1 usec1 = refl

-- After the first repeating timer of a queue has run out once, the timerfd is not set: not then,
-- and not by any timer that is added later, once or repeating, at whatever time and with whatever
-- delay, although the queue keeps all of them. The later timers have growing addresses, and the
-- callback of the first one adds and cancels none.
pub request_all-silent :
    (sec usec interval sec1 usec1 : ℕ) (rs : List Request)
    → 0 < interval
    → (q : TimerQueue) × ((first_round sec usec interval sec1 usec1 >>= request_all 1 rs) ≡ ok q)
      × (q.armed ≡ none)
      × (length q.timers ≡ 1 + length rs)
unfolding run_every new_timer repeats restart
request_all-silent sec usec interval sec1 usec1 rs h =
    let t = first_timer sec usec interval in
    let positive : repeats t ≡ true = lt→ltb 0 interval h in
    let once = first-expired sec usec interval sec1 usec1 ∙ reset-one t (now sec1 usec1) positive in
    let (q, p, e, l) =
      requests-silent 1 rs (restart t (now sec1 usec1)) [] new_queue
        (restart-AtZero t (now sec1 usec1)) (omega arith, restart-AtZero t (now sec1 usec1), tt)
        refl in
    (q, rw once p, e, omega (arith, l))
