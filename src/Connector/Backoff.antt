-- ===== src/Connector/Backoff.antt =====
-- How long the connector waits between attempts.
use cloud_storage.Common.{
  ℕ, zero, suc, ◌+◌, ◌*◌, ◌^◌, ◌≡◌, refl, sym, ap, ◌∙◌, List, [], ◌∷◌, ◌++◌, true, length, min,
  arith, ok, replicate, append_assoc, append-nil, length-append,
}
use native.Mathlib.Omega.{pow_step}
use cloud_storage.Connector.{
  Connector, Errno, outcome, retries, disconnected, start_in_loop, start, connect_with,
  after_connect, retry, new_connector, k_max_retry_delay_ms,
}
use cloud_storage.Connector.Events.{starts, timer_fires, run}

-- Each of these answers makes the connector try again.
abbrev pub AllRetry : List Errno → Type 0
AllRetry [] = Unit
AllRetry (e ∷ rest) = (outcome e ≡ retries) × AllRetry rest

-- From half a second on, each delay is twice the one before, up to thirty seconds.
abbrev pub delays_from : ℕ → ℕ → List ℕ
delays_from i zero = []
delays_from i (suc n) = min (500 * 2 ^ i) 30000 ∷ delays_from (i + 1) n

-- A connector between two attempts.
abbrev between : Connector → List Errno → ℕ → Connector
between c errnos delay = record c {
  connect = true;
  state = disconnected;
  errnos = errnos;
  retry_delay_ms = delay;
}

abbrev tried : Connector → ℕ → Connector
tried c delay = record c {
  opened = c.opened + 1;
  closed = c.closed ++ (c.opened ∷ []);
  delays = c.delays ++ (delay ∷ []);
}

attempt :
    (c : Connector) (e : Errno) (rest : List Errno) (delay : ℕ)
    → outcome e ≡ retries
    → start_in_loop (between c (e ∷ rest) delay)
      ≡ ok (between (tried c delay) rest (min (delay * 2) k_max_retry_delay_ms))
unfolding start_in_loop connect_with after_connect retry
attempt c e rest delay h = rw h refl

next_delay : (i : ℕ) → min (min (500 * 2 ^ i) 30000 * 2) 30000 ≡ min (500 * 2 ^ (i + 1)) 30000
next_delay i =
    let next : i + 1 ≡ suc i = omega arith in
    let twice : 2 ^ (i + 1) ≡ 2 * 2 ^ i = ap (λ (k : ℕ). 2 ^ k) next ∙ pow_step 2 i in omega arith

-- What timers lead to that go off behind each failed attempt.
abbrev Waits : List Errno → Connector → ℕ → Type 0
Waits errnos c i =
    (c' : Connector) × (run (replicate (length errnos) timer_fires)
        (between c errnos (min (500 * 2 ^ i) 30000))
      ≡ ok c')
    × (c'.delays ≡ c.delays ++ delays_from i (length errnos))
    × (c'.state ≡ disconnected)
    × (length c'.closed + c.opened ≡ length c.closed + c'.opened)

attempts : (errnos : List Errno) (c : Connector) (i : ℕ) → AllRetry errnos → Waits errnos c i
attempts [] c i h =
    (between c [] (min (500 * 2 ^ i) 30000), refl, sym (append-nil c.delays), refl, refl)
attempts (e ∷ rest) c i h =
    let delay = min (500 * 2 ^ i) 30000 in
    let (c', r, delays, s, count) = attempts rest (tried c delay) (i + 1) h.1 in
    let one : start_in_loop (between c (e ∷ rest) delay)
        ≡ ok (between (tried c delay) rest (min (500 * 2 ^ (i + 1)) 30000)) =
      attempt c e rest delay h.0
      ∙ ap (λ (d : ℕ). ok (between (tried c delay) rest d)) (next_delay i) in
    (
      c',
      rw one r,
      delays ∙ append_assoc c.delays (delay ∷ []) _,
      s,
      omega (arith, count, length-append c.closed (c.opened ∷ [])),
    )

-- A new connector that is started, and whose timers go off, while `connect` answers one error
-- after the other that makes it try again: it never fails an assertion, the delays are half a
-- second times the powers of two and at most thirty seconds, every socket was closed, and it is
-- disconnected in the end.
pub start-backoff :
    (e : Errno) (errnos : List Errno)
    → AllRetry (e ∷ errnos)
    → (c' : Connector) × (run
          (starts true ∷ replicate (length errnos) timer_fires)
          (new_connector (e ∷ errnos))
        ≡ ok c')
      × (c'.delays ≡ delays_from 0 (suc (length errnos)))
      × (c'.state ≡ disconnected)
      × (length c'.closed ≡ c'.opened)
unfolding start
start-backoff e errnos h =
    let (c', r, delays, s, count) = attempts (e ∷ errnos) (new_connector (e ∷ errnos)) 0 h in
    (c', r, delays, s, omega (arith, count))
