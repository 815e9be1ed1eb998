-- ===== src/Connector/Accounts.antt =====
-- The sockets of the connector: those it watches, closed or handed over.
use cloud_storage.Common.{
  ℕ, suc, ◌+◌, ◌≡◌, refl, ap, ◌∙◌, List, [], ◌∷◌, ◌++◌, Bool, true, false, Option, none, some,
  length, arith, ◌==◌, if◌then◌else◌, Result, ok, failed_assert, out_of_fuel, ◌>>=◌, Bool-cases,
  inl, inr, length-append,
}
use cloud_storage.Connector.{
  Connector, State, Errno, Task, Outcome, start_in_loop_of, stop_in_loop_of, reset_channel_of,
  is_connecting, is_disconnected, close, retry, connecting_on, after_connect, connect_with,
  start_in_loop, remove_and_reset_channel, stop_in_loop, after_writable, handle_write, handle_error,
  disconnected, connecting, connected, pending, retries, gives_up, outcome,
}

abbrev pub live : Bool → ℕ
live true = 1
live false = 0

-- How often the queue resets the channel.
abbrev pub resets : List Task → ℕ
resets [] = 0
resets (reset_channel_of ∷ rest) = suc (resets rest)
resets (_ ∷ rest) = resets rest

-- A channel that was removed is reset by exactly one queued function.
abbrev pub WatchesRight : Option ℕ → Bool → ℕ → Type 0
WatchesRight none watched n = (watched ≡ false) × (n ≡ 0)
WatchesRight (some fd) true n = n ≡ 0
WatchesRight (some fd) false n = n ≡ 1

pub record Accounts (c : Connector) : Type 0 where
  pub balance : c.opened ≡ length c.closed + length c.handed + live c.watched
  pub watches : WatchesRight c.channel c.watched (resets c.queued)
  pub connects : is_connecting c.state ≡ true → c.watched ≡ true

-- One socket more than those that are accounted for.
record InHand (c : Connector) : Type 0 where
  balance : c.opened ≡ length c.closed + length c.handed + live c.watched + 1
  watches : WatchesRight c.channel c.watched (resets c.queued)

-- An assertion fails, or the property holds behind the code.
abbrev pub Safely : (Connector → Type 0) → Result Connector → Type 0
Safely P (ok c) = P c
Safely P failed_assert = Unit
Safely P out_of_fuel = ⊥

-- Both branches of a test.
module _ {ℓ κ} {A : Type ℓ} (P : A → Type κ) where
  pub if_either : (test : Bool) {x y : A} → P x → P y → P (if test then x else y)
  if_either true p q = p
  if_either false p q = q

pub resets-append : (xs ys : List Task) → resets (xs ++ ys) ≡ resets xs + resets ys
resets-append [] ys = omega arith
resets-append (start_in_loop_of ∷ xs) ys = resets-append xs ys
resets-append (stop_in_loop_of ∷ xs) ys = resets-append xs ys
resets-append (reset_channel_of ∷ xs) ys = omega (arith, resets-append xs ys)

disconnected-connects :
    (c : Connector)
    → is_disconnected c.state ≡ true
    → is_connecting c.state ≡ true
    → c.watched ≡ true
disconnected-connects c d e = go c.state d e
  where
    go : (s : State) → is_disconnected s ≡ true → is_connecting s ≡ true → c.watched ≡ true
    go disconnected d e = absurd cc
    go connecting d e = absurd cc
    go connected d e = absurd cc

close-Accounts :
    (c : Connector) (fd : ℕ)
    → InHand c
    → (is_connecting c.state ≡ true → c.watched ≡ true)
    → Accounts (close c fd)
close-Accounts c fd h k = record {
  balance = omega (arith, h.balance, length-append c.closed (fd ∷ []));
  watches = h.watches;
  connects = k;
}

retry-Accounts : (c : Connector) (fd : ℕ) → InHand c → Accounts (retry c fd)
unfolding retry
retry-Accounts c fd h =
    let closed : c.opened ≡ length (c.closed ++ (fd ∷ [])) + length c.handed + live c.watched =
      omega (arith, h.balance, length-append c.closed (fd ∷ [])) in
    elim (Bool-cases c.connect) [
      | inl again ↦
          rw again (record { balance = closed; watches = h.watches; connects = λ e. absurd cc })
      | inr done ↦
          rw done (record { balance = closed; watches = h.watches; connects = λ e. absurd cc })
    ]

after_connect-Safely :
    (o : Outcome) (ch : Option ℕ) (w : Bool) (c : Connector) (fd : ℕ)
    → InHand (record c { channel = ch; watched = w })
    → is_disconnected c.state ≡ true
    → Safely Accounts (after_connect o (record c { channel = ch; watched = w }) fd)
unfolding after_connect connecting_on
after_connect-Safely pending (some old) w c fd h d = tt
after_connect-Safely pending none w c fd h d = record {
  balance =
      h.balance
      ∙ ap (λ (b : Bool). length c.closed + length c.handed + live b + 1) h.watches.0
      ∙ omega arith;
  watches = h.watches.1;
  connects = λ e. refl;
}
after_connect-Safely retries ch w c fd h d =
    retry-Accounts (record c { channel = ch; watched = w }) fd h
after_connect-Safely gives_up ch w c fd h d =
    close-Accounts (record c { channel = ch; watched = w }) fd h
      (disconnected-connects (record c { channel = ch; watched = w }) d)

opens : (c : Connector) → Accounts c → InHand (record c { opened = c.opened + 1 })
opens c h = record { balance = omega (arith, h.balance); watches = h.watches }

connect_with-Safely :
    (errnos : List Errno) (c : Connector)
    → Accounts c
    → is_disconnected c.state ≡ true
    → Safely Accounts (connect_with errnos c)
unfolding connect_with
connect_with-Safely [] c h d =
    after_connect-Safely pending c.channel c.watched (record c { opened = c.opened + 1 }) c.opened
      (opens c h) d
connect_with-Safely (e ∷ rest) c h d =
    let k = opens c h in
    after_connect-Safely (outcome e) c.channel c.watched
      (record c { errnos = rest; opened = c.opened + 1 }) c.opened
      (record { balance = k.balance; watches = k.watches }) d

pub start_in_loop-Safely : (c : Connector) → Accounts c → Safely Accounts (start_in_loop c)
unfolding start_in_loop
start_in_loop-Safely c h = elim (Bool-cases (is_disconnected c.state)) [
  | inr busy ↦ rw busy tt
  | inl d ↦ rw d (if_either (Safely Accounts) c.connect (connect_with-Safely c.errnos c h d) h)
]

-- The channel of a connecting connector is taken off: its socket is in hand.
removed-Safely :
    (ch : Option ℕ) (w : Bool) (c : Connector) (later : ℕ → Connector → Connector)
    → ((fd : ℕ) (c' : Connector) → InHand c' → Accounts (later fd c'))
    → Accounts (record c { channel = ch; watched = w })
    → w ≡ true
    → Safely Accounts (
        remove_and_reset_channel (record c { channel = ch; watched = w }) >>= λ removed.
        ok (later removed.0 removed.1))
unfolding remove_and_reset_channel
removed-Safely none w c later k h e = tt
removed-Safely (some fd) false c later k h e = absurd cc
removed-Safely (some fd) true c later k h e = k fd _ (record {
  balance = omega (arith, h.balance);
  watches = resets-append c.queued (reset_channel_of ∷ []) ∙ omega (arith, h.watches);
})

pub stop_in_loop-Safely : (c : Connector) → Accounts c → Safely Accounts (stop_in_loop c)
unfolding stop_in_loop
stop_in_loop-Safely c h = elim (Bool-cases (is_connecting c.state)) [
  | inr other ↦ rw other h
  | inl con ↦ rw con (
      removed-Safely c.channel c.watched (record c { state = disconnected }) (λ fd c'. retry c' fd)
        (λ fd c' i. retry-Accounts c' fd i)
        (record { balance = h.balance; watches = h.watches; connects = λ e. h.connects con })
        (h.connects con))
]

pub handle_error-Safely : (c : Connector) → Accounts c → Safely Accounts (handle_error c)
unfolding handle_error
handle_error-Safely c h = elim (Bool-cases (is_connecting c.state)) [
  | inr other ↦ rw other h
  | inl con ↦ rw con (
      removed-Safely c.channel c.watched c (λ fd c'. retry c' fd)
        (λ fd c' i. retry-Accounts c' fd i) h (h.connects con))
]

after_writable-Accounts :
    (err : ℕ) (is_self : Bool) (fd : ℕ) (c : Connector)
    → InHand c
    → Accounts (after_writable err is_self fd c)
unfolding after_writable
after_writable-Accounts err is_self fd c h =
    let handed : Accounts (record c { state = connected; handed = c.handed ++ (fd ∷ []) }) =
      record {
        balance = omega (arith, h.balance, length-append c.handed (fd ∷ []));
        watches = h.watches;
        connects = λ e. absurd cc;
      } in
    let closed =
      close-Accounts (record c { state = connected }) fd
        (record { balance = h.balance; watches = h.watches }) (λ e. absurd cc) in
    let again = retry-Accounts c fd h in
    if_either Accounts (err == 0)
      (if_either Accounts is_self again (if_either Accounts c.connect handed closed)) again

pub handle_write-Safely :
    (err : ℕ) (is_self : Bool) (c : Connector)
    → Accounts c
    → Safely Accounts (handle_write err is_self c)
unfolding handle_write
handle_write-Safely err is_self c h = elim (Bool-cases (is_connecting c.state)) [
  | inl con ↦ rw con (
      removed-Safely c.channel c.watched c (after_writable err is_self)
        (λ fd c' i. after_writable-Accounts err is_self fd c' i) h (h.connects con))
  | inr other ↦ elim (Bool-cases (is_disconnected c.state)) [
    | inl idle ↦ rw (other, idle) h
    | inr busy ↦ rw (other, busy) tt
  ]
]
