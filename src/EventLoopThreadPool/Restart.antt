-- ===== src/EventLoopThreadPool/Restart.antt =====
-- The index across `stop` and `start`.
use cloud_storage.Common.{
  ℕ, zero, suc, ◌+◌, ◌≤◌, ◌<◌, ◌≡◌, refl, ap, Bool, true, false, List, [], ◌∷◌, ◌++◌, none, length,
  get_elem?, leb, ◌==◌, if◌then◌else◌, ok, ◌>>=◌, arith,
}
use cloud_storage.EventLoopThreadPool.{
  EventLoopThreadPool, get_next_loop, start, stop, set_thread_num, start_loops,
}

module _ {ℓ} {A : Type ℓ} where
  get_elem?-outside : (xs : List A) (i : ℕ) → length xs ≤ i → get_elem? xs i ≡ none
  get_elem?-outside [] i h = refl
  get_elem?-outside (x ∷ xs) zero h = absurd (omega arith)
  get_elem?-outside (x ∷ xs) (suc i) h = get_elem?-outside xs i (omega arith)

  length-start_loops : (f : ℕ → A) (i n : ℕ) → length (start_loops f i n) ≡ n
  unfolding start_loops
  length-start_loops f i zero = refl
  length-start_loops f i (suc n) = ap suc (length-start_loops f (i + 1) n)

  -- A running pool that is stopped, and started again with at least one thread but no more than
  -- `next_` was at: the next `getNextLoop` reads behind the end of the vector of loops.
  pub get_next_loop-stale :
      (f : ℕ → A) (has_callback : Bool) (n : ℕ) (p : EventLoopThreadPool A)
      → p.started ≡ true
      → 0 < n
      → n ≤ p.next
      → (p' : EventLoopThreadPool A) × ((stop true p >>= λ q.
            start true f has_callback (set_thread_num q n) >>= λ r. get_next_loop r)
          ≡ ok (none, p'))
  unfolding stop start set_thread_num get_next_loop
  get_next_loop-stale f has_callback n p e some_threads h =
      let size = length-start_loops f 0 n in
      let outside = get_elem?-outside (start_loops f 0 n) p.next (omega arith) in
      let loops : (length (start_loops f 0 n) == 0) ≡ false = ground arith in
      let more = start_loops f 0 n in
      let called = if n == 0 then p.base_loop ∷ [] else more in
      let next = p.next + 1 in
      let p' : EventLoopThreadPool A = record p {
        started = true;
        num_threads = n;
        next = if leb (length more) next then 0 else next;
        loops = more;
        init_calls = if has_callback then p.init_calls ++ called else p.init_calls;
        quits = p.quits ++ p.loops;
      } in
      (p', rw e (rw (loops, outside) refl))
