-- ===== src/EventLoop/Pending.antt =====
-- The functions that wait, and the wake-ups for them.
use cloud_storage.Common.{
  ℕ, ◌+◌, ◌≤◌, ◌≡◌, refl, sym, ap, ◌∙◌, true, false, List, [], ◌∷◌, ◌++◌, length, arith,
  append_assoc, append-nil, length-append, map, subst,
}
use cloud_storage.EventLoop.{
  EventLoop, queue_in_loop, queue_all, call, call_all, do_pending_functors, handle_read, wakeup,
}

module _ {ℓ} {F : Type ℓ} (queues : F → List F) where
  -- What the functions of a list queue, one after the other.
  abbrev pub queued_by : List F → List F
  queued_by [] = []
  queued_by (f ∷ more) = queues f ++ queued_by more

  -- A loop that calls pending functions.
  abbrev calling : EventLoop F → List F → ℕ → List F → EventLoop F
  calling l called wakeups waiting = record l {
    calling_pending_functors = true;
    called = called;
    wakeups = wakeups;
    pending_functors = waiting;
  }

  calling-cong :
      (l : EventLoop F) {xs xs' ws ws' : List F} {n n' : ℕ}
      → xs ≡ xs'
      → n ≡ n'
      → ws ≡ ws'
      → calling l xs n ws ≡ calling l xs' n' ws'
  calling-cong l e f g = λ i. calling l (e i) (f i) (g i)

  queue_all-calling :
      (l : EventLoop F) (fs xs ws : List F) (n : ℕ)
      → queue_all queues (calling l xs n ws) fs ≡ calling l xs (n + length fs) (ws ++ fs)
  unfolding queue_in_loop wakeup
  queue_all-calling l [] xs ws n = calling-cong l refl (omega arith) (sym (append-nil ws))
  queue_all-calling l (f ∷ fs) xs ws n =
      queue_all-calling l fs xs (ws ++ (f ∷ [])) (n + 1)
      ∙ calling-cong l refl (omega arith) (append_assoc ws (f ∷ []) fs)

  call_all-calling :
      (l : EventLoop F) (fs xs ws : List F) (n : ℕ)
      → call_all queues (calling l xs n ws) fs
        ≡ calling l (xs ++ fs) (n + length (queued_by fs)) (ws ++ queued_by fs)
  call_all-calling l [] xs ws n =
      calling-cong l (sym (append-nil xs)) (omega arith) (sym (append-nil ws))
  call_all-calling l (f ∷ fs) xs ws n =
      ap (λ (m : EventLoop F). call_all queues m fs)
        (queue_all-calling l (queues f) (xs ++ (f ∷ [])) ws n)
      ∙ call_all-calling l fs (xs ++ (f ∷ [])) (ws ++ queues f) (n + length (queues f))
      ∙ calling-cong l (append_assoc xs (f ∷ []) fs)
          (omega (arith, length-append (queues f) (queued_by fs)))
          (append_assoc ws (queues f) (queued_by fs))

  -- `doPendingFunctors` calls the functions that wait when it is entered, each once and in their
  -- order. What these queue meanwhile is not called but waits, in order, behind it, and the loop is
  -- woken once for each.
  pub do_pending_functors_lem :
      (l : EventLoop F)
      → do_pending_functors queues l ≡ record l {
        calling_pending_functors = false;
        called = l.called ++ l.pending_functors;
        wakeups = l.wakeups + length (queued_by l.pending_functors);
        pending_functors = queued_by l.pending_functors;
      }
  unfolding do_pending_functors
  do_pending_functors_lem l =
      ap (λ (m : EventLoop F). record m { calling_pending_functors = false })
        (call_all-calling l l.pending_functors l.called [] l.wakeups)

  -- What happens to a loop around its rounds: functions queued by other threads, the callback of an
  -- active channel, the read of the eventfd, and the pending functions that end a round.
  pub data Activity : Type ℓ where
    other_queues handles : F → Activity
    reads_wakeups ends_round : Activity

  abbrev pub act : EventLoop F → Activity → EventLoop F
  act l (other_queues f) = queue_in_loop false l f
  act l (handles f) = call queues l f
  act l reads_wakeups = handle_read l
  act l ends_round = do_pending_functors queues l

  abbrev pub acts : EventLoop F → List Activity → EventLoop F
  acts l [] = l
  acts l (a ∷ more) = acts (act l a) more

  -- The loop is woken for every function that waits.
  abbrev pub IsAwake : EventLoop F → Type 0
  IsAwake l = length l.pending_functors ≤ l.wakeups

  -- Other threads, behind the round.
  others-IsAwake :
      (fs : List F) (l : EventLoop F) → IsAwake l → IsAwake (acts l (map other_queues fs))
  unfolding queue_in_loop wakeup
  others-IsAwake [] l h = h
  others-IsAwake (f ∷ fs) l h =
      others-IsAwake fs (queue_in_loop false l f)
        (omega (arith, h, length-append l.pending_functors (f ∷ [])))

  acts-append : (xs ys : List Activity) (l : EventLoop F) → acts l (xs ++ ys) ≡ acts (acts l xs) ys
  acts-append [] ys l = refl
  acts-append (x ∷ xs) ys l = acts-append xs ys (act l x)

  -- Whatever a round does, in whatever order, and whatever other threads queue before its end and
  -- behind it: when the loop comes back to its poll, the counter of the eventfd is at least the
  -- number of functions that wait.
  pub round-IsAwake :
      (l : EventLoop F) (round : List Activity) (fs : List F)
      → IsAwake (acts l (round ++ (ends_round ∷ map other_queues fs)))
  round-IsAwake l round fs =
      subst IsAwake (sym (acts-append round (ends_round ∷ map other_queues fs) l)) (
        others-IsAwake fs (do_pending_functors queues (acts l round))
          (subst IsAwake (sym (do_pending_functors_lem (acts l round))) (omega arith)))
