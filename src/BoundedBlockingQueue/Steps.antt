-- ===== src/BoundedBlockingQueue/Steps.antt =====
-- The states that threads reach.
use cloud_storage.Common.{
  ℕ, suc, ◌-◌, ◌≤◌, Bool, true, false, Bool-cases, List, [], ◌∷◌, ◌++◌, length, leb, ◌≡◌, refl, sym,
  ap, ◌∙◌, ◌⊎◌, inl, inr, arith, length-append, append_assoc,
}
use cloud_storage.BoundedBlockingQueue.{
  BoundedBlockingQueue, Condition, notify_one, resumed, asleep, is_full, put, take_front, take_from,
  Step, puts, puts_again, takes, takes_again, producer_wakes, consumer_wakes, IsReachable, created,
  stepped,
}

-- No thread sleeps, or there are as many woken threads as things to do.
abbrev Served : ℕ → Condition → Type 0
Served work c = (c.sleeping ≡ 0) ⊎ (work ≤ c.woken)

module _ {ℓ} {A : Type ℓ} where
  -- Within the capacity, in order, and no thread sleeps through its turn.
  pub record IsSound (q : BoundedBlockingQueue A) : Type ℓ where
    pub within : length q.queue ≤ q.capacity
    pub in_order : q.put_items ≡ q.taken_items ++ q.queue
    pub consumers_served : Served (length q.queue) q.not_empty
    pub producers_served : Served (q.capacity - length q.queue) q.not_full

notify-Served : (work : ℕ) (c : Condition) → Served work c → Served (suc work) (notify_one c)
unfolding notify_one
notify-Served work c h = ground arith

keep-Served : (work less : ℕ) (c : Condition) → less ≤ work → Served work c → Served less c
keep-Served work less c l h = ground arith

resume-Served :
    (again : Bool) (work : ℕ) (c : Condition) → Served (suc work) c → Served work (resumed again c)
resume-Served again work c h = ground arith

sleep-Served : (c : Condition) → Served 0 (asleep c)
sleep-Served c = inr (omega arith)

wake-Served : (work : ℕ) (c : Condition) → Served work c → Served work (notify_one c)
wake-Served work c h =
    keep-Served (suc work) work (notify_one c) (omega arith) (notify-Served work c h)

module _ {ℓ} {A : Type ℓ} where
  put-IsSound :
      (again : Bool) (x : A) (q : BoundedBlockingQueue A) → IsSound q → IsSound (put again x q)
  unfolding put is_full
  put-IsSound again x q s = elim (Bool-cases (leb q.capacity (length q.queue))) [
    | inl full ↦
        rw (full, put)
          (record {
            within = s.within;
            in_order = s.in_order;
            consumers_served = s.consumers_served;
            producers_served =
                keep-Served 0 (q.capacity - length q.queue) (asleep (resumed again q.not_full))
                  (ground (arith, full)) (sleep-Served (resumed again q.not_full));
          })
    | inr free ↦
        let longer = length-append q.queue (x ∷ []) in
        let room : suc (length q.queue) ≤ q.capacity = ground (arith, free) in
        let less : suc (q.capacity - length (q.queue ++ (x ∷ []))) ≤ q.capacity - length q.queue =
          omega (arith, longer, room) in
        rw (free, put)
          (record {
            within = omega (arith, longer, room);
            in_order =
                ap (λ (l : List A). l ++ (x ∷ [])) s.in_order
                ∙ append_assoc q.taken_items q.queue (x ∷ []);
            consumers_served =
                keep-Served (suc (length q.queue)) (length (q.queue ++ (x ∷ [])))
                  (notify_one q.not_empty) (omega (arith, longer))
                  (notify-Served (length q.queue) q.not_empty s.consumers_served);
            producers_served =
                resume-Served again (q.capacity - length (q.queue ++ (x ∷ []))) q.not_full
                  (keep-Served (q.capacity - length q.queue) _ q.not_full less s.producers_served);
          })
  ]

  take_from-IsSound :
      (again : Bool) (items : List A) (q : BoundedBlockingQueue A)
      → q.queue ≡ items
      → IsSound q
      → IsSound (take_from again items q)
  take_from-IsSound again [] q e s =
      let empty : length q.queue ≡ 0 = ap length e in
      record {
        within = s.within;
        in_order = s.in_order;
        consumers_served =
            keep-Served 0 (length q.queue) (asleep (resumed again q.not_empty)) (omega arith)
              (sleep-Served (resumed again q.not_empty));
        producers_served = s.producers_served;
      }
  take_from-IsSound again (front ∷ rest) q e s =
      let size : length q.queue ≡ suc (length rest) = ap length e in
      record {
        within = omega (arith, size, s.within);
        in_order =
            s.in_order
            ∙ ap (λ (l : List A). q.taken_items ++ l) e
            ∙ sym (append_assoc q.taken_items (front ∷ []) rest);
        consumers_served = resume-Served again (length rest) q.not_empty (
            keep-Served (length q.queue) (suc (length rest)) q.not_empty (omega (arith, size))
              s.consumers_served);
        producers_served =
            keep-Served (suc (q.capacity - length q.queue)) (q.capacity - length rest)
              (notify_one q.not_full) (omega (arith, size))
              (notify-Served (q.capacity - length q.queue) q.not_full s.producers_served);
      }

  Step-IsSound : {q q' : BoundedBlockingQueue A} → Step q q' → IsSound q → IsSound q'
  unfolding take_front
  Step-IsSound (puts q x) s = put-IsSound false x q s
  Step-IsSound (puts_again q x h) s = put-IsSound true x q s
  Step-IsSound (takes q) s = take_from-IsSound false q.queue q refl s
  Step-IsSound (takes_again q h) s = take_from-IsSound true q.queue q refl s
  Step-IsSound (producer_wakes q h) s = record {
    within = s.within;
    in_order = s.in_order;
    consumers_served = s.consumers_served;
    producers_served = wake-Served (q.capacity - length q.queue) q.not_full s.producers_served;
  }
  Step-IsSound (consumer_wakes q h) s = record {
    within = s.within;
    in_order = s.in_order;
    consumers_served = wake-Served (length q.queue) q.not_empty s.consumers_served;
    producers_served = s.producers_served;
  }

  -- In every state that producers and consumers reach, in whatever order they run and wake up: the
  -- queue is within its capacity; the items that were put in are the items taken out and then those
  -- in the queue, in this order; and no wake-up is lost, as no consumer sleeps or at least as many
  -- consumers have been woken as there are items, and no producer sleeps or at least as many have
  -- been woken as there are free places.
  pub IsReachable-IsSound :
      (max_size : ℕ) (q : BoundedBlockingQueue A) → IsReachable max_size q → IsSound q
  IsReachable-IsSound max_size q created = record {
    within = omega arith;
    in_order = refl;
    consumers_served = inl refl;
    producers_served = inl refl;
  }
  IsReachable-IsSound max_size q (stepped {q = p} r step) =
      Step-IsSound step (IsReachable-IsSound max_size p r)
