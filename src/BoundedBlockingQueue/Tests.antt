-- ===== src/BoundedBlockingQueue/Tests.antt =====
-- Examples of the queue: a consumer comes first and sleeps, and then a producer puts 5.
use cloud_storage.Common.{ℕ, false, ◌≡◌, refl}
use cloud_storage.BoundedBlockingQueue.{
  BoundedBlockingQueue, put, take_front, IsReachable, created, stepped, puts, takes, new_queue_of,
}
use cloud_storage.BoundedBlockingQueue.Steps.{IsSound, IsReachable-IsSound}

abbrev waited : BoundedBlockingQueue ℕ
waited = take_front false (new_queue_of 1)

abbrev filled : BoundedBlockingQueue ℕ
filled = put false 5 waited

one_waits : waited.not_empty.sleeping ≡ 1
unfolding take_front
one_waits = refl

one_woken : filled.not_empty.woken ≡ 1
unfolding put take_front
one_woken = refl

filled_reached : IsReachable 1 filled
filled_reached = stepped (stepped created (takes (new_queue_of 1))) (puts waited 5)

IsReachable-IsSound_example : IsSound filled
IsReachable-IsSound_example = IsReachable-IsSound 1 filled filled_reached
