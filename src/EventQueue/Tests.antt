-- ===== src/EventQueue/Tests.antt =====
-- The queue at concrete inputs: capacity two, typing hints and authoritative events.
use kergit_server.Base.{
  ℕ, suc, ◌+◌, ◌%◌, ◌^◌, ◌<◌, ◌≡◌, refl, ◌↔◌, none, some, List, [], ◌∷◌, ◌++◌, map, length,
  replicate,
}
use kergit_server.Ids.{GlobalConnId}
use kergit_server.EventQueue.{
  EnvelopeType, Event, EventQueue, EventPriority, classify_event, PushResult, init, push, Call,
  Reply, run, step, try_pop, stop,
}
use kergit_server.EventQueue.Invariant.{run-IsValid, init-IsValid, dropped_high_iff}
use kergit_server.EventQueue.Order.{taken, delivered, collect, high_fifo}
use kergit_server.EventQueue.Accounts.{offered, handed, total, dropped, conservation}
use kergit_server.EventQueue.Drain.{handed_out, stopped_drains}

abbrev client : GlobalConnId
client = record { netstack_id = record { value = "ns" }; conn_id = record { value = "c1" } }

abbrev typing : ℕ → Event ℕ
typing n = Event.message client (record { env_type = EnvelopeType.typing; body = n })

abbrev sends : ℕ → Event ℕ
sends n = Event.message client (record { env_type = EnvelopeType.message_send; body = n })

abbrev two : EventQueue ℕ
two = init 2

abbrev busy : List (Call ℕ)
busy =
    Call.pushes (typing 1)
    ∷ Call.pushes (sends 2)
    ∷ Call.pushes (sends 3)
    ∷ Call.tries
    ∷ Call.pushes (typing 4)
    ∷ []

-- The second `sends` evicts the typing hint, and is handed out after the first.
busy_replies :
    (run busy two).1
    ≡ Reply.pushed (typing 1) PushResult.ok
      ∷ Reply.pushed (sends 2) PushResult.ok
      ∷ Reply.pushed (sends 3) PushResult.ok
      ∷ Reply.popped (some (sends 2))
      ∷ Reply.pushed (typing 4) PushResult.ok
      ∷ []
unfolding run step push init try_pop
busy_replies = refl

abbrev full_of_high : EventQueue ℕ
full_of_high = (run (Call.pushes (sends 1) ∷ Call.pushes (sends 2) ∷ []) two).0

dropped_high_iff_example : ((push (sends 3) full_of_high).1 ≡ PushResult.dropped_high) ↔ (
    (classify_event (sends 3) ≡ EventPriority.high)
    × (0 < full_of_high.capacity_)
    × (length full_of_high.high_ ≡ full_of_high.capacity_))
dropped_high_iff_example =
    dropped_high_iff (sends 3) full_of_high (run-IsValid _ two (init-IsValid 2))

high_fifo_example :
    two.high_ ++ collect (taken EventPriority.high) (run busy two).1
    ≡ collect (delivered EventPriority.high) (run busy two).1 ++ (run busy two).0.high_
high_fifo_example = high_fifo busy two (init-IsValid 2)

conservation_example :
    ((run busy two).0.size_ + total handed (run busy two).1 + dropped (run busy two).0) % 2 ^ 64
    ≡ (two.size_ + total offered (run busy two).1 + dropped two) % 2 ^ 64
conservation_example = conservation busy two (init-IsValid 2)

abbrev closing : List (Call ℕ)
closing = Call.pushes (typing 1) ∷ Call.pushes (sends 2) ∷ Call.stops ∷ []

abbrev stopped : EventQueue ℕ
stopped = (run closing two).0

stopped_drains_example :
    (run (replicate (suc stopped.size_) Call.waits) stopped).1
    ≡ map handed_out (stopped.high_ ++ stopped.low_) ++ Reply.popped none ∷ []
unfolding run step push init stop
stopped_drains_example = stopped_drains stopped (run-IsValid closing two (init-IsValid 2)) refl
