-- ===== src/EventQueue/Accounts.antt =====
-- The counters of the queue, against what was offered to it and handed out.
use kergit_server.Base.{ℕ, ◌+◌, ◌%◌, ◌^◌, ◌≡◌, refl, some, List, [], ◌∷◌, arith}
use kergit_server.EventQueue.{
  Event, EventPriority, high, low, classify_event, EventQueue, push_full, push, try_pop, wait_pop,
  stop, Call, pushes, tries, waits, stops, Reply, pushed, popped, step, run, of_wait,
}
use kergit_server.EventQueue.Invariant.{IsValid, step-IsValid}

module _ {P : Type 0} where
  abbrev pub offered : Reply P → ℕ
  offered (pushed e r) = 1
  offered _ = 0

  abbrev pub handed : Reply P → ℕ
  handed (popped (some e)) = 1
  handed _ = 0

  abbrev pub total : (Reply P → ℕ) → List (Reply P) → ℕ
  total f [] = 0
  total f (r ∷ rs) = f r + total f rs

  abbrev pub dropped : EventQueue P → ℕ
  dropped q = q.counters.dropped_inbound_total

  push_full-account :
      (b : EventPriority) (lows : List (Event P)) (e : Event P) (q : EventQueue P)
      → q.low_ ≡ lows
      → IsValid q
      → ((push_full b lows e q).0.size_ + dropped (push_full b lows e q).0) % 2 ^ 64
        ≡ (q.size_ + 1 + dropped q) % 2 ^ 64
  unfolding push_full
  push_full-account low lows e q s v = ground arith
  push_full-account high [] e q s v = ground arith
  push_full-account high (l ∷ ls) e q s v = ground arith

  push-account :
      (e : Event P) (q : EventQueue P)
      → IsValid q
      → ((push e q).0.size_ + dropped (push e q).0) % 2 ^ 64 ≡ (q.size_ + 1 + dropped q) % 2 ^ 64
  unfolding push
  push-account e q v = ground (arith, push_full-account (classify_event e) q.low_ e q refl v)

  step-account :
      (c : Call P) (q : EventQueue P)
      → IsValid q
      → ((step c q).0.size_ + handed (step c q).1 + dropped (step c q).0) % 2 ^ 64
        ≡ (q.size_ + offered (step c q).1 + dropped q) % 2 ^ 64
  unfolding step try_pop wait_pop of_wait stop
  step-account (pushes e) q v = omega (arith, push-account e q v)
  step-account tries q v = ground arith
  step-account waits q v = ground arith
  step-account stops q v = refl

  -- Every event that is offered to a valid queue is queued, handed out, or counted in
  -- `dropped_inbound_total`, exactly once each, modulo the wrap of that 64-bit counter: what is
  -- queued, handed out and dropped at the end is what was queued, offered and dropped before.
  pub conservation :
      (cs : List (Call P)) (q : EventQueue P)
      → IsValid q
      → ((run cs q).0.size_ + total handed (run cs q).1 + dropped (run cs q).0) % 2 ^ 64
        ≡ (q.size_ + total offered (run cs q).1 + dropped q) % 2 ^ 64
  unfolding run
  conservation [] q v = refl
  conservation (c ∷ cs) q v =
      omega (arith, step-account c q v, conservation cs (step c q).0 (step-IsValid c q v))
