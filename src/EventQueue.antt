-- ===== src/EventQueue.antt =====
-- app/queue: the inbound priority queue between the transport and the worker threads.
--
-- Msg.h is the child Msg. A call of the model is one critical section under `mu_`, so a schedule
-- of the producers and the workers is a list of calls. `P` stands for the body of an envelope,
-- which protobuf generates.
mod Msg
pub mod Invariant
pub mod Order
pub mod Accounts
pub mod Drain
mod Tests
unfoldable pub use Msg.{classify_event}
pub use Msg.{
  EnvelopeType, Payload, Event, EventPriority, high, low, PushResult, ok, dropped_low, dropped_high,
}
use kergit_server.Base.{
  ℕ, zero, suc, ◌+◌, ◌-◌, Bool, true, false, ◌&&◌, Option, none, some, List, [], ◌∷◌, ◌++◌, ltb,
  leb, if◌then◌else◌, length, pop_back, inc64,
}

-- The counters of utils/Metrics.h that the queue changes.
pub record Counters : Type 0 where
  pub dropped_inbound_total : ℕ
  pub dropped_inbound_low_overflow : ℕ
  pub dropped_inbound_high_overflow : ℕ
  pub evicted_inbound_low_for_high : ℕ
  pub event_queue_highwater : ℕ

-- The front of each deque is the head of its list.
pub record EventQueue (P : Type 0) : Type 0 where
  pub high_ : List (Event P)
  pub low_ : List (Event P)
  pub capacity_ : ℕ
  pub size_ : ℕ
  pub stopped_ : Bool
  pub counters : Counters

abbrev pub no_counts : Counters
no_counts = record {
  dropped_inbound_total = 0;
  dropped_inbound_low_overflow = 0;
  dropped_inbound_high_overflow = 0;
  evicted_inbound_low_for_high = 0;
  event_queue_highwater = 0;
}

record_drop_low_overflow : Counters → Counters
record_drop_low_overflow c = record c {
  dropped_inbound_total = inc64 c.dropped_inbound_total;
  dropped_inbound_low_overflow = inc64 c.dropped_inbound_low_overflow;
}

record_drop_high_overflow : Counters → Counters
record_drop_high_overflow c = record c {
  dropped_inbound_total = inc64 c.dropped_inbound_total;
  dropped_inbound_high_overflow = inc64 c.dropped_inbound_high_overflow;
}

record_evict_low_for_high : Counters → Counters
record_evict_low_for_high c = record c {
  dropped_inbound_total = inc64 c.dropped_inbound_total;
  evicted_inbound_low_for_high = inc64 c.evicted_inbound_low_for_high;
}

update_highwater : ℕ → Counters → Counters
update_highwater n c =
    if ltb c.event_queue_highwater n then record c { event_queue_highwater = n } else c

-- `wait_pop` either parks the caller, or returns as `try_pop` does.
pub data Wait (P : Type 0) : Type 0 where
  parked : Wait P
  returned : EventQueue P → Option (Event P) → Wait P

module _ {P : Type 0} where
  pub init : ℕ → EventQueue P
  init capacity = record {
    high_ = [];
    low_ = [];
    capacity_ = capacity;
    size_ = 0;
    stopped_ = false;
    counters = no_counts;
  }

  -- The end of `push_impl`, once there is room.
  pub enqueue : EventPriority → Event P → EventQueue P → EventQueue P
  unfolding update_highwater
  enqueue low e q = record q {
    low_ = q.low_ ++ e ∷ [];
    size_ = q.size_ + 1;
    counters = update_highwater (q.size_ + 1) q.counters;
  }
  enqueue high e q = record q {
    high_ = q.high_ ++ e ∷ [];
    size_ = q.size_ + 1;
    counters = update_highwater (q.size_ + 1) q.counters;
  }

  -- The branch of `push_impl` on a full queue.
  pub push_full :
      EventPriority → List (Event P) → Event P → EventQueue P → EventQueue P × PushResult
  unfolding enqueue record_drop_low_overflow record_drop_high_overflow record_evict_low_for_high
  push_full low lows e q =
      (record q { counters = record_drop_low_overflow q.counters }, dropped_low)
  push_full high [] e q =
      (record q { counters = record_drop_high_overflow q.counters }, dropped_high)
  push_full high (l ∷ ls) e q = (
    enqueue high e (record q {
      low_ = pop_back (l ∷ ls);
      size_ = q.size_ - 1;
      counters = record_evict_low_for_high q.counters;
    }),
    ok,
  )

  abbrev pub is_full : EventQueue P → Bool
  is_full q = ltb 0 q.capacity_ && leb q.capacity_ q.size_

  pub push : Event P → EventQueue P → EventQueue P × PushResult
  unfolding push_full classify_event
  push e q =
      if is_full q
      then push_full (classify_event e) q.low_ e q
      else (enqueue (classify_event e) e q, ok)

  -- `pop_front_locked`; `none` is the `front()` of an empty deque, which `size_ > 0` excludes.
  pub pop_front_locked :
      List (Event P) → List (Event P) → EventQueue P → EventQueue P × Option (Event P)
  pop_front_locked (h ∷ hs) lows q = (record q { high_ = hs; size_ = q.size_ - 1 }, some h)
  pop_front_locked [] (l ∷ ls) q = (record q { low_ = ls; size_ = q.size_ - 1 }, some l)
  pop_front_locked [] [] q = (q, none)

  -- `none` is `false`.
  pub try_pop : EventQueue P → EventQueue P × Option (Event P)
  unfolding pop_front_locked
  try_pop q = if ltb 0 q.size_ then pop_front_locked q.high_ q.low_ q else (q, none)

  pub wait_pop : EventQueue P → Wait P
  wait_pop q =
      if ltb 0 q.size_
      then (let (q', e) = try_pop q in returned q' e)
      else if q.stopped_
      then returned q none
      else parked

  pub stop : EventQueue P → EventQueue P
  stop q = record q { stopped_ = true }

-- A call, and what its caller sees.
pub data Call (P : Type 0) : Type 0 where
  pushes : Event P → Call P
  tries waits stops : Call P

pub data Reply (P : Type 0) : Type 0 where
  pushed : Event P → PushResult → Reply P
  popped : Option (Event P) → Reply P
  blocked done : Reply P

module _ {P : Type 0} where
  pub of_wait : EventQueue P → Wait P → EventQueue P × Reply P
  of_wait q parked = (q, blocked)
  of_wait q (returned q' e) = (q', popped e)

  pub step : Call P → EventQueue P → EventQueue P × Reply P
  unfolding of_wait
  step (pushes e) q = let (q', r) = push e q in (q', pushed e r)
  step tries q = let (q', e) = try_pop q in (q', popped e)
  step waits q = of_wait q (wait_pop q)
  step stops q = (stop q, done)

  pub run : List (Call P) → EventQueue P → EventQueue P × List (Reply P)
  run [] q = (q, [])
  run (c ∷ cs) q = let (q', r) = step c q in let (q'', rs) = run cs q' in (q'', r ∷ rs)
