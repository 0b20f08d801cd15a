-- ===== src/Message/WriteQueue.antt =====
-- core/base/ThreadSafeQueue.h and app/services/message/DbWriteQueue.h: the bounded queue of the
-- messages that wait to be written to the database.
--
-- A `try_push` is two atomic steps, the reservation of a slot and the push, and a pop is two, the
-- removal and the decrement of the size; between them other threads run. A failed compare-exchange
-- is retried, so the reservation is one step.
pub mod Bounds
mod Tests
use kergit_server.Base.{
  ℕ, zero, suc, ◌+◌, ◌-◌, ◌%◌, ◌^◌, Bool, true, false, not, ◌&&◌, Option, none, some, List, [], ◌∷◌,
  ◌++◌, ltb, leb, ◌==◌, if◌then◌else◌, inc64,
}
use kergit_server.Base.Map.{is_nil}

pub record ThreadSafeQueue (A : Type 0) : Type 0 where
  pub queue : List A
  pub stopped : Bool

pub record DbWriteQueue (A : Type 0) : Type 0 where
  pub base : ThreadSafeQueue A
  pub capacity_ : ℕ
  pub size_ : ℕ

-- The wait of `pop` goes on, or the call returns; `none` is the error.
pub data Wait (A : Type 0) : Type 0 where
  parked : Wait A
  returned : ThreadSafeQueue A → Option A → Wait A

module _ {A : Type 0} where
  unfoldable pub push : A → ThreadSafeQueue A → ThreadSafeQueue A
  push v q = record q { queue = q.queue ++ v ∷ [] }

  unfoldable pub try_pop : ThreadSafeQueue A → ThreadSafeQueue A × Option A
  try_pop q = elim q.queue [ [] ↦ (q, none) | x ∷ xs ↦ (record q { queue = xs }, some x) ]

  unfoldable pub pop : ThreadSafeQueue A → Wait A
  unfolding try_pop
  pop q =
      if is_nil q.queue && not q.stopped
      then Wait.parked
      else Wait.returned (try_pop q).0 (try_pop q).1

  unfoldable pub stop : ThreadSafeQueue A → ThreadSafeQueue A
  stop q = record q { stopped = true }

  unfoldable pub init : ℕ → DbWriteQueue A
  init capacity = record {
    base = record { queue = []; stopped = false };
    capacity_ = capacity;
    size_ = 0;
  }

  unfoldable pub reserve_slot : DbWriteQueue A → DbWriteQueue A × Bool
  reserve_slot q =
      if q.capacity_ == 0
      then (record q { size_ = inc64 q.size_ }, true)
      else if leb q.capacity_ q.size_
      then (q, false)
      else (record q { size_ = inc64 q.size_ }, true)

  -- The whole call, when no other thread runs in between.
  unfoldable pub try_push : A → DbWriteQueue A → DbWriteQueue A × Bool
  unfolding reserve_slot push
  try_push v q =
      let r = reserve_slot q in
      if r.1 then (record (r.0) { base = push v r.0.base }, true) else (r.0, false)

  -- `size_.fetch_sub(1)`
  unfoldable pub settle : DbWriteQueue A → DbWriteQueue A
  settle q = record q { size_ = (q.size_ + (2 ^ 64 - 1)) % 2 ^ 64 }

  unfoldable pub take : DbWriteQueue A → DbWriteQueue A × Option A
  unfolding try_pop settle
  take q =
      let r = try_pop q.base in
      elim r.1 [ none ↦ (q, none) | some x ↦ (settle (record q { base = r.0 }), some x) ]

-- The queue with the threads between their two steps: the values with a slot that are not pushed
-- yet, and the number of removals that have not decremented the size. `delivered` and `written` are
-- what was popped and what was pushed, in order.
pub record Threads (A : Type 0) : Type 0 where
  pub q : DbWriteQueue A
  pub writing : List A
  pub taken : ℕ
  pub delivered : List A
  pub written : List A

-- One atomic step of some thread.
pub data Step (A : Type 0) : Type 0 where
  reserves : A → Step A
  -- The writer at this position pushes.
  pushes : ℕ → Step A
  removes settles stops : Step A

module _ {A : Type 0} where
  unfoldable pub nth : ℕ → List A → Option A
  nth n [] = none
  nth zero (x ∷ xs) = some x
  nth (suc n) (x ∷ xs) = nth n xs

  unfoldable pub without : ℕ → List A → List A
  without n [] = []
  without zero (x ∷ xs) = xs
  without (suc n) (x ∷ xs) = x ∷ without n xs

  unfoldable pub step : Step A → Threads A → Threads A
  unfolding reserve_slot push try_pop settle stop nth without
  step (Step.reserves v) t =
      let r = reserve_slot t.q in
      record t { q = r.0; writing = (if r.1 then t.writing ++ v ∷ [] else t.writing) }
  step (Step.pushes n) t = elim (nth n t.writing) [
    | none ↦ t
    | some v ↦ record t {
      q = record (t.q) { base = push v t.q.base };
      writing = without n t.writing;
      written = t.written ++ v ∷ [];
    }
  ]
  step Step.removes t = elim (try_pop t.q.base).1 [
    | none ↦ t
    | some x ↦ record t {
      q = record (t.q) { base = (try_pop t.q.base).0 };
      taken = suc t.taken;
      delivered = t.delivered ++ x ∷ [];
    }
  ]
  step Step.settles t = elim t.taken [ zero ↦ t | suc n ↦ record t { q = settle t.q; taken = n } ]
  step Step.stops t = record t { q = record (t.q) { base = stop t.q.base } }

  unfoldable pub run : List (Step A) → Threads A → Threads A
  unfolding step
  run [] t = t
  run (s ∷ ss) t = run ss (step s t)

  unfoldable pub start : ℕ → Threads A
  unfolding init
  start capacity = record {
    q = init capacity;
    writing = [];
    taken = 0;
    delivered = [];
    written = [];
  }
