-- ===== src/Outbound/Queue.antt =====
-- net/outbound/OutgoingQueue.h: the shared queue from the application to one network thread.
pub mod Laws
use kergit_server.Base.{
  ℕ, zero, suc, ◌+◌, ◌-◌, Bool, true, false, ◌&&◌, not, Option, none, some, List, [], ◌∷◌, ◌++◌,
  ltb, leb, if◌then◌else◌, length, pop_back,
}
use kergit_server.Base.Map.{is_nil}
use kergit_server.Outbound.Msg.{OutgoingMessage, is_low}

pub data PushResult : Type 0 where
  ok dropped_low_priority dropped_high_priority : PushResult

-- The front of each deque is the head of its list.
pub record OutgoingQueue : Type 0 where
  pub high_ : List OutgoingMessage
  pub low_ : List OutgoingMessage
  pub capacity_ : ℕ
  pub size_ : ℕ

unfoldable pub init : ℕ → OutgoingQueue
init capacity = record { high_ = []; low_ = []; capacity_ = capacity; size_ = 0 }

-- The end of `push_impl`.
unfoldable pub append : OutgoingMessage → OutgoingQueue → OutgoingQueue
append msg q =
    if is_low msg.priority
    then record q { low_ = q.low_ ++ msg ∷ []; size_ = suc q.size_ }
    else record q { high_ = q.high_ ++ msg ∷ []; size_ = suc q.size_ }

unfoldable pub push_impl : OutgoingMessage → OutgoingQueue → OutgoingQueue × PushResult
unfolding append
push_impl msg q =
    if ltb 0 q.capacity_ && leb q.capacity_ q.size_
    then if is_low msg.priority
      then (q, PushResult.dropped_low_priority)
      else if not (is_nil q.low_)
      then (append msg (record q { low_ = pop_back q.low_; size_ = q.size_ - 1 }), PushResult.ok)
      else (q, PushResult.dropped_high_priority)
    else (append msg q, PushResult.ok)

-- `src.front()` and `pop_front`: of the high deque unless it is empty.
take_front :
    List OutgoingMessage
    → List OutgoingMessage
    → OutgoingQueue
    → OutgoingQueue × Option OutgoingMessage
take_front (m ∷ ms) low q = (record q { high_ = ms; size_ = q.size_ - 1 }, some m)
take_front [] (m ∷ ms) q = (record q { low_ = ms; size_ = q.size_ - 1 }, some m)
take_front [] [] q = (q, none)

unfoldable pub try_pop : OutgoingQueue → OutgoingQueue × Option OutgoingMessage
unfolding take_front
try_pop q = elim q.size_ [ zero ↦ (q, none) | suc n ↦ take_front q.high_ q.low_ q ]
