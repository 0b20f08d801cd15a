-- ===== src/Outbound/Outbox.antt =====
-- net/outbound/OutgoingWorker.cpp, enqueue_to_outbox: the bounded queue of one connection.
pub mod Bounds
mod Tests
use kergit_server.Base.{
  ℕ, zero, suc, ◌+◌, ◌%◌, ◌^◌, Bool, true, false, Option, none, some, List, [], ◌∷◌, ◌++◌, String,
  ltb, leb, if◌then◌else◌, length,
}
use kergit_server.Base.Map.{Set, Map, find, put, insert}
use kergit_server.Ids.{ConnId, GlobalConnId, conn_id_key}
use kergit_server.Outbound.Msg.{
  OutboundPriority, Action, DropConnection, OutboundItem, OutgoingMessage, is_low,
}
use kergit_server.Outbound.Registry.{
  PerConnectionOutbox, ConnectionContext, ConnectionRegistery, mutate,
}

-- Erase the last low item; `none` when there is none.
unfoldable pub erase_last_low : List OutboundItem → Option (List OutboundItem)
erase_last_low [] = none
erase_last_low (i ∷ is) = elim (erase_last_low is) [
  | some rest ↦ some (i ∷ rest)
  | none ↦ if is_low i.priority then some is else none
]

unfoldable pub slow_drop : OutboundItem
slow_drop = record {
  priority = OutboundPriority.high;
  action = Action.drop_action (record { code = 4409; reason = "slow_outbox_overflow" });
}

-- A full outbox without a low item: the fourth time the backlog becomes one drop.
unfoldable pub overflow : PerConnectionOutbox → PerConnectionOutbox
unfolding slow_drop
overflow ob =
    let hits = (ob.slow_hits + 1) % 2 ^ 32 in
    if leb 4 hits
    then record ob { q = slow_drop ∷ []; slow_hits = 0; drop_pending = true }
    else record ob { slow_hits = hits }

-- The mutator.
unfoldable pub enqueue : OutboundItem → PerConnectionOutbox → PerConnectionOutbox
unfolding erase_last_low overflow
enqueue item ob =
    if ltb (length ob.q) ob.capacity
    then record ob { q = ob.q ++ item ∷ [] }
    else if is_low item.priority
    then ob
    else elim (erase_last_low ob.q) [
      | some rest ↦ record ob { q = rest ++ item ∷ [] }
      | none ↦ overflow ob
    ]

-- The registry and the connections touched in this tick.
unfoldable pub enqueue_to_outbox :
    GlobalConnId
    → OutgoingMessage
    → ConnectionRegistery
    → Set ConnId
    → ConnectionRegistery × Set ConnId
unfolding mutate enqueue
enqueue_to_outbox global_id msg conns touched =
    let item : OutboundItem = record { priority = msg.priority; action = msg.action } in
    elim (mutate global_id.conn_id (λ ctx. record ctx { outbox = enqueue item ctx.outbox }) conns) [
      | none ↦ (conns, touched)
      | some conns' ↦ (conns', insert global_id.conn_id touched)
    ]

unfoldable pub enqueue_all :
    List GlobalConnId
    → OutgoingMessage
    → ConnectionRegistery
    → Set ConnId
    → ConnectionRegistery × Set ConnId
unfolding enqueue_to_outbox
enqueue_all [] msg conns touched = (conns, touched)
enqueue_all (g ∷ gs) msg conns touched =
    let next = enqueue_to_outbox g msg conns touched in enqueue_all gs msg next.0 next.1

unfoldable pub distribute :
    OutgoingMessage → ConnectionRegistery → Set ConnId → ConnectionRegistery × Set ConnId
unfolding enqueue_all
distribute msg conns touched = enqueue_all msg.conns msg conns touched
