-- ===== src/Outbound/Worker.antt =====
-- net/outbound/OutgoingWorker.cpp: flushing outboxes, acknowledgement and retransmission.
--
-- The socket library, the clock and the protobuf stamp of ReliableSeq.h are the record `Transport`:
-- `W` is the state of everything outside the worker. The metric counters are left out.
pub mod Sweep
pub mod Tick
pub mod Reliable
pub mod Payload
pub mod Flush
pub mod Retry
pub mod Sound
pub mod Passes
pub mod Lifecycle
mod Tests
use kergit_server.Base.{
  ℕ, zero, suc, ◌+◌, ◌%◌, ◌^◌, Bool, true, false, not, ◌&&◌, ◌||◌, Option, none, some, List, [],
  ◌∷◌, ◌++◌, String, ltb, leb, if◌then◌else◌, length, is_some, inc64,
}
use kergit_server.Base.Map.{Set, Map, find, put, erase, insert, empty, is_empty, is_nil, keys}
use kergit_server.Ids.{ConnId, GlobalConnId, conn_id_key}
use kergit_server.Outbound.Msg.{
  Action, SendPayload, UpdateAuthState, DropConnection, OutboundItem, OutgoingMessage, is_failed,
}
use kergit_server.Outbound.Registry.{
  WsHandle, Pending, ReliableOutbound, ConnectionContext, ConnectionRegistery, detach,
}
use kergit_server.Outbound.Queue.{OutgoingQueue, try_pop}
use kergit_server.Outbound.Outbox.{distribute}

-- A socket is its address. `end` also returns the connections whose close handler it ran.
pub record Transport (W : Type 0) : Type 0 where
  pub now : W → W × ℕ
  pub is_backpressured : WsHandle → W → Bool
  pub send : WsHandle → String → Bool → W → W × Bool
  pub end : WsHandle → ℕ → String → W → W × List ConnId
  pub stamp_envelope_seq : String → ℕ → String

pub record OutgoingWorkerConfig : Type 0 where
  pub time_budget : ℕ
  pub max_per_tick : ℕ
  pub retransmit_timeout : ℕ
  pub max_retransmits : ℕ

-- What the work on one connection changes.
pub record Work (W : Type 0) : Type 0 where
  pub ctx : ConnectionContext
  pub pending_unacked : Set ConnId
  pub world : W

-- The worker with what it refers to.
pub record OutgoingWorker (W : Type 0) : Type 0 where
  pub conns_ : ConnectionRegistery
  pub out_q_ : OutgoingQueue
  pub pending_unacked_conns_ : Set ConnId
  pub world : W

-- The frame is sent: take its number and keep it until it is acknowledged.
unfoldable pub retain : ℕ → String → ℕ → ReliableOutbound → ReliableOutbound
retain seq wire now r = record r {
  next_seq = seq;
  buffer = r.buffer ++ record { seq = seq; bytes = wire; last_sent_at = now; attempts = 1 } ∷ [];
}

-- The loop that pops the acknowledged frames.
unfoldable pub pop_acked : ℕ → List Pending → List Pending
pop_acked ack [] = []
pop_acked ack (p ∷ ps) = if leb p.seq ack then pop_acked ack ps else p ∷ ps

unfoldable pub acknowledge : ℕ → ReliableOutbound → ReliableOutbound
unfolding pop_acked
acknowledge ack r = record r {
  acked_seq = (if ltb r.acked_seq ack then ack else r.acked_seq);
  buffer = pop_acked ack r.buffer;
}

unfoldable pub update_auth : UpdateAuthState → ConnectionContext → ConnectionContext
update_auth u ctx =
    if is_failed ctx.auth_state && not (is_failed u.state)
    then ctx
    else record ctx { auth_state = u.state; auth_expires_at = u.expires_at; user_id = u.user_id }

-- The close handler of the connections that `end` closed.
unfoldable pub detach_all : List ConnId → ConnectionRegistery → ConnectionRegistery
unfolding detach
detach_all [] conns = conns
detach_all (c ∷ cs) conns = detach_all cs (detach c conns)

abbrev pub with_queue : List OutboundItem → ConnectionContext → ConnectionContext
with_queue q ctx = record ctx { outbox = record (ctx.outbox) { q = q } }

module _ {W : Type 0} (net : Transport W) where
  unfoldable pub send_reliable : ConnId → String → Bool → Work W → Work W × Bool
  unfolding retain
  send_reliable conn_id data_ is_binary k =
      let seq = inc64 k.ctx.reliable.next_seq in
      let wire = net.stamp_envelope_seq data_ seq in
      let sent = net.send k.ctx.handle wire is_binary k.world in
      let time = net.now sent.0 in
      if sent.1
      then (
        record {
          ctx = record k.ctx { reliable = retain seq wire time.1 k.ctx.reliable };
          pending_unacked = insert conn_id k.pending_unacked;
          world = time.0;
        },
        true,
      )
      else (record k { world = sent.0 }, false)

  unfoldable pub send_plain : String → Bool → Work W → Work W × Bool
  send_plain data_ is_binary k =
      let sent = net.send k.ctx.handle data_ is_binary k.world in
      (record k { world = sent.0 }, sent.1)

  -- Whether the action was consumed.
  unfoldable pub send_payload : ConnId → SendPayload → Work W → Work W × Bool
  unfolding send_reliable send_plain
  send_payload conn_id action k = elim action.payload.data_ [
    | none ↦ (k, true)
    | some data_ ↦
        if net.is_backpressured k.ctx.handle k.world
        then (k, false)
        else if not (is_some k.ctx.handle)
        then (k, true)
        else if action.reliable
        then send_reliable conn_id data_ action.payload.is_binary k
        else send_plain data_ action.payload.is_binary k
  ]

  -- The loop of `flush_connection_outbox`: the rest of the queue, and the drop found.
  unfoldable pub flush_items :
      ConnId → List OutboundItem → Work W → Work W × List OutboundItem × Option DropConnection
  unfolding send_payload update_auth
  flush_items conn_id [] k = (k, [], none)
  flush_items conn_id (i ∷ is) k = elim i.action [
    | Action.send_action p ↦
        let sent = send_payload conn_id p k in
        elim sent.1 [ true ↦ flush_items conn_id is sent.0 | false ↦ (sent.0, i ∷ is, none) ]
    | Action.auth_action u ↦ flush_items conn_id is (record k { ctx = update_auth u k.ctx })
    | Action.drop_action d ↦ (k, [], some d)
  ]

  unfoldable pub end_drop :
      WsHandle → DropConnection → ConnectionRegistery → W → ConnectionRegistery × W
  end_drop handle d conns w =
      if is_some handle
      then (let closed = net.end handle d.code d.reason w in (detach_all closed.1 conns, closed.0))
      else (conns, w)

  unfoldable pub flush_connection_outbox : ConnId → OutgoingWorker W → OutgoingWorker W
  unfolding flush_items end_drop
  flush_connection_outbox conn_id s = elim (find conn_id s.conns_) [
    | none ↦ s
    | some ctx ↦
        let k : Work W = record {
          ctx = ctx;
          pending_unacked = s.pending_unacked_conns_;
          world = s.world;
        } in
        let done = flush_items conn_id ctx.outbox.q k in
        let ctx' = with_queue done.1 done.0.ctx in
        let conns = put conn_id ctx' s.conns_ in
        let ended : ConnectionRegistery × W = elim done.2 [
          | none ↦ (conns, done.0.world)
          | some d ↦ end_drop ctx.handle d conns done.0.world
        ] in
        record s {
          conns_ = ended.0;
          pending_unacked_conns_ = done.0.pending_unacked;
          world = ended.1;
        }
  ]

module _ {W : Type 0} where
  unfoldable pub on_ack : ConnId → ℕ → OutgoingWorker W → OutgoingWorker W
  unfolding acknowledge
  on_ack conn_id ack_seq s = elim (find conn_id s.conns_) [
    | none ↦ record s { pending_unacked_conns_ = erase conn_id s.pending_unacked_conns_ }
    | some ctx ↦
        let r = acknowledge ack_seq ctx.reliable in
        record s {
          conns_ = put conn_id (record ctx { reliable = r }) s.conns_;
          pending_unacked_conns_ =
              (if is_nil r.buffer
                then erase conn_id s.pending_unacked_conns_
                else s.pending_unacked_conns_);
        }
  ]
