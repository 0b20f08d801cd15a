-- ===== src/Outbound/Worker/Sweep.antt =====
-- net/outbound/OutgoingWorker.cpp, retransmit_sweep: resending the frames whose ack is overdue.
use kergit_server.Base.{
  ℕ, ◌+◌, ◌%◌, ◌^◌, Bool, true, not, ◌||◌, Option, none, some, List, [], ◌∷◌, ltb, leb,
  if◌then◌else◌, length, is_some,
}
use kergit_server.Base.Map.{Set, find, put, erase, is_empty, is_nil, keys}
use kergit_server.Ids.{ConnId, conn_id_key}
use kergit_server.Outbound.Msg.{DropConnection}
use kergit_server.Outbound.Registry.{WsHandle, Pending, ConnectionContext, ConnectionRegistery}
use kergit_server.Outbound.Worker.{Transport, OutgoingWorkerConfig, OutgoingWorker, end_drop}

abbrev pub drop_of : WsHandle → Option DropConnection → Option (WsHandle × DropConnection)
drop_of handle none = none
drop_of handle (some d) = some (handle, d)

abbrev pub cons_some {ℓ} : {A : Type ℓ} → Option A → List A → List A
cons_some none xs = xs
cons_some (some x) xs = x ∷ xs

unfoldable pub erase_all : List ConnId → Set ConnId → Set ConnId
erase_all [] s = s
erase_all (c ∷ cs) s = erase_all cs (erase c s)

module _ {W : Type 0} (net : Transport W) where
  -- What `drop` and `break` leave of the sweep over one buffer.
  unfoldable pub resend :
      ℕ
      → WsHandle
      → OutgoingWorkerConfig
      → List Pending
      → W
      → List Pending × W × Option DropConnection
  resend now handle cfg [] w = ([], w, none)
  resend now handle cfg (p ∷ ps) w =
      if ltb now (p.last_sent_at + cfg.retransmit_timeout)
      then (let rest = resend now handle cfg ps w in (p ∷ rest.0, rest.1, rest.2))
      else if leb cfg.max_retransmits p.attempts
      then (p ∷ ps, w, some (record { code = 4409; reason = "reliable_ack_timeout" }))
      else if net.is_backpressured handle w
      then (p ∷ ps, w, none)
      else (let sent = net.send handle p.bytes true w in
          let p' : Pending =
            (if sent.1
              then record p { last_sent_at = now; attempts = (p.attempts + 1) % 2 ^ 16 }
              else p) in
          let rest = resend now handle cfg ps sent.0 in (p' ∷ rest.0, rest.1, rest.2))

  -- The mutator of the sweep.
  unfoldable pub sweep_buffer :
      ℕ
      → OutgoingWorkerConfig
      → ConnectionContext
      → W
      → ConnectionContext × W × Option DropConnection
  unfolding resend
  sweep_buffer now cfg ctx w =
      let r = ctx.reliable in
      if is_nil r.buffer
      then (ctx, w, none)
      else if ltb r.capacity (length r.buffer)
      then (ctx, w, some (record { code = 4409; reason = "reliable_buffer_overflow" }))
      else if not (is_some ctx.handle)
      then (ctx, w, none)
      else (let done = resend now ctx.handle cfg r.buffer w in
          (record ctx { reliable = record r { buffer = done.0 } }, done.1, done.2))

  -- One round of the sweep: the state, the connections to erase and the drops.
  unfoldable pub sweep_connection :
      ℕ
      → OutgoingWorkerConfig
      → ConnId
      → ConnectionRegistery × W
      → (ConnectionRegistery × W) × Bool × Option (WsHandle × DropConnection)
  unfolding sweep_buffer
  sweep_connection now cfg conn_id (conns, w) = elim (find conn_id conns) [
    | none ↦ ((conns, w), true, none)
    | some ctx ↦
        let done = sweep_buffer now cfg ctx w in
        (
          (put conn_id done.0 conns, done.1),
          is_nil ctx.reliable.buffer || is_some done.2,
          drop_of ctx.handle done.2,
        )
  ]

  unfoldable pub sweep_all :
      ℕ
      → OutgoingWorkerConfig
      → List ConnId
      → ConnectionRegistery × W
      → (ConnectionRegistery × W) × List ConnId × List (WsHandle × DropConnection)
  unfolding sweep_connection
  sweep_all now cfg [] s = (s, [], [])
  sweep_all now cfg (c ∷ cs) s =
      let one = sweep_connection now cfg c s in
      let rest = sweep_all now cfg cs one.0 in
      (rest.0, (if one.1 then c ∷ rest.1 else rest.1), cons_some one.2 rest.2)

  unfoldable pub end_all :
      List (WsHandle × DropConnection) → ConnectionRegistery → W → ConnectionRegistery × W
  unfolding end_drop
  end_all [] conns w = (conns, w)
  end_all ((handle, d) ∷ ds) conns w =
      let next = end_drop net handle d conns w in end_all ds next.0 next.1

  unfoldable pub retransmit_sweep : OutgoingWorkerConfig → OutgoingWorker W → OutgoingWorker W
  unfolding sweep_all end_all
  retransmit_sweep cfg s =
      if is_empty s.pending_unacked_conns_
      then s
      else (let time = net.now s.world in
          let swept = sweep_all time.1 cfg (keys s.pending_unacked_conns_) (s.conns_, time.0) in
          let ended = end_all swept.2 swept.0.0 swept.0.1 in
          record s {
            conns_ = ended.0;
            pending_unacked_conns_ = erase_all swept.1 s.pending_unacked_conns_;
            world = ended.1;
          })
