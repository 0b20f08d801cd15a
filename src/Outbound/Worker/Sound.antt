-- ===== src/Outbound/Worker/Sound.antt =====
-- What holds of every connection of a network thread, whatever the sockets and the clock do.
use kergit_server.Base.{
  ℕ, dec_eq, ◌≤◌, ◌≡◌, refl, subst, some, List, [], ◌∷◌, length, arith, Bool-cases, Option-cases,
  inl, inr, is_some, All,
}
use kergit_server.Base.Map.{Set, find, put, emplace, empty, find-put, find-erase, find-empty}
use kergit_server.Ids.{ConnId, GlobalConnId, conn_id_key}
use kergit_server.Outbound.Msg.{OutboundItem, OutgoingMessage}
use kergit_server.Outbound.Registry.{
  WsHandle, ConnectionContext, ConnectionRegistery, connection_context, attach, detach, mutate,
}
use kergit_server.Outbound.Outbox.{enqueue, enqueue_to_outbox, enqueue_all}
use kergit_server.Outbound.Outbox.Bounds.{enqueue-length, enqueue-capacity}
use kergit_server.Outbound.Worker.{detach_all, acknowledge}
use kergit_server.Outbound.Worker.Reliable.{Consecutive, pop_acked-Consecutive}
use kergit_server.Outbound.Worker.Retry.{TriedAtMost, All-pop_acked}

-- The outbox is within its capacity, the frames that wait are numbered without a gap up to the last
-- number given, and none was sent more often than `max`.
pub record IsSound (max : ℕ) (c : ConnectionContext) : Type 0 where
  pub room : 1 ≤ c.outbox.capacity
  pub bounded : length c.outbox.q ≤ c.outbox.capacity
  pub chain : (s : ℕ) × Consecutive s c.reliable.buffer c.reliable.next_seq
  pub tried : All (TriedAtMost max) c.reliable.buffer

pub record AllSound (max : ℕ) (conns : ConnectionRegistery) : Type 0 where
  pub sound : (c : ConnId) (ctx : ConnectionContext) → find c conns ≡ some ctx → IsSound max ctx

module _ (max : ℕ) where
  pub AllSound-empty : AllSound max empty
  AllSound-empty = record {
    sound = λ c ctx e. absurd (ground (arith, e, find-empty {V = ConnectionContext} c));
  }

  pub AllSound-put :
      (c : ConnId) (ctx : ConnectionContext) (conns : ConnectionRegistery)
      → IsSound max ctx
      → AllSound max conns
      → AllSound max (put c ctx conns)
  AllSound-put c ctx conns h all = record {
    sound = λ d x e. elim (dec_eq c d) [
      | yes p ↦ subst (IsSound max) (ground (arith, p, e, find-put c d ctx conns)) h
      | no n ↦ all.sound d x (ground (arith, n, e, find-put c d ctx conns))
    ];
  }

  pub AllSound-detach :
      (c : ConnId) (conns : ConnectionRegistery)
      → AllSound max conns
      → AllSound max (detach c conns)
  unfolding detach
  AllSound-detach c conns all = record {
    sound = λ d x e. all.sound d x (ground (arith, e, find-erase c d conns));
  }

  pub AllSound-detach_all :
      (cs : List ConnId) (conns : ConnectionRegistery)
      → AllSound max conns
      → AllSound max (detach_all cs conns)
  unfolding detach_all
  AllSound-detach_all [] conns all = all
  AllSound-detach_all (c ∷ cs) conns all =
      AllSound-detach_all cs (detach c conns) (AllSound-detach c conns all)

  -- A new connection is sound.
  pub IsSound-connection :
      (c : ConnId) (h : WsHandle) (port now : ℕ) → IsSound max (connection_context c h port now)
  unfolding connection_context
  IsSound-connection c h port now = record {
    room = omega arith;
    bounded = omega arith;
    chain = (0, refl);
    tried = tt;
  }

  pub AllSound-attach :
      (c : ConnId) (ctx : ConnectionContext) (conns : ConnectionRegistery)
      → IsSound max ctx
      → AllSound max conns
      → AllSound max (attach c ctx conns)
  unfolding attach emplace
  AllSound-attach c ctx conns h all = elim (Bool-cases (is_some (find c conns))) [
    | inl e ↦ rw (e) all
    | inr e ↦ rw (e) (AllSound-put c ctx conns h all)
  ]

  pub AllSound-enqueue :
      (g : GlobalConnId) (msg : OutgoingMessage) (conns : ConnectionRegistery)
      (touched : Set ConnId)
      → AllSound max conns
      → AllSound max (enqueue_to_outbox g msg conns touched).0
  unfolding enqueue_to_outbox mutate
  AllSound-enqueue g msg conns touched all = elim (Option-cases (find g.conn_id conns)) [
    | inl e ↦ rw (enqueue_to_outbox, mutate, e) all
    | inr (ctx, e) ↦
        let item : OutboundItem = record { priority = msg.priority; action = msg.action } in
        let h = all.sound g.conn_id ctx e in
        rw (enqueue_to_outbox, mutate, e)
          (AllSound-put g.conn_id (record ctx { outbox = enqueue item ctx.outbox }) conns
            (record {
              room = ground (arith, h.room, enqueue-capacity item ctx.outbox);
              bounded = ground (
                arith,
                enqueue-capacity item ctx.outbox,
                enqueue-length item ctx.outbox h.room h.bounded,
              );
              chain = h.chain;
              tried = h.tried;
            })
            all)
  ]

  pub AllSound-enqueue_all :
      (gs : List GlobalConnId) (msg : OutgoingMessage) (conns : ConnectionRegistery)
      (touched : Set ConnId)
      → AllSound max conns
      → AllSound max (enqueue_all gs msg conns touched).0
  unfolding enqueue_all
  AllSound-enqueue_all [] msg conns touched all = all
  AllSound-enqueue_all (g ∷ gs) msg conns touched all =
      let next = enqueue_to_outbox g msg conns touched in
      AllSound-enqueue_all gs msg next.0 next.1 (AllSound-enqueue g msg conns touched all)

  pub IsSound-acknowledge :
      (ack : ℕ) (ctx : ConnectionContext)
      → IsSound max ctx
      → IsSound max (record ctx { reliable = acknowledge ack ctx.reliable })
  unfolding acknowledge
  IsSound-acknowledge ack ctx h = record {
    room = h.room;
    bounded = h.bounded;
    chain = pop_acked-Consecutive ack h.chain.0 ctx.reliable.next_seq ctx.reliable.buffer h.chain.1;
    tried = All-pop_acked ack max ctx.reliable.buffer h.tried;
  }
