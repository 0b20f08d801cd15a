-- ===== src/Outbound/Worker/Passes.antt =====
-- Each pass of the tick keeps every connection sound.
use kergit_server.Base.{
  ℕ, suc, ltb, ◌^◌, ◌≤◌, ◌<◌, ◌≡◌, ap, sym, subst, Bool, List, [], ◌∷◌, length, arith, Bool-cases,
  Option-cases, inl, inr, is_some, All, All-append, zero,
}
use kergit_server.Base.Map.{Set, find, put, is_nil}
use kergit_server.Ids.{ConnId, conn_id_key}
use kergit_server.Outbound.Msg.{DropConnection}
use kergit_server.Outbound.Registry.{WsHandle, Pending, ConnectionContext, ConnectionRegistery}
use kergit_server.Outbound.Queue.{try_pop}
use kergit_server.Outbound.Outbox.{distribute}
use kergit_server.Outbound.Worker.{
  Transport, OutgoingWorkerConfig, OutgoingWorker, Work, flush_items, end_drop, with_queue,
  flush_connection_outbox,
}
use kergit_server.Outbound.Worker.Sweep.{sweep_buffer, sweep_connection, resend, sweep_all, end_all}
use kergit_server.Outbound.Worker.Tick.{spent, drain_loop, flush_loop}
use kergit_server.Outbound.Worker.Payload.{FirstTry}
use kergit_server.Outbound.Worker.Flush.{flush_items-Extends, flush_items-length}
use kergit_server.Outbound.Worker.Sound.{
  IsSound, AllSound, AllSound-put, AllSound-detach_all, AllSound-enqueue_all,
}
use kergit_server.Outbound.Worker.Retry.{
  TriedAtMost, resend-frames, resend-attempts, Consecutive-frames,
}

module _ {W : Type 0} (net : Transport W) (max : ℕ) where
  All-FirstTry : (ps : List Pending) → 1 ≤ max → All FirstTry ps → All (TriedAtMost max) ps
  All-FirstTry [] m h = tt
  All-FirstTry (p ∷ ps) m h = (ground (arith, h.0, m), All-FirstTry ps m h.1)

  IsSound-flush :
      (c : ConnId) (k : Work W)
      → 1 ≤ max
      → IsSound max k.ctx
      → let done = flush_items net c k.ctx.outbox.q k in IsSound max (with_queue done.1 done.0.ctx)
  IsSound-flush c k m h =
      let q = k.ctx.outbox.q in
      let ext = flush_items-Extends net c q k in
      record {
        room = ground (arith, h.room, ap (λ o. o.capacity) ext.same_outbox);
        bounded =
            ground (
              arith,
              h.bounded,
              ap (λ o. o.capacity) ext.same_outbox,
              flush_items-length net c q k,
            );
        chain = (h.chain.0, ext.chained h.chain.0 h.chain.1);
        tried =
            subst (λ b. All (TriedAtMost max) b) (sym ext.appended.1)
              (All-append (TriedAtMost max) k.ctx.reliable.buffer ext.appended.0 h.tried
                (All-FirstTry ext.appended.0 m ext.appended.2));
      }

  pub AllSound-end_drop :
      (h : WsHandle) (d : DropConnection) (conns : ConnectionRegistery) (w : W)
      → AllSound max conns
      → AllSound max (end_drop net h d conns w).0
  unfolding end_drop
  AllSound-end_drop h d conns w all = elim (Bool-cases (is_some h)) [
    | inl e ↦ rw (e) (AllSound-detach_all max (net.end h d.code d.reason w).1 conns all)
    | inr e ↦ rw (e) all
  ]

  pub AllSound-flush :
      (c : ConnId) (s : OutgoingWorker W)
      → 1 ≤ max
      → AllSound max s.conns_
      → AllSound max (flush_connection_outbox net c s).conns_
  unfolding flush_connection_outbox
  AllSound-flush c s m all = elim (Option-cases (find c s.conns_)) [
    | inl e ↦ rw (flush_connection_outbox, e) all
    | inr (ctx, e) ↦
        let k : Work W = record {
          ctx = ctx;
          pending_unacked = s.pending_unacked_conns_;
          world = s.world;
        } in
        let done = flush_items net c ctx.outbox.q k in
        let conns = put c (with_queue done.1 done.0.ctx) s.conns_ in
        let kept : AllSound max conns =
          AllSound-put max c (with_queue done.1 done.0.ctx) s.conns_
            (IsSound-flush c k m (all.sound c ctx e)) all in
        elim (Option-cases done.2) [
          | inl n ↦ rw (flush_connection_outbox, e, n) kept
          | inr (d, n) ↦
              rw (flush_connection_outbox, e, n)
                (AllSound-end_drop ctx.handle d conns done.0.world kept)
        ]
  ]

  pub AllSound-flush_loop :
      (cs : List ConnId) (enabled : Bool) (deadline : ℕ) (s : OutgoingWorker W)
      → 1 ≤ max
      → AllSound max s.conns_
      → AllSound max (flush_loop net cs enabled deadline s).conns_
  unfolding flush_loop
  AllSound-flush_loop [] enabled deadline s m all = all
  AllSound-flush_loop (c ∷ cs) enabled deadline s m all =
      let late = spent net enabled deadline s.world in
      let s' : OutgoingWorker W = record s { world = late.0 } in
      elim (Bool-cases late.1) [
        | inl e ↦ rw (e) all
        | inr e ↦ rw (e) (
            AllSound-flush_loop cs enabled deadline (flush_connection_outbox net c s') m
              (AllSound-flush c s' m all))
      ]

  pub AllSound-drain :
      (n : ℕ) (enabled : Bool) (deadline : ℕ) (s : OutgoingWorker W) (touched : Set ConnId)
      → AllSound max s.conns_
      → AllSound max (drain_loop net n enabled deadline s touched).0.conns_
  unfolding drain_loop distribute
  AllSound-drain zero enabled deadline s touched all = all
  AllSound-drain (suc n) enabled deadline s touched all =
      let late = spent net enabled deadline s.world in
      let popped = try_pop s.out_q_ in
      elim (Bool-cases late.1) [
        | inl e ↦ rw (e) all
        | inr e ↦ elim (Option-cases popped.1) [
          | inl o ↦ rw (e, o) all
          | inr (msg, o) ↦
              let fan = distribute msg s.conns_ touched in
              rw (e, o)
                (AllSound-drain n enabled deadline
                  (record s { conns_ = fan.0; out_q_ = popped.0; world = late.0 }) fan.1
                  (AllSound-enqueue_all max msg.conns msg s.conns_ touched all))
        ]
      ]

  IsSound-sweep :
      (now : ℕ) (cfg : OutgoingWorkerConfig) (ctx : ConnectionContext) (w : W)
      → cfg.max_retransmits ≡ max
      → max < 2 ^ 16
      → IsSound max ctx
      → IsSound max (sweep_buffer net now cfg ctx w).0
  unfolding sweep_buffer
  IsSound-sweep now cfg ctx w e m h =
      let r = ctx.reliable in
      elim (Bool-cases (is_nil r.buffer)) [
        | inl a ↦ rw (a) h
        | inr a ↦ elim (Bool-cases (ltb r.capacity (length r.buffer))) [
          | inl b ↦ rw (a, b) h
          | inr b ↦ elim (Bool-cases (is_some ctx.handle)) [
            | inr c ↦ rw (a, b, c) h
            | inl c ↦
                rw (a, b, c)
                  record {
                    room = h.room;
                    bounded = h.bounded;
                    chain = (
                      h.chain.0,
                      Consecutive-frames h.chain.0 r.next_seq r.buffer
                          (resend net now ctx.handle cfg r.buffer w).0
                          (resend-frames net now ctx.handle cfg r.buffer w) h.chain.1,
                    );
                    tried =
                        subst
                          (λ n. All (TriedAtMost n) (resend net now ctx.handle cfg r.buffer w).0) e
                          (resend-attempts net now ctx.handle cfg r.buffer w (ground (arith, e, m))
                            (subst (λ n. All (TriedAtMost n) r.buffer) (sym e) h.tried));
                  }
          ]
        ]
      ]

  module _ (now : ℕ) (cfg : OutgoingWorkerConfig) (e : cfg.max_retransmits ≡ max)
      (m : max < 2 ^ 16) where
    AllSound-sweep :
        (c : ConnId) (conns : ConnectionRegistery) (w : W)
        → AllSound max conns
        → AllSound max (sweep_connection net now cfg c (conns, w)).0.0
    unfolding sweep_connection
    AllSound-sweep c conns w all = elim (Option-cases (find c conns)) [
      | inl n ↦ rw (sweep_connection, n) all
      | inr (ctx, n) ↦
          rw (sweep_connection, n)
            (AllSound-put max c (sweep_buffer net now cfg ctx w).0 conns
              (IsSound-sweep now cfg ctx w e m (all.sound c ctx n)) all)
    ]

    pub AllSound-sweep_all :
        (cs : List ConnId) (s : ConnectionRegistery × W)
        → AllSound max s.0
        → AllSound max (sweep_all net now cfg cs s).0.0
    unfolding sweep_all
    AllSound-sweep_all [] s all = all
    AllSound-sweep_all (c ∷ cs) s all =
        AllSound-sweep_all cs (sweep_connection net now cfg c s).0 (AllSound-sweep c s.0 s.1 all)

  pub AllSound-end_all :
      (ds : List (WsHandle × DropConnection)) (conns : ConnectionRegistery) (w : W)
      → AllSound max conns
      → AllSound max (end_all net ds conns w).0
  unfolding end_all
  AllSound-end_all [] conns w all = all
  AllSound-end_all ((handle, d) ∷ ds) conns w all =
      let next = end_drop net handle d conns w in
      AllSound-end_all ds next.0 next.1 (AllSound-end_drop handle d conns w all)
