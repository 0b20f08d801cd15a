-- ===== src/Outbound/Heartbeat/Verdict.antt =====
-- Which connections the heartbeat sweep closes, and what it changes of the others.
use kergit_server.Base.{
  ℕ, ◌+◌, ◌≤◌, ◌<◌, ◌≡◌, ◌⊎◌, ◌↔◌, refl, ap, ◌∙◌, sym, subst, Bool, true, false, Option, none, some,
  List, [], ◌∷◌, dec_eq, is_some, arith, inl, inr, Bool-cases, Option-cases,
}
use kergit_server.Base.Map.{put, find, find-put, find-erase}
use kergit_server.Ids.{ConnId, conn_id_key}
use kergit_server.Outbound.Msg.{auth_pending, authenticated, DropConnection}
use kergit_server.Outbound.Registry.{
  ConnectionContext, ConnectionView, ConnectionRegistery, WsHandle, view_of, get_ids, get_view,
  detach,
}
use kergit_server.Outbound.Worker.{Transport, end_drop, detach_all}
use kergit_server.Outbound.Heartbeat.{
  HeartbeatConfig, HeartbeatService, failed, verdict, mutated, judge, sweep_one, sweep, tick,
}

mutated_there :
    (id : ConnId) (f : ConnectionContext → ConnectionContext) (ctx : ConnectionContext)
    (conns : ConnectionRegistery)
    → find id conns ≡ some ctx
    → mutated id f conns ≡ put id (f ctx) conns
mutated_there id f ctx conns e = rw (mutated, e) refl

-- Pending within its time to authenticate, or authenticated, not expired and heard of in time.
abbrev pub Alive : HeartbeatConfig → ℕ → ConnectionView → Type 0
Alive cfg now view =
    ((view.auth_state ≡ auth_pending) × (now < view.connected_at + cfg.auth_pending_timeout))
    ⊎ ((view.auth_state ≡ authenticated)
        × (now < view.auth_expires_at)
        × (now ≤ view.last_seen_at + cfg.timeout))

-- The sweep leaves a connection exactly if it is pending within its time to authenticate, or
-- authenticated with a token that has not expired and was heard of within the timeout.
pub verdict-Alive :
    (cfg : HeartbeatConfig) (now : ℕ) (view : ConnectionView)
    → (verdict cfg now view ≡ none) ↔ Alive cfg now view
unfolding verdict
verdict-Alive cfg now view = ground arith

-- The time to authenticate or the token has run out.
abbrev pub Overdue : HeartbeatConfig → ℕ → ConnectionContext → Type 0
Overdue cfg now c =
    ((c.auth_state ≡ auth_pending) × (c.connected_at + cfg.auth_pending_timeout ≤ now))
    ⊎ ((c.auth_state ≡ authenticated) × (c.auth_expires_at ≤ now))

-- What the sweep may make of a context.
abbrev pub Swept : HeartbeatConfig → ℕ → ConnectionContext → ConnectionContext → Type 0
Swept cfg now c d = (d ≡ c) ⊎ ((d ≡ failed c) × Overdue cfg now c)

-- Every connection that is left was there, unchanged or marked as failed.
abbrev pub Remains : HeartbeatConfig → ℕ → ConnectionRegistery → ConnectionRegistery → Type 0
Remains cfg now before after =
    (c : ConnId) (d : ConnectionContext)
    → find c after ≡ some d
    → (o : ConnectionContext) × (find c before ≡ some o) × Swept cfg now o d

module _ (cfg : HeartbeatConfig) (now : ℕ) where
  Swept-trans :
      (a b c : ConnectionContext) → Swept cfg now a b → Swept cfg now b c → Swept cfg now a c
  Swept-trans a b c (inl p) (inl q) = inl (q ∙ p)
  Swept-trans a b c (inl p) (inr (q, o)) = inr (q ∙ ap failed p, ground (arith, o, p))
  Swept-trans a b c (inr (p, o)) (inl q) = inr (q ∙ p, o)
  Swept-trans a b c (inr (p, o)) (inr (q, o')) = inr (q ∙ ap failed p, o)

  Remains-refl : (conns : ConnectionRegistery) → Remains cfg now conns conns
  Remains-refl conns c d e = (d, e, inl refl)

  Remains-trans :
      (a b c : ConnectionRegistery)
      → Remains cfg now a b
      → Remains cfg now b c
      → Remains cfg now a c
  Remains-trans a b c f g k d e =
      let second = g k d e in
      let first = f k second.0 second.1 in
      (first.0, first.1, Swept-trans first.0 second.0 d first.2 second.2)

  Remains-detach_all :
      (cs : List ConnId) (conns : ConnectionRegistery) → Remains cfg now conns (detach_all cs conns)
  unfolding detach_all detach
  Remains-detach_all [] conns c d e = (d, e, inl refl)
  Remains-detach_all (k ∷ ks) conns c d e =
      let rest = Remains-detach_all ks (detach k conns) c d e in
      (rest.0, ground (arith, rest.1, find-erase k c conns), rest.2)

  Remains-mark :
      (id : ConnId) (ctx : ConnectionContext) (conns : ConnectionRegistery)
      → find id conns ≡ some ctx
      → Overdue cfg now ctx
      → Remains cfg now conns (put id (failed ctx) conns)
  Remains-mark id ctx conns e o c d f = elim (dec_eq id c) [
    | yes p ↦
        (ctx, ground (arith, e, p), inr (ground (arith, f, p, find-put id c (failed ctx) conns), o))
    | no n ↦ (d, ground (arith, f, n, find-put id c (failed ctx) conns), inl refl)
  ]

  -- A connection is marked only when it is overdue.
  marked-Overdue :
      (ctx : ConnectionContext) (d : DropConnection)
      → verdict cfg now (view_of ctx) ≡ some (true, d)
      → Overdue cfg now ctx
  unfolding verdict
  marked-Overdue ctx d h = ground (arith, h)

  module _ {W : Type 0} (net : Transport W) where
    Remains-end :
        (h : WsHandle) (d : DropConnection) (conns : ConnectionRegistery) (w : W)
        → Remains cfg now conns (end_drop net h d conns w).0
    unfolding end_drop
    Remains-end h d conns w = elim (Bool-cases (is_some h)) [
      | inl e ↦ rw (e) (Remains-detach_all (net.end h d.code d.reason w).1 conns)
      | inr e ↦ rw (e) (Remains-refl conns)
    ]

    Remains-judge :
        (id : ConnId) (ctx : ConnectionContext) (v : Option (Bool × DropConnection))
        (conns : ConnectionRegistery) (w : W)
        → find id conns ≡ some ctx
        → verdict cfg now (view_of ctx) ≡ v
        → Remains cfg now conns (judge net id (view_of ctx) v conns w).0
    unfolding judge
    Remains-judge id ctx none conns w e h = Remains-refl conns
    Remains-judge id ctx (some (false, d)) conns w e h = Remains-end ctx.handle d conns w
    Remains-judge id ctx (some (true, d)) conns w e h =
        let marked = mutated id failed conns in
        Remains-trans conns marked (end_drop net ctx.handle d marked w).0
          (subst (Remains cfg now conns) (sym (mutated_there id failed ctx conns e))
            (Remains-mark id ctx conns e (marked-Overdue ctx d h)))
          (Remains-end ctx.handle d marked w)

    Remains-one :
        (id : ConnId) (conns : ConnectionRegistery) (w : W)
        → Remains cfg now conns (sweep_one net cfg now id conns w).0
    unfolding sweep_one get_view
    Remains-one id conns w = elim (Option-cases (find id conns)) [
      | inl e ↦ rw (sweep_one, get_view, e) (Remains-refl conns)
      | inr (ctx, e) ↦ elim (Bool-cases (is_some ctx.handle)) [
        | inl h ↦
            rw (sweep_one, get_view, e, h)
              (Remains-judge id ctx (verdict cfg now (view_of ctx)) conns w e refl)
        | inr h ↦ rw (sweep_one, get_view, e, h) (Remains-refl conns)
      ]
    ]

    Remains-sweep :
        (ids : List ConnId) (conns : ConnectionRegistery) (w : W)
        → Remains cfg now conns (sweep net cfg now ids conns w).0
    unfolding sweep
    Remains-sweep [] conns w = Remains-refl conns
    Remains-sweep (id ∷ ids) conns w =
        let next = sweep_one net cfg now id conns w in
        Remains-trans conns next.0 (sweep net cfg now ids next.0 next.1).0 (Remains-one id conns w)
          (Remains-sweep ids next.0 next.1)

-- A sweep adds no connection and leaves each one that stays as it was, or marks it as failed, and
-- that only when its time to authenticate or its token has run out at the time of the sweep.
pub tick-Remains :
    {W : Type 0} (net : Transport W) (cfg : HeartbeatConfig) (s : HeartbeatService W)
    → Remains cfg (net.now s.world).1 s.conns_ (tick net cfg s).conns_
unfolding tick
tick-Remains net cfg s =
    let time = net.now s.world in
    elim (Bool-cases s.running_) [
      | inl e ↦ rw (e) (Remains-sweep cfg time.1 net (get_ids s.conns_) s.conns_ time.0)
      | inr e ↦ rw (e) (Remains-refl cfg time.1 s.conns_)
    ]
