-- ===== src/Outbound/Worker/Payload.antt =====
-- What sending one payload does to the context of a connection.
use mathlib.Core.List.{append_assoc, append-nil}
use kergit_server.Base.{
  sym, ℕ, ◌+◌, ◌≡◌, ◌⊎◌, refl, ap, ◌∙◌, All, All-append, Bool, true, false, not, ◌&&◌, List, [],
  ◌∷◌, ◌++◌, String, if◌then◌else◌, inc64, arith, Bool-cases, Option-cases, inl, inr, is_some,
}
use kergit_server.Ids.{ConnId}
use kergit_server.Outbound.Msg.{Action, SendPayload, UpdateAuthState, OutboundItem, is_failed}
use kergit_server.Outbound.Registry.{Pending, ConnectionContext}
use kergit_server.Outbound.Worker.{
  Transport, Work, retain, update_auth, send_reliable, send_plain, send_payload,
}
use kergit_server.Outbound.Worker.Reliable.{Consecutive, retain-Consecutive}

-- The reliable payloads of a queue that have data.
abbrev pub is_reliable : Action → Bool
is_reliable (Action.send_action p) = p.reliable && is_some p.payload.data_
is_reliable _ = false

abbrev pub reliables : List OutboundItem → ℕ
reliables [] = 0
reliables (i ∷ is) = (if is_reliable i.action then 1 else 0) + reliables is

module _ {W : Type 0} (net : Transport W) (conn_id : ConnId) where
  abbrev pub kept_as : Work W → String → ℕ → ConnectionContext
  kept_as k wire now = record (k.ctx) {
    reliable = retain (inc64 k.ctx.reliable.next_seq) wire now k.ctx.reliable;
  }

  -- The context after sending one payload: unchanged, and then a reliable payload is consumed only
  -- for want of a socket; or with one more retained frame.
  abbrev pub Outcome : SendPayload → Work W → Work W × Bool → Type 0
  Outcome p k done =
      ((done.0.ctx ≡ k.ctx)
        × (is_some k.ctx.handle ≡ true
            → done.1 ≡ true
            → is_reliable (Action.send_action p) ≡ false))
      ⊎ ((done.1 ≡ true)
          × (is_reliable (Action.send_action p) ≡ true)
          × (wire : String) × (now : ℕ) × (done.0.ctx ≡ kept_as k wire now))

  send_reliable_lem :
      (data_ : String) (b : Bool) (k : Work W)
      → (((send_reliable net conn_id data_ b k).0.ctx ≡ k.ctx)
          × ((send_reliable net conn_id data_ b k).1 ≡ false))
        ⊎ (((send_reliable net conn_id data_ b k).1 ≡ true)
            × (wire : String) × (now : ℕ) × ((send_reliable net conn_id data_ b k).0.ctx
                ≡ kept_as k wire now))
  unfolding send_reliable
  send_reliable_lem data_ b k =
      let wire = net.stamp_envelope_seq data_ (inc64 k.ctx.reliable.next_seq) in
      let sent = net.send k.ctx.handle wire b k.world in
      elim (Bool-cases sent.1) [
        | inl e ↦ rw (e) (inr (refl, wire, (net.now sent.0).1, refl))
        | inr e ↦ rw (e) (inl (refl, refl))
      ]

  pub send_payload_lem : (p : SendPayload) (k : Work W) → Outcome p k (send_payload net conn_id p k)
  unfolding send_payload send_plain
  send_payload_lem p k = elim (Option-cases p.payload.data_) [
    | inl e ↦ rw (e) (inl (refl, λ v d. ground (arith, e)))
    | inr (x, e) ↦ elim (Bool-cases (net.is_backpressured k.ctx.handle k.world)) [
      | inl b ↦ rw (e, b) (inl (refl, λ v d. ground arith))
      | inr b ↦ elim (Bool-cases (is_some k.ctx.handle)) [
        | inr h ↦ rw (e, b, h) (inl (refl, λ v d. ground arith))
        | inl h ↦ elim (Bool-cases p.reliable) [
          | inr r ↦ rw (e, b, h, r) (inl (refl, λ v d. refl))
          | inl r ↦
              rw (e, b, h, r)
                (elim (send_reliable_lem x p.payload.is_binary k) [
                  | inl (c, d) ↦ inl (c, λ v d'. ground arith)
                  | inr (d, wire, now, c) ↦ inr (d, refl, wire, now, c)
                ])
        ]
      ]
    ]
  ]

abbrev pub FirstTry : Pending → Type 0
FirstTry p = p.attempts ≡ 1

-- What flushing does to the context of a connection: frames are appended, numbered onwards and
-- tried once, and a failed authentication stays.
pub record Extends (c d : ConnectionContext) : Type 0 where
  pub same_handle : d.handle ≡ c.handle
  pub same_outbox : d.outbox ≡ c.outbox
  pub appended :
      (new : List Pending) × (d.reliable.buffer ≡ c.reliable.buffer ++ new) × All FirstTry new
  pub chained :
      (s : ℕ)
      → Consecutive s c.reliable.buffer c.reliable.next_seq
      → Consecutive s d.reliable.buffer d.reliable.next_seq
  pub stays_failed : is_failed c.auth_state ≡ true → is_failed d.auth_state ≡ true

pub Extends-refl : (c : ConnectionContext) → Extends c c
Extends-refl c = record {
  same_handle = refl;
  same_outbox = refl;
  appended = ([], sym (append-nil c.reliable.buffer), tt);
  chained = λ s h. h;
  stays_failed = λ h. h;
}

pub Extends-trans : (a b c : ConnectionContext) → Extends a b → Extends b c → Extends a c
Extends-trans a b c f g = record {
  same_handle = g.same_handle ∙ f.same_handle;
  same_outbox = g.same_outbox ∙ f.same_outbox;
  appended = (
    f.appended.0 ++ g.appended.0,
    g.appended.1
        ∙ ap (λ l. l ++ g.appended.0) f.appended.1
        ∙ append_assoc a.reliable.buffer f.appended.0 g.appended.0,
    All-append FirstTry f.appended.0 g.appended.0 f.appended.2 g.appended.2,
  );
  chained = λ s h. g.chained s (f.chained s h);
  stays_failed = λ h. g.stays_failed (f.stays_failed h);
}

pub Extends-update : (u : UpdateAuthState) (c : ConnectionContext) → Extends c (update_auth u c)
unfolding update_auth
Extends-update u c = elim (Bool-cases (is_failed c.auth_state && not (is_failed u.state))) [
  | inl e ↦ rw (e) (Extends-refl c)
  | inr e ↦ rw (e) record {
    same_handle = refl;
    same_outbox = refl;
    appended = ([], sym (append-nil c.reliable.buffer), tt);
    chained = λ s h. h;
    stays_failed = λ h. ground (arith, e, h);
  }
]

pub update_auth-buffer :
    (u : UpdateAuthState) (c : ConnectionContext) → (update_auth u c).reliable ≡ c.reliable
unfolding update_auth
update_auth-buffer u c = ground arith

module _ {W : Type 0} (net : Transport W) (conn_id : ConnId) where
  Extends-retain :
      (k : Work W) (wire : String) (now : ℕ) → Extends k.ctx (kept_as net conn_id k wire now)
  unfolding retain
  Extends-retain k wire now = record {
    same_handle = refl;
    same_outbox = refl;
    appended = (
      record { seq = inc64 k.ctx.reliable.next_seq; bytes = wire; last_sent_at = now; attempts = 1 }
          ∷ [],
      refl,
      (refl, tt),
    );
    chained = λ s h. retain-Consecutive s wire now k.ctx.reliable h;
    stays_failed = λ h. h;
  }

  pub Extends-send :
      (p : SendPayload) (k : Work W) → Extends k.ctx (send_payload net conn_id p k).0.ctx
  Extends-send p k = elim (send_payload_lem net conn_id p k) [
    | inl (c, n) ↦ rw (c) (Extends-refl k.ctx)
    | inr (d, r, wire, now, c) ↦ rw (c) (Extends-retain k wire now)
  ]
