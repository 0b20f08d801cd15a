-- ===== src/Outbound/Worker/Flush.antt =====
-- What flushing the outbox of one connection does.
use kergit_server.Base.{
  suc, ◌+◌, ◌≤◌, ◌≡◌, refl, ap, ◌∙◌, true, none, List, [], ◌∷◌, ◌++◌, if◌then◌else◌, length,
  length-append, inc64, arith, Bool-cases, inl, inr, is_some,
}
use kergit_server.Ids.{ConnId}
use kergit_server.Outbound.Msg.{OutboundPriority, Action, SendPayload, OutboundItem}
use kergit_server.Outbound.Worker.{Transport, Work, retain, update_auth, send_payload, flush_items}
use kergit_server.Outbound.Worker.Payload.{
  is_reliable, reliables, Extends, Extends-refl, Extends-trans, Extends-update, Extends-send,
  update_auth-buffer, send_payload_lem,
}

module _ {W : Type 0} (net : Transport W) (conn_id : ConnId) where
  abbrev item : OutboundPriority → Action → OutboundItem
  item p a = record { priority = p; action = a }

  Extends-item :
      (i : OutboundPriority) (a : Action) (is : List OutboundItem)
      → ((k : Work W) → Extends k.ctx (flush_items net conn_id is k).0.ctx)
      → (k : Work W) → Extends k.ctx (flush_items net conn_id (item i a ∷ is) k).0.ctx
  unfolding flush_items
  Extends-item i (Action.send_action p) is rest k =
      let sent = send_payload net conn_id p k in
      elim (Bool-cases sent.1) [
        | inl s ↦
            rw (flush_items, s)
              (Extends-trans k.ctx sent.0.ctx (flush_items net conn_id is sent.0).0.ctx
                (Extends-send net conn_id p k) (rest sent.0))
        | inr s ↦ rw (flush_items, s) (Extends-send net conn_id p k)
      ]
  Extends-item i (Action.auth_action u) is rest k =
      let k' : Work W = record k { ctx = update_auth u k.ctx } in
      Extends-trans k.ctx k'.ctx (flush_items net conn_id is k').0.ctx (Extends-update u k.ctx)
        (rest k')
  Extends-item i (Action.drop_action d) is rest k = Extends-refl k.ctx

  -- Flushing keeps the socket and the outbox settings of a connection, removes no frame that waits
  -- for an acknowledgement, numbers the new ones onwards without a gap, and never recovers a failed
  -- authentication.
  pub flush_items-Extends :
      (q : List OutboundItem) (k : Work W) → Extends k.ctx (flush_items net conn_id q k).0.ctx
  unfolding flush_items
  flush_items-Extends [] k = Extends-refl k.ctx
  flush_items-Extends (i ∷ is) k = Extends-item i.priority i.action is (flush_items-Extends is) k

  abbrev Suffix : List OutboundItem → Work W → Type 0
  Suffix q k =
      (flush_items net conn_id q k).2 ≡ none
      → (sent : List OutboundItem) × (q ≡ sent ++ (flush_items net conn_id q k).1)

  Suffix-item :
      (i : OutboundPriority) (a : Action) (is : List OutboundItem)
      → ((k : Work W) → Suffix is k)
      → (k : Work W) → Suffix (item i a ∷ is) k
  unfolding flush_items
  Suffix-item i (Action.send_action p) is rest k =
      let sent = send_payload net conn_id p k in
      elim (Bool-cases sent.1) [
        | inl s ↦
            rw (flush_items, s)
              (λ n.
                let r = rest sent.0 n in
                (
                  item i (Action.send_action p) ∷ r.0,
                  ap (λ l. item i (Action.send_action p) ∷ l) r.1,
                ))
        | inr s ↦ rw (flush_items, s) (λ n. ([], refl))
      ]
  Suffix-item i (Action.auth_action u) is rest k = λ n.
      let r = rest (record k { ctx = update_auth u k.ctx }) n in
      (item i (Action.auth_action u) ∷ r.0, ap (λ l. item i (Action.auth_action u) ∷ l) r.1)
  Suffix-item i (Action.drop_action d) is rest k = λ n. absurd (ground (arith, n))

  -- Without a drop, what flushing leaves of a queue is its end: the items leave in their order.
  pub flush_items-suffix :
      (q : List OutboundItem) (k : Work W)
      → (flush_items net conn_id q k).2 ≡ none
      → (sent : List OutboundItem) × (q ≡ sent ++ (flush_items net conn_id q k).1)
  unfolding flush_items
  flush_items-suffix [] k n = ([], refl)
  flush_items-suffix (i ∷ is) k n =
      Suffix-item i.priority i.action is (λ k'. flush_items-suffix is k') k n

  Length-item :
      (i : OutboundPriority) (a : Action) (is : List OutboundItem)
      → ((k : Work W) → length (flush_items net conn_id is k).1 ≤ length is)
      → (k : Work W) → length (flush_items net conn_id (item i a ∷ is) k).1 ≤ suc (length is)
  unfolding flush_items
  Length-item i (Action.send_action p) is rest k =
      ground (arith, rest (send_payload net conn_id p k).0)
  Length-item i (Action.auth_action u) is rest k =
      ground (arith, rest (record k { ctx = update_auth u k.ctx }))
  Length-item i (Action.drop_action d) is rest k = ground arith

  pub flush_items-length :
      (q : List OutboundItem) (k : Work W) → length (flush_items net conn_id q k).1 ≤ length q
  unfolding flush_items
  flush_items-length [] k = ground arith
  flush_items-length (i ∷ is) k = Length-item i.priority i.action is (flush_items-length is) k

  abbrev Counted : List OutboundItem → Work W → Type 0
  Counted q k =
      is_some k.ctx.handle ≡ true
      → (flush_items net conn_id q k).2 ≡ none
      → reliables (flush_items net conn_id q k).1
          + length (flush_items net conn_id q k).0.ctx.reliable.buffer
        ≡ reliables q + length k.ctx.reliable.buffer

  send_payload-counted :
      (p : SendPayload) (k : Work W)
      → is_some k.ctx.handle ≡ true
      → length (send_payload net conn_id p k).0.ctx.reliable.buffer
        ≡ length k.ctx.reliable.buffer
          + (if (send_payload net conn_id p k).1
              then (if is_reliable (Action.send_action p) then 1 else 0)
              else 0)
  unfolding retain
  send_payload-counted p k v = elim (send_payload_lem net conn_id p k) [
    | inl (c, n) ↦ ground (arith, ap (λ d. length d.reliable.buffer) c, n v)
    | inr (d, r, wire, now, c) ↦ ground (
      arith,
      d,
      r,
      ap (λ d. length d.reliable.buffer) c,
      length-append k.ctx.reliable.buffer (
          record {
            seq = inc64 k.ctx.reliable.next_seq;
            bytes = wire;
            last_sent_at = now;
            attempts = 1;
          }
          ∷ []),
    )
  ]

  Counted-item :
      (i : OutboundPriority) (a : Action) (is : List OutboundItem)
      → ((k : Work W) → Counted is k)
      → (k : Work W) → Counted (item i a ∷ is) k
  unfolding flush_items
  Counted-item i (Action.send_action p) is rest k =
      let sent = send_payload net conn_id p k in
      elim (Bool-cases sent.1) [
        | inl s ↦
            rw (flush_items, s)
              (λ v n. ground (
                arith,
                s,
                send_payload-counted p k v,
                rest sent.0 (ap is_some (Extends-send net conn_id p k).same_handle ∙ v) n,
              ))
        | inr s ↦ rw (flush_items, s) (λ v n. ground (arith, s, send_payload-counted p k v))
      ]
  Counted-item i (Action.auth_action u) is rest k = λ v n.
      let k' : Work W = record k { ctx = update_auth u k.ctx } in
      ground (
        arith,
        update_auth-buffer u k.ctx,
        rest k' (ap is_some (Extends-update u k.ctx).same_handle ∙ v) n,
      )
  Counted-item i (Action.drop_action d) is rest k = λ v n. absurd (ground (arith, n))

  -- Without a drop and with an open socket, every reliable payload with data that leaves the outbox
  -- joins the frames that wait for an acknowledgement: none is lost, none is counted twice.
  pub flush_items-reliables :
      (q : List OutboundItem) (k : Work W)
      → is_some k.ctx.handle ≡ true
      → (flush_items net conn_id q k).2 ≡ none
      → reliables (flush_items net conn_id q k).1
          + length (flush_items net conn_id q k).0.ctx.reliable.buffer
        ≡ reliables q + length k.ctx.reliable.buffer
  unfolding flush_items
  flush_items-reliables [] k v n = refl
  flush_items-reliables (i ∷ is) k v n =
      Counted-item i.priority i.action is (flush_items-reliables is) k v n
