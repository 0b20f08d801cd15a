-- ===== src/Outbound/Outbox/Bounds.antt =====
-- What an outbox keeps and loses when a message is appended.
use kergit_server.Base.{
  ◌+◌, ◌≤◌, ◌<◌, ◌≡◌, ◌⊎◌, refl, Bool, true, false, not, none, some, List, [], ◌∷◌, ◌++◌, arith,
  length, length-append, keep_if, Option-cases, inl, inr,
}
use kergit_server.Outbound.Msg.{OutboundItem, is_low}
use kergit_server.Outbound.Registry.{PerConnectionOutbox}
use kergit_server.Outbound.Outbox.{erase_last_low, slow_drop, overflow, enqueue}

abbrev pub is_high : OutboundItem → Bool
is_high i = not (is_low i.priority)

-- The high items of a queue, in their order.
abbrev pub highs : List OutboundItem → List OutboundItem
highs q = keep_if is_high q

highs-append : (xs ys : List OutboundItem) → highs (xs ++ ys) ≡ highs xs ++ highs ys
highs-append [] ys = refl
highs-append (x ∷ xs) ys = ground (arith, highs-append xs ys)

highs-append_low :
    (q : List OutboundItem) (i : OutboundItem)
    → is_low i.priority ≡ true
    → highs (q ++ i ∷ []) ≡ highs q
highs-append_low [] i h = ground (arith, h)
highs-append_low (x ∷ xs) i h = ground (arith, highs-append_low xs i h)

length-erase_last_low :
    (q rest : List OutboundItem) → erase_last_low q ≡ some rest → length rest + 1 ≡ length q
unfolding erase_last_low
length-erase_last_low [] rest h = absurd (ground arith)
length-erase_last_low (i ∷ is) rest h = elim (Option-cases (erase_last_low is)) [
  | inl e ↦ ground (arith, e)
  | inr (r, e) ↦ ground (arith, e, length-erase_last_low is r e)
]

highs-erase_last_low :
    (q rest : List OutboundItem) → erase_last_low q ≡ some rest → highs rest ≡ highs q
unfolding erase_last_low
highs-erase_last_low [] rest h = absurd (ground arith)
highs-erase_last_low (i ∷ is) rest h = elim (Option-cases (erase_last_low is)) [
  | inl e ↦ ground (arith, e)
  | inr (r, e) ↦ ground (arith, e, highs-erase_last_low is r e)
]

-- With no low item to erase, all items are high.
highs-erase_none : (q : List OutboundItem) → erase_last_low q ≡ none → highs q ≡ q
unfolding erase_last_low
highs-erase_none [] h = refl
highs-erase_none (i ∷ is) h = elim (Option-cases (erase_last_low is)) [
  | inl e ↦ ground (arith, e, highs-erase_none is e)
  | inr (r, e) ↦ absurd (ground (arith, e))
]

-- An outbox within its capacity, which has room for one item, stays within it.
pub enqueue-length :
    (item : OutboundItem) (ob : PerConnectionOutbox)
    → 1 ≤ ob.capacity
    → length ob.q ≤ ob.capacity
    → length (enqueue item ob).q ≤ ob.capacity
unfolding enqueue overflow
enqueue-length item ob room h = elim (Option-cases (erase_last_low ob.q)) [
  | inl e ↦ ground (arith, e, length-append ob.q (item ∷ []))
  | inr (rest, e) ↦ ground (
    arith,
    e,
    length-append ob.q (item ∷ []),
    length-append rest (item ∷ []),
    length-erase_last_low ob.q rest e,
  )
]

-- While at most three refusals are counted, a high message joins the high messages of the outbox,
-- in order and none of them lost, unless the outbox is full of high messages: then it is refused and
-- the outbox stays as it is, or, at the fourth refusal, the whole backlog becomes the one action
-- that closes the connection.
pub enqueue-high :
    (item : OutboundItem) (ob : PerConnectionOutbox)
    → is_low item.priority ≡ false
    → ob.slow_hits ≤ 3
    → (highs (enqueue item ob).q ≡ highs ob.q ++ item ∷ [])
      ⊎ ((ob.capacity ≤ length ob.q)
          × (highs ob.q ≡ ob.q)
          × (((enqueue item ob).q ≡ ob.q)
                × ((enqueue item ob).slow_hits ≡ ob.slow_hits + 1)
                × (ob.slow_hits < 3)
              ⊎ ((enqueue item ob).q ≡ slow_drop ∷ []) × (ob.slow_hits ≡ 3)))
unfolding enqueue overflow
enqueue-high item ob h hits = elim (Option-cases (erase_last_low ob.q)) [
  | inl e ↦ ground (arith, e, h, hits, highs-append ob.q (item ∷ []), highs-erase_none ob.q e)
  | inr (rest, e) ↦ inl (
      ground (
        arith,
        e,
        h,
        highs-append ob.q (item ∷ []),
        highs-append rest (item ∷ []),
        highs-erase_last_low ob.q rest e,
      ))
]

-- A low message never changes the high ones, nor the count of refusals.
pub enqueue-low :
    (item : OutboundItem) (ob : PerConnectionOutbox)
    → is_low item.priority ≡ true
    → (highs (enqueue item ob).q ≡ highs ob.q) × ((enqueue item ob).slow_hits ≡ ob.slow_hits)
unfolding enqueue overflow
enqueue-low item ob h = ground (arith, h, highs-append_low ob.q item h)

pub enqueue-capacity :
    (item : OutboundItem) (ob : PerConnectionOutbox) → (enqueue item ob).capacity ≡ ob.capacity
unfolding enqueue overflow
enqueue-capacity item ob = ground arith
