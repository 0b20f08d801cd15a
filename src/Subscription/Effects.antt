-- ===== src/Subscription/Effects.antt =====
-- What the calls on the subscription manager do, over whole histories.
use kergit_server.Base.{
  ◌≤◌, ◌≡◌, refl, ap, ◌∙◌, Bool, true, false, none, List, [], ◌∷◌, arith, ite, dec_eq,
  if◌then◌else◌, is_some, ◌↔◌, Option-cases, inl, inr,
}
use kergit_server.Base.Map.{Set, is_nil, find, insert, find-put, find-empty, some_entry}
use kergit_server.Base.Nested.{row, lookup-put, lookup-erase, lookup-drop}
use kergit_server.Ids.{GlobalConnId, global_conn_id_key}
use kergit_server.Subscription.{
  SubscriptionManager, Vec, vec, init, subscribe_connection, unsubscribe_connection, is_subscribed,
  get_subscribers, get_subscriptions_for_connection, remove_all_for_connection,
  remove_all_for_topic,
}
use kergit_server.Subscription.Topics.{Topic, topic_key}
use kergit_server.Subscription.Vector.{occurs, occurs_absent}
use kergit_server.Subscription.Invariant.{
  IsLinked, IsLinked-init, IsLinked-subscribe, IsLinked-unsubscribe, IsLinked-remove_connection,
  IsLinked-remove_topic, lookup-forget_topic_all,
}

pub data Call : Type 0 where
  subscribe unsubscribe : GlobalConnId → Topic → Call
  remove_connection : GlobalConnId → Call
  remove_topic : Topic → Call

unfoldable pub step : Call → SubscriptionManager → SubscriptionManager
step (subscribe c t) m = (subscribe_connection c t m).0
step (unsubscribe c t) m = (unsubscribe_connection c t m).0
step (remove_connection c) m = remove_all_for_connection c m
step (remove_topic t) m = remove_all_for_topic t m

unfoldable pub run : List Call → SubscriptionManager → SubscriptionManager
unfolding step
run [] m = m
run (c ∷ cs) m = run cs (step c m)

IsLinked-step : (c : Call) (m : SubscriptionManager) → IsLinked m → IsLinked (step c m)
unfolding step
IsLinked-step (subscribe c t) m h = IsLinked-subscribe m h c t
IsLinked-step (unsubscribe c t) m h = IsLinked-unsubscribe m h c t
IsLinked-step (remove_connection c) m h = IsLinked-remove_connection m h c
IsLinked-step (remove_topic t) m h = IsLinked-remove_topic m h t

pub IsLinked-run : (cs : List Call) (m : SubscriptionManager) → IsLinked m → IsLinked (run cs m)
unfolding run
IsLinked-run [] m h = h
IsLinked-run (c ∷ cs) m h = IsLinked-run cs (step c m) (IsLinked-step c m h)

-- What a call says of one pair: whether it subscribes it, and whether it unsubscribes it.
abbrev pub after : Call → GlobalConnId → Topic → Bool → Bool
after (subscribe c t) d s old = ite (dec_eq c d) (ite (dec_eq t s) true old) old
after (unsubscribe c t) d s old = ite (dec_eq c d) (ite (dec_eq t s) false old) old
after (remove_connection c) d s old = ite (dec_eq c d) false old
after (remove_topic t) d s old = ite (dec_eq t s) false old

-- The subscription of one pair after a history of calls, by the last call that says something of it.
abbrev pub after_all : List Call → GlobalConnId → Topic → Bool → Bool
after_all [] d s old = old
after_all (c ∷ cs) d s old = after_all cs d s (after c d s old)

is_subscribed-step :
    (c : Call) (m : SubscriptionManager) (d : GlobalConnId) (s : Topic)
    → IsLinked m
    → is_subscribed d s (step c m) ≡ after c d s (is_subscribed d s m)
unfolding step is_subscribed subscribe_connection unsubscribe_connection remove_all_for_connection
    remove_all_for_topic
is_subscribed-step (subscribe c t) m d s h =
    let old = row (find c m.conn_to_topics_) in
    ground (arith, lookup-put c m.conn_to_topics_ (insert t old) d s, find-put t s tt old)
is_subscribed-step (unsubscribe c t) m d s h =
    ground (arith, lookup-drop c m.conn_to_topics_ t (row (find c m.conn_to_topics_)) d s refl)
is_subscribed-step (remove_connection c) m d s h =
    ground (arith, lookup-erase c m.conn_to_topics_ d s, find-empty {V = Unit {0}} s)
is_subscribed-step (remove_topic t) m d s h = ground (
  arith,
  h.linked d s,
  lookup-forget_topic_all t (vec (find t m.topic_to_conns_)) m.conn_to_topics_ d s,
  occurs_absent d (vec (find t m.topic_to_conns_)),
)

is_subscribed-run_from :
    (cs : List Call) (m : SubscriptionManager) (d : GlobalConnId) (s : Topic)
    → IsLinked m
    → is_subscribed d s (run cs m) ≡ after_all cs d s (is_subscribed d s m)
unfolding run
is_subscribed-run_from [] m d s h = refl
is_subscribed-run_from (c ∷ cs) m d s h =
    is_subscribed-run_from cs (step c m) d s (IsLinked-step c m h)
    ∙ ap (after_all cs d s) (is_subscribed-step c m d s h)

is_subscribed-init : (d : GlobalConnId) (s : Topic) → is_subscribed d s init ≡ false
unfolding is_subscribed init
is_subscribed-init d s = ground (arith, find-empty {V = Set Topic} d, find-empty {V = Unit {0}} s)

-- After any history of calls a connection is subscribed to a topic exactly when the last call that
-- concerns the pair subscribed it: a later unsubscription, removal of the connection or removal of
-- the topic ends a subscription, and nothing else does.
pub is_subscribed-run :
    (cs : List Call) (d : GlobalConnId) (s : Topic)
    → is_subscribed d s (run cs init) ≡ after_all cs d s false
is_subscribed-run cs d s =
    is_subscribed-run_from cs init d s IsLinked-init
    ∙ ap (after_all cs d s) (is_subscribed-init d s)

-- After any history of calls the vector that `getSubscribers` returns for a topic, or the empty one
-- for the null pointer, has a connection once when the pair is subscribed, by the last call that
-- concerns it, and not at all otherwise: an event reaches every subscriber once and nobody else.
pub fan_out :
    (cs : List Call) (d : GlobalConnId) (s : Topic)
    → occurs d (vec (get_subscribers s (run cs init))) ≡ (if after_all cs d s false then 1 else 0)
unfolding get_subscribers is_subscribed
fan_out cs d s =
    ground (arith, (IsLinked-run cs init IsLinked-init).linked d s, is_subscribed-run cs d s)

first_listed : (v : Vec) → is_nil v ≡ false → (c : GlobalConnId) × (1 ≤ occurs c v)
first_listed [] h = absurd (ground arith)
first_listed (c ∷ cs) h = (c, ground arith)

-- After any history of calls a topic has no entry exactly when no connection is subscribed to it,
-- and a connection has no entry exactly when it is subscribed to no topic: neither index leaks.
pub no_leak :
    (cs : List Call)
    → ((s : Topic)
        → (get_subscribers s (run cs init) ≡ none)
          ↔ ((d : GlobalConnId) → is_subscribed d s (run cs init) ≡ false))
      × ((d : GlobalConnId)
          → (get_subscriptions_for_connection d (run cs init) ≡ none)
            ↔ ((s : Topic) → is_subscribed d s (run cs init) ≡ false))
unfolding get_subscribers get_subscriptions_for_connection is_subscribed
no_leak cs =
    let h = IsLinked-run cs init IsLinked-init in
    let m = run cs init in
    (
      λ s. (
        λ e. λ d. ground (arith, h.linked d s),
        λ none_listed. elim (Option-cases (find s m.topic_to_conns_)) [
          | inl e ↦ e
          | inr (v, e) ↦
              let first = first_listed v (h.vectors.inhabited s v e) in
              absurd (ground (arith, e, first.1, h.linked first.0 s, none_listed first.0))
        ],
      ),
      λ d. (
        λ e. λ s. ground (arith, find-empty {V = Unit {0}} s),
        λ nothing. elim (Option-cases (find d m.conn_to_topics_)) [
          | inl e ↦ e
          | inr (r, e) ↦
              let first = some_entry r (h.topics.inhabited d r e) in
              absurd (ground (arith, e, ap is_some first.2, nothing first.0))
        ],
      ),
    )
