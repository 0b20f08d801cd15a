-- ===== src/Subscription.antt =====
-- app/managers/subscription: which connections receive the events of which topic.
--
-- Each method is one function, which `mu_` makes one step. The subscriber vectors are values here:
-- the source shares them with readers and copies before it writes to one that is shared, so a
-- reader's snapshot is the value at the time of `getSubscribers`.
pub mod Topics
pub mod Vector
pub mod Invariant
pub mod Effects
mod Tests
use kergit_server.Base.{
  Bool, true, false, ◌&&◌, Option, none, some, List, [], ◌∷◌, ◌++◌, is_some, if◌then◌else◌,
}
use kergit_server.Base.Map.{
  Map, Set, empty, is_empty, is_nil, keys, find, contains, put, erase, insert,
}
use kergit_server.Base.Nested.{row, drop}
use kergit_server.Ids.{GlobalConnId, global_conn_id_key}
use Topics.{Topic, topic_key}
use Vector.{swap_remove}

abbrev pub Vec : Type 0
Vec = List GlobalConnId

pub record SubscriptionManager : Type 0 where
  pub topic_to_conns_ : Map Topic Vec
  pub conn_to_topics_ : Map GlobalConnId (Set Topic)

unfoldable pub init : SubscriptionManager
init = record { topic_to_conns_ = empty; conn_to_topics_ = empty }

abbrev pub vec : Option Vec → Vec
vec none = []
vec (some v) = v

-- `eraseConnFromTopic` on the topic's vector, and the topic's entry when it becomes empty.
unfoldable pub erase_conn_from_topic : GlobalConnId → Topic → Map Topic Vec → Map Topic Vec
unfolding swap_remove
erase_conn_from_topic conn topic table = elim (find topic table) [
  | none ↦ table
  | some v ↦
      let rest = swap_remove conn v in
      if is_nil rest then erase topic table else put topic rest table
]

unfoldable pub subscribe_connection :
    GlobalConnId → Topic → SubscriptionManager → SubscriptionManager × Bool
subscribe_connection conn topic m =
    let topics = row (find conn m.conn_to_topics_) in
    if contains topic topics then (m, false) else (
      record {
        topic_to_conns_ =
            put topic (vec (find topic m.topic_to_conns_) ++ conn ∷ []) m.topic_to_conns_;
        conn_to_topics_ = put conn (insert topic topics) m.conn_to_topics_;
      },
      true,
    )

unfoldable pub unsubscribe_connection :
    GlobalConnId → Topic → SubscriptionManager → SubscriptionManager × Bool
unfolding drop erase_conn_from_topic
unsubscribe_connection conn topic m =
    let topics = row (find conn m.conn_to_topics_) in
    if contains topic topics
    then (
      record {
        topic_to_conns_ = erase_conn_from_topic conn topic m.topic_to_conns_;
        conn_to_topics_ = (drop conn topic topics m.conn_to_topics_).0;
      },
      true,
    )
    else (m, false)

unfoldable pub is_subscribed : GlobalConnId → Topic → SubscriptionManager → Bool
is_subscribed conn topic m = contains topic (row (find conn m.conn_to_topics_))

-- `none` is the null pointer.
unfoldable pub get_subscribers : Topic → SubscriptionManager → Option Vec
get_subscribers topic m = find topic m.topic_to_conns_

-- The set, in the order of iteration; `none` is the error.
unfoldable pub get_subscriptions_for_connection :
    GlobalConnId → SubscriptionManager → Option (Set Topic)
get_subscriptions_for_connection conn m = find conn m.conn_to_topics_

-- The loop of `removeAllForConnection`.
unfoldable pub erase_from_topics : GlobalConnId → List Topic → Map Topic Vec → Map Topic Vec
unfolding erase_conn_from_topic
erase_from_topics conn [] table = table
erase_from_topics conn (t ∷ ts) table =
    erase_from_topics conn ts (erase_conn_from_topic conn t table)

unfoldable pub remove_all_for_connection : GlobalConnId → SubscriptionManager → SubscriptionManager
unfolding erase_from_topics
remove_all_for_connection conn m = elim (find conn m.conn_to_topics_) [
  | none ↦ m
  | some topics ↦ record {
    topic_to_conns_ = erase_from_topics conn (keys topics) m.topic_to_conns_;
    conn_to_topics_ = erase conn m.conn_to_topics_;
  }
]

-- One round of the loop of `removeAllForTopic`.
unfoldable pub forget_topic :
    Topic → GlobalConnId → Map GlobalConnId (Set Topic) → Map GlobalConnId (Set Topic)
unfolding drop
forget_topic topic conn table = elim (find conn table) [
  | none ↦ table
  | some topics ↦ (drop conn topic topics table).0
]

unfoldable pub forget_topic_all :
    Topic → Vec → Map GlobalConnId (Set Topic) → Map GlobalConnId (Set Topic)
unfolding forget_topic
forget_topic_all topic [] table = table
forget_topic_all topic (c ∷ cs) table = forget_topic_all topic cs (forget_topic topic c table)

unfoldable pub remove_all_for_topic : Topic → SubscriptionManager → SubscriptionManager
unfolding forget_topic_all
remove_all_for_topic topic m = elim (find topic m.topic_to_conns_) [
  | none ↦ m
  | some v ↦ record {
    topic_to_conns_ = erase topic m.topic_to_conns_;
    conn_to_topics_ = forget_topic_all topic v m.conn_to_topics_;
  }
]
