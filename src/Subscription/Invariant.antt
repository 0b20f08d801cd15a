-- ===== src/Subscription/Invariant.antt =====
-- The two indexes of the subscription manager agree, whatever calls were made.
use kergit_server.Base.{
  ℕ, ◌≤◌, ◌≡◌, refl, false, none, some, List, [], ◌∷◌, ◌++◌, arith, ite, dec_eq, if◌then◌else◌,
  is_some, Bool-cases, Option-cases, inl, inr,
}
use kergit_server.Base.Map.{
  Map, Set, is_nil, keys, elem, elem-keys, find, contains, insert, find-put, find-erase, find-empty,
  nonempty-put,
}
use kergit_server.Base.Nested.{
  row, lookup, NoEmpty, lookup-put, lookup-erase, lookup-drop, NoEmpty-put, NoEmpty-erase,
  NoEmpty-drop,
}
use kergit_server.Ids.{GlobalConnId, global_conn_id_key}
use kergit_server.Subscription.{
  SubscriptionManager, Vec, vec, init, erase_conn_from_topic, subscribe_connection,
  unsubscribe_connection, erase_from_topics, remove_all_for_connection, forget_topic,
  forget_topic_all, remove_all_for_topic,
}
use kergit_server.Subscription.Topics.{Topic, topic_key}
use kergit_server.Subscription.Vector.{
  swap_remove, occurs, occurs-append, occurs-swap_remove, swap_remove_absent, occurs_absent,
  occurs_present,
}

-- How often a connection stands among the subscribers of a topic.
abbrev pub listed : GlobalConnId → Topic → Map Topic Vec → ℕ
listed c t table = occurs c (vec (find t table))

-- No vector is empty.
pub record NoEmptyVec (table : Map Topic Vec) : Type 0 where
  pub inhabited : (t : Topic) (v : Vec) → find t table ≡ some v → is_nil v ≡ false

pub listed-erase_conn_from_topic :
    (c : GlobalConnId) (t : Topic) (table : Map Topic Vec) (d : GlobalConnId) (s : Topic)
    → listed c t table ≤ 1
    → listed d s (erase_conn_from_topic c t table)
      ≡ ite (dec_eq t s) (ite (dec_eq c d) 0 (listed d s table)) (listed d s table)
unfolding erase_conn_from_topic
listed-erase_conn_from_topic c t table d s h = ground (
  arith,
  find-put t s (swap_remove c (vec (find t table))) table,
  find-erase t s table,
  occurs-swap_remove c d (vec (find t table)),
  swap_remove_absent c (vec (find t table)),
  occurs_absent c (vec (find t table)),
  occurs_present c (vec (find t table)),
)

NoEmptyVec-erase_conn :
    (c : GlobalConnId) (t : Topic) (table : Map Topic Vec)
    → NoEmptyVec table
    → NoEmptyVec (erase_conn_from_topic c t table)
unfolding erase_conn_from_topic
NoEmptyVec-erase_conn c t table n = record {
  inhabited = λ s v e. ground (
    arith,
    find-put t s (swap_remove c (vec (find t table))) table,
    find-erase t s table,
    n.inhabited s v,
  );
}

listed-erase_from_topics :
    (c : GlobalConnId) (ts : List Topic) (table : Map Topic Vec) (d : GlobalConnId) (s : Topic)
    → ((t : Topic) → listed c t table ≤ 1)
    → listed d s (erase_from_topics c ts table)
      ≡ ite (dec_eq c d) (if elem s ts then 0 else listed d s table) (listed d s table)
unfolding erase_from_topics elem
listed-erase_from_topics c [] table d s h = ground arith
listed-erase_from_topics c (t ∷ ts) table d s h =
    let next : (r : Topic) → listed c r (erase_conn_from_topic c t table) ≤ 1 =
      λ r. ground (arith, listed-erase_conn_from_topic c t table c r (h t), h r) in
    ground (
      arith,
      listed-erase_conn_from_topic c t table d s (h t),
      listed-erase_from_topics c ts (erase_conn_from_topic c t table) d s next,
    )

NoEmptyVec-erase_from :
    (c : GlobalConnId) (ts : List Topic) (table : Map Topic Vec)
    → NoEmptyVec table
    → NoEmptyVec (erase_from_topics c ts table)
unfolding erase_from_topics
NoEmptyVec-erase_from c [] table n = n
NoEmptyVec-erase_from c (t ∷ ts) table n =
    NoEmptyVec-erase_from c ts (erase_conn_from_topic c t table) (NoEmptyVec-erase_conn c t table n)

lookup-forget_topic :
    (t : Topic) (c : GlobalConnId) (table : Map GlobalConnId (Set Topic)) (d : GlobalConnId)
    (s : Topic)
    → lookup d s (forget_topic t c table)
      ≡ ite (dec_eq t s) (ite (dec_eq c d) none (lookup d s table)) (lookup d s table)
unfolding forget_topic
lookup-forget_topic t c table d s =
    ground (arith, lookup-drop c table t (row (find c table)) d s refl, find-empty {V = Unit {0}} s)

NoEmpty-forget_topic :
    (t : Topic) (c : GlobalConnId) (table : Map GlobalConnId (Set Topic))
    → NoEmpty table
    → NoEmpty (forget_topic t c table)
unfolding forget_topic
NoEmpty-forget_topic t c table n = ground (arith, n, NoEmpty-drop c table t (row (find c table)) n)

pub lookup-forget_topic_all :
    (t : Topic) (cs : Vec) (table : Map GlobalConnId (Set Topic)) (d : GlobalConnId) (s : Topic)
    → lookup d s (forget_topic_all t cs table)
      ≡ ite (dec_eq t s) (if elem d cs then none else lookup d s table) (lookup d s table)
unfolding forget_topic_all elem
lookup-forget_topic_all t [] table d s = ground arith
lookup-forget_topic_all t (c ∷ cs) table d s = ground (
  arith,
  lookup-forget_topic t c table d s,
  lookup-forget_topic_all t cs (forget_topic t c table) d s,
)

NoEmpty-forget_topic_all :
    (t : Topic) (cs : Vec) (table : Map GlobalConnId (Set Topic))
    → NoEmpty table
    → NoEmpty (forget_topic_all t cs table)
unfolding forget_topic_all
NoEmpty-forget_topic_all t [] table n = n
NoEmpty-forget_topic_all t (c ∷ cs) table n =
    NoEmpty-forget_topic_all t cs (forget_topic t c table) (NoEmpty-forget_topic t c table n)

is_nil-append : (v : Vec) (c : GlobalConnId) → is_nil (v ++ c ∷ []) ≡ false
is_nil-append [] c = refl
is_nil-append (x ∷ xs) c = refl

-- Each connection stands once among the subscribers of each of its topics and of no other topic.
pub record IsLinked (m : SubscriptionManager) : Type 0 where
  pub linked :
      (c : GlobalConnId) (t : Topic)
      → listed c t m.topic_to_conns_ ≡ (if is_some (lookup c t m.conn_to_topics_) then 1 else 0)
  pub vectors : NoEmptyVec m.topic_to_conns_
  pub topics : NoEmpty m.conn_to_topics_

pub IsLinked-init : IsLinked init
unfolding init
IsLinked-init = record {
  linked = λ c t.
      ground
        (arith, find-empty {V = Vec} t, find-empty {V = Set Topic} c, find-empty {V = Unit {0}} t);
  vectors = record { inhabited = λ t v e. ground (arith, find-empty {V = Vec} t) };
  topics = record { inhabited = λ c r e. ground (arith, find-empty {V = Set Topic} c) };
}

module _ (m : SubscriptionManager) (h : IsLinked m) where
  listed_once : (c : GlobalConnId) (t : Topic) → listed c t m.topic_to_conns_ ≤ 1
  listed_once c t = ground (arith, h.linked c t)

  pub IsLinked-subscribe : (c : GlobalConnId) (t : Topic) → IsLinked (subscribe_connection c t m).0
  unfolding subscribe_connection
  IsLinked-subscribe c t =
      let old = row (find c m.conn_to_topics_) in
      let new : Set Topic = insert t old in
      let v = vec (find t m.topic_to_conns_) ++ c ∷ [] in
      elim (Bool-cases (contains t old)) [
        | inl e ↦ rw (e) h
        | inr e ↦ rw (e) record {
          linked = λ d s. ground (
            arith,
            e,
            h.linked d s,
            h.linked c t,
            find-put t s v m.topic_to_conns_,
            occurs-append d (vec (find t m.topic_to_conns_)) (c ∷ []),
            lookup-put c m.conn_to_topics_ new d s,
            find-put t s tt old,
          );
          vectors = record {
            inhabited = λ s w e'. ground (
              arith,
              find-put t s v m.topic_to_conns_,
              h.vectors.inhabited s w,
              is_nil-append (vec (find t m.topic_to_conns_)) c,
            );
          };
          topics = NoEmpty-put c m.conn_to_topics_ new (nonempty-put t tt old) h.topics;
        }
      ]

  pub IsLinked-unsubscribe :
      (c : GlobalConnId) (t : Topic) → IsLinked (unsubscribe_connection c t m).0
  unfolding unsubscribe_connection
  IsLinked-unsubscribe c t = elim (Bool-cases (contains t (row (find c m.conn_to_topics_)))) [
    | inl e ↦ rw (e) record {
      linked = λ d s. ground (
        arith,
        e,
        h.linked d s,
        listed-erase_conn_from_topic c t m.topic_to_conns_ d s (listed_once c t),
        lookup-drop c m.conn_to_topics_ t (row (find c m.conn_to_topics_)) d s refl,
      );
      vectors = NoEmptyVec-erase_conn c t m.topic_to_conns_ h.vectors;
      topics = NoEmpty-drop c m.conn_to_topics_ t (row (find c m.conn_to_topics_)) h.topics;
    }
    | inr e ↦ rw (e) h
  ]

  pub IsLinked-remove_connection : (c : GlobalConnId) → IsLinked (remove_all_for_connection c m)
  unfolding remove_all_for_connection
  IsLinked-remove_connection c = elim (Option-cases (find c m.conn_to_topics_)) [
    | inl e ↦ rw (remove_all_for_connection, e) h
    | inr (ts, e) ↦
        rw (remove_all_for_connection, e)
          record {
            linked = λ d s. ground (
              arith,
              e,
              h.linked d s,
              lookup-erase c m.conn_to_topics_ d s,
              elem-keys s ts,
              listed-erase_from_topics c (keys ts) m.topic_to_conns_ d s (listed_once c),
            );
            vectors = NoEmptyVec-erase_from c (keys ts) m.topic_to_conns_ h.vectors;
            topics = NoEmpty-erase c m.conn_to_topics_ h.topics;
          }
  ]

  pub IsLinked-remove_topic : (t : Topic) → IsLinked (remove_all_for_topic t m)
  unfolding remove_all_for_topic
  IsLinked-remove_topic t = elim (Option-cases (find t m.topic_to_conns_)) [
    | inl e ↦ rw (remove_all_for_topic, e) h
    | inr (v, e) ↦
        rw (remove_all_for_topic, e)
          record {
            linked = λ d s. ground (
              arith,
              e,
              h.linked d s,
              find-erase t s m.topic_to_conns_,
              occurs_absent d v,
              lookup-forget_topic_all t v m.conn_to_topics_ d s,
            );
            vectors = record {
              inhabited = λ s w e'.
                  ground (arith, find-erase t s m.topic_to_conns_, h.vectors.inhabited s w);
            };
            topics = NoEmpty-forget_topic_all t v m.conn_to_topics_ h.topics;
          }
  ]
