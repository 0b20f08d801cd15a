-- ===== src/Livekit/Nodes/Rooms.antt =====
-- The room counters of the nodes, over whole histories of room events.
use kergit_server.Base.{
  ℕ, suc, ◌-◌, ◌^◌, ◌≤◌, ◌<◌, ◌≡◌, refl, subst, ◌∙◌, true, false, Option, none, some, String,
  dec_eq, ite, inc64, string_key, arith, Bool-cases, Option-cases, inl, inr,
}
use kergit_server.Base.Map.{Map, find, contains, put, find-put, IsMap, IsMap-put, IsMap-erase}
use kergit_server.Base.Map.Tally.{tally, tally-put, tally-erase}
use kergit_server.Ids.{ChannelId, channel_id_key}
use kergit_server.Livekit.Nodes.{
  LivekitNode, LivekitNodeRegistry, update_load, register_node, release, acquire, is_counted,
  release_previous, increment_room, decrement_room, clear_room, move_count, bind_room, change_users,
  fewer_rooms, more_rooms,
}

abbrev pub rooms_of : Option LivekitNode → ℕ
rooms_of none = 0
rooms_of (some n) = n.active_rooms

abbrev pub rooms_at : String → Map String LivekitNode → ℕ
rooms_at j nodes = rooms_of (find j nodes)

rooms-release :
    (n j : String) (nodes : Map String LivekitNode)
    → rooms_at j (release n nodes) ≡ ite (dec_eq n j) (rooms_at j nodes - 1) (rooms_at j nodes)
unfolding release update_load
rooms-release n j nodes = elim (Option-cases (find n nodes)) [
  | inl e ↦ ground (arith, e)
  | inr (x, e) ↦ ground (arith, e, find-put n j (update_load (fewer_rooms x)) nodes)
]

rooms-acquire :
    (n j : String) (nodes : Map String LivekitNode)
    → contains n nodes ≡ true
    → rooms_at j (acquire n nodes) ≡ ite (dec_eq n j) (inc64 (rooms_at j nodes)) (rooms_at j nodes)
unfolding acquire update_load
rooms-acquire n j nodes h = elim (Option-cases (find n nodes)) [
  | inl e ↦ absurd (ground (arith, e, h))
  | inr (x, e) ↦ ground (arith, e, find-put n j (update_load (more_rooms x)) nodes)
]

contains-release :
    (n j : String) (nodes : Map String LivekitNode)
    → contains j (release n nodes) ≡ contains j nodes
unfolding release update_load
contains-release n j nodes = elim (Option-cases (find n nodes)) [
  | inl e ↦ ground (arith, e)
  | inr (x, e) ↦ ground (arith, e, find-put n j (update_load (fewer_rooms x)) nodes)
]

-- The registry after `register_node`, whose exception leaves it as it is.
abbrev pub registered : LivekitNode → LivekitNodeRegistry → LivekitNodeRegistry
registered x m = elim (register_node x m) [ none ↦ m | some m' ↦ m' ]

abbrev pub new_node : String → String → String → LivekitNode
new_node id public_host private_host = record {
  node_id = id;
  public_host = public_host;
  private_host = private_host;
  active_rooms = 0;
  active_users = 0;
  load_score = 0;
}

-- Every node counts the rooms that are counted on it, at most `k`.
pub record IsCountedBy (k : ℕ) (m : LivekitNodeRegistry) : Type 0 where
  pub rooms : (j : String) → rooms_at j m.nodes_ ≡ tally j m.counted_room_to_node_
  pub few : (j : String) → tally j m.counted_room_to_node_ ≤ k
  pub map : IsMap m.counted_room_to_node_

IsCountedBy-weaken : (k : ℕ) (m : LivekitNodeRegistry) → IsCountedBy k m → IsCountedBy (suc k) m
IsCountedBy-weaken k m h = record {
  rooms = h.rooms;
  few = λ j. ground (arith, h.few j);
  map = h.map;
}

module _ (k : ℕ) (small : suc k < 2 ^ 64) (m : LivekitNodeRegistry) (h : IsCountedBy k m) where
  -- The room moves to the node, from whichever node it was counted on.
  count_on :
      (r : ChannelId) (n : String) (o : Option String)
      → find r m.counted_room_to_node_ ≡ o
      → is_counted o n ≡ false
      → contains n m.nodes_ ≡ true
      → (j : String)
      → (rooms_at j (acquire n (release_previous o n m.nodes_))
          ≡ tally j (put r n m.counted_room_to_node_))
        × (tally j (put r n m.counted_room_to_node_) ≤ suc k)
  unfolding release_previous
  count_on r n none e other known j = ground (
    arith,
    e,
    small,
    h.few j,
    h.rooms j,
    rooms-acquire n j m.nodes_ known,
    tally-put r n j m.counted_room_to_node_,
  )
  count_on r n (some old) e other known j = ground (
    arith,
    e,
    small,
    other,
    h.few j,
    h.rooms j,
    rooms-release old j m.nodes_,
    rooms-acquire n j (release old m.nodes_) (contains-release old n m.nodes_ ∙ known),
    tally-put r n j m.counted_room_to_node_,
  )

  pub IsCountedBy-increment :
      (r : ChannelId) (n : String) → IsCountedBy (suc k) (increment_room r n m)
  unfolding increment_room
  IsCountedBy-increment r n = elim (Bool-cases (contains n m.nodes_)) [
    | inr a ↦ rw (a) (IsCountedBy-weaken k m h)
    | inl a ↦ elim (Bool-cases (is_counted (find r m.counted_room_to_node_) n)) [
      | inl b ↦ rw (a, b) (IsCountedBy-weaken k m h)
      | inr b ↦
          rw (a, b)
            record {
              rooms = λ j. (count_on r n (find r m.counted_room_to_node_) refl b a j).0;
              few = λ j. (count_on r n (find r m.counted_room_to_node_) refl b a j).1;
              map = IsMap-put r n m.counted_room_to_node_ h.map;
            }
    ]
  ]

  release-other :
      (old n : String)
      → is_counted (some old) n ≡ false
      → release_previous (some old) n m.nodes_ ≡ release old m.nodes_
  unfolding release_previous
  release-other old n b = ground (arith, b)

  pub IsCountedBy-move :
      (r : ChannelId) (n : String)
      → contains n m.nodes_ ≡ true
      → IsCountedBy (suc k) (move_count r n m)
  unfolding move_count release_previous
  IsCountedBy-move r n known = elim (Option-cases (find r m.counted_room_to_node_)) [
    | inl e ↦ rw (move_count, e) (IsCountedBy-weaken k m h)
    | inr (old, e) ↦ elim (Bool-cases (is_counted (some old) n)) [
      | inl b ↦ rw (move_count, e, b) (IsCountedBy-weaken k m h)
      | inr b ↦
          rw (move_count, e, b)
            record {
              rooms = λ j.
                  subst (λ t. rooms_at j (acquire n t) ≡ tally j (put r n m.counted_room_to_node_))
                    (release-other old n b) (count_on r n (some old) e b known j).0;
              few = λ j. (count_on r n (some old) e b known j).1;
              map = IsMap-put r n m.counted_room_to_node_ h.map;
            }
    ]
  ]

  pub IsCountedBy-decrement : (r : ChannelId) → IsCountedBy (suc k) (decrement_room r m)
  unfolding decrement_room
  IsCountedBy-decrement r = elim (Option-cases (find r m.counted_room_to_node_)) [
    | inl e ↦ rw (decrement_room, e) (IsCountedBy-weaken k m h)
    | inr (n, e) ↦
        rw (decrement_room, e)
          record {
            rooms = λ j. ground (
              arith,
              e,
              h.rooms j,
              rooms-release n j m.nodes_,
              tally-erase r j m.counted_room_to_node_ h.map,
            );
            few = λ j. ground (arith, h.few j, tally-erase r j m.counted_room_to_node_ h.map);
            map = IsMap-erase r m.counted_room_to_node_ h.map;
          }
  ]

  pub IsCountedBy-clear : (r : ChannelId) → IsCountedBy (suc k) (clear_room r m)
  unfolding clear_room
  IsCountedBy-clear r =
      let c = IsCountedBy-decrement r in record { rooms = c.rooms; few = c.few; map = c.map }

  pub IsCountedBy-bind : (r : ChannelId) (n : String) → IsCountedBy (suc k) (bind_room r n m)
  unfolding bind_room
  IsCountedBy-bind r n = elim (Bool-cases (contains n m.nodes_)) [
    | inr a ↦ rw (a) (IsCountedBy-weaken k m h)
    | inl a ↦ elim (Bool-cases (is_counted (find r m.room_to_node_) n)) [
      | inl b ↦ rw (a, b) (IsCountedBy-weaken k m h)
      | inr b ↦
          let c = IsCountedBy-move r n a in
          rw (a, b) record { rooms = c.rooms; few = c.few; map = c.map }
    ]
  ]

  pub IsCountedBy-users : (f : ℕ → ℕ) (n : String) → IsCountedBy (suc k) (change_users f n m)
  unfolding change_users update_load
  IsCountedBy-users f n = elim (Option-cases (find n m.nodes_)) [
    | inl e ↦ rw (change_users, e) (IsCountedBy-weaken k m h)
    | inr (x, e) ↦
        rw (change_users, e)
          record {
            rooms = λ j. ground (
              arith,
              e,
              h.rooms j,
              find-put n j (update_load (record x { active_users = f x.active_users })) m.nodes_,
            );
            few = λ j. ground (arith, h.few j);
            map = h.map;
          }
  ]

  -- A node enters without rooms.
  pub IsCountedBy-register :
      (x : LivekitNode) → x.active_rooms ≡ 0 → IsCountedBy (suc k) (registered x m)
  unfolding register_node
  IsCountedBy-register x empty_node = elim (Bool-cases (contains x.node_id m.nodes_)) [
    | inl e ↦ rw (registered, register_node, e) (IsCountedBy-weaken k m h)
    | inr e ↦
        rw (registered, register_node, e)
          record {
            rooms = λ j. ground (
              arith,
              e,
              empty_node,
              h.rooms j,
              h.rooms x.node_id,
              find-put x.node_id j x m.nodes_,
            );
            few = λ j. ground (arith, h.few j);
            map = h.map;
          }
  ]
