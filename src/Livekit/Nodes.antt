-- ===== src/Livekit/Nodes.antt =====
-- livekit/routing/LivekitNodeRegistry.{h,cpp}: which node serves which voice room.
--
-- Each method is one function, which `mutex_` makes one step. The nodes are values here: the source
-- returns pointers to them, and a reader may see a later count. `load_score` is a double that is a
-- multiple of a quarter; the model counts the quarters.
pub mod Rooms
pub mod History
pub mod Pick
mod Tests
use kergit_server.Base.{
  ℕ, zero, suc, ◌+◌, ◌-◌, ◌*◌, ◌%◌, Bool, true, false, Option, none, some, List, [], ◌∷◌, ◌++◌,
  String, if◌then◌else◌, ltb, dec_eq, ite, is_some, inc64, length, string_key,
}
use kergit_server.Base.Map.{Map, empty, is_nil, find, contains, put, erase}
use kergit_server.Ids.{ChannelId, channel_id_key}

pub record LivekitNode : Type 0 where
  pub node_id : String
  pub public_host : String
  pub private_host : String
  pub active_rooms : ℕ
  pub active_users : ℕ
  pub load_score : ℕ

unfoldable pub update_load : LivekitNode → LivekitNode
update_load n = record n { load_score = 4 * n.active_users + n.active_rooms }

pub record LivekitNodeRegistry : Type 0 where
  pub nodes_ : Map String LivekitNode
  pub node_order_ : List String
  pub room_to_node_ : Map ChannelId String
  pub counted_room_to_node_ : Map ChannelId String
  pub round_robin_cursor_ : ℕ

unfoldable pub init : LivekitNodeRegistry
init = record {
  nodes_ = empty;
  node_order_ = [];
  room_to_node_ = empty;
  counted_room_to_node_ = empty;
  round_robin_cursor_ = 0;
}

-- `none` is the exception.
unfoldable pub register_node : LivekitNode → LivekitNodeRegistry → Option LivekitNodeRegistry
register_node node m =
    if contains node.node_id m.nodes_
    then none
    else some (record m {
      node_order_ = m.node_order_ ++ node.node_id ∷ [];
      nodes_ = put node.node_id node m.nodes_;
    })

unfoldable pub get_node : String → LivekitNodeRegistry → Option LivekitNode
get_node node_id m = find node_id m.nodes_

unfoldable pub get_room_node : ChannelId → LivekitNodeRegistry → Option LivekitNode
get_room_node room m = elim (find room m.room_to_node_) [
  | none ↦ none
  | some node_id ↦ find node_id m.nodes_
]

-- Whether a room's entry names the node.
abbrev pub is_counted : Option String → String → Bool
is_counted none node_id = false
is_counted (some old) node_id = ite (dec_eq old node_id) true false

abbrev pub fewer_rooms : LivekitNode → LivekitNode
fewer_rooms n = record n { active_rooms = n.active_rooms - 1 }

abbrev pub more_rooms : LivekitNode → LivekitNode
more_rooms n = record n { active_rooms = inc64 n.active_rooms }

-- The decrement of a node that may have gone; the guard `active_rooms > 0` is the subtraction's.
unfoldable pub release : String → Map String LivekitNode → Map String LivekitNode
unfolding update_load
release node_id nodes = elim (find node_id nodes) [
  | none ↦ nodes
  | some n ↦ put node_id (update_load (fewer_rooms n)) nodes
]

unfoldable pub acquire : String → Map String LivekitNode → Map String LivekitNode
unfolding update_load
acquire node_id nodes = elim (find node_id nodes) [
  | none ↦ nodes
  | some n ↦ put node_id (update_load (more_rooms n)) nodes
]

-- The release of the node that a room was counted on, if it is another one.
unfoldable pub release_previous :
    Option String → String → Map String LivekitNode → Map String LivekitNode
unfolding release
release_previous none node_id nodes = nodes
release_previous (some old) node_id nodes = ite (dec_eq old node_id) nodes (release old nodes)

unfoldable pub increment_room : ChannelId → String → LivekitNodeRegistry → LivekitNodeRegistry
unfolding release_previous acquire
increment_room room node_id m =
    let counted = find room m.counted_room_to_node_ in
    if contains node_id m.nodes_
    then if is_counted counted node_id then m else record m {
      nodes_ = acquire node_id (release_previous counted node_id m.nodes_);
      room_to_node_ = put room node_id m.room_to_node_;
      counted_room_to_node_ = put room node_id m.counted_room_to_node_;
    }
    else m

unfoldable pub decrement_room : ChannelId → LivekitNodeRegistry → LivekitNodeRegistry
unfolding release
decrement_room room m = elim (find room m.counted_room_to_node_) [
  | none ↦ m
  | some node_id ↦ record m {
    nodes_ = release node_id m.nodes_;
    counted_room_to_node_ = erase room m.counted_room_to_node_;
  }
]

unfoldable pub clear_room : ChannelId → LivekitNodeRegistry → LivekitNodeRegistry
unfolding decrement_room
clear_room room m = record (decrement_room room m) { room_to_node_ = erase room m.room_to_node_ }

-- A room that is counted elsewhere moves to the node.
unfoldable pub move_count : ChannelId → String → LivekitNodeRegistry → LivekitNodeRegistry
unfolding release acquire
move_count room node_id m = elim (find room m.counted_room_to_node_) [
  | none ↦ m
  | some old ↦ if is_counted (some old) node_id then m else record m {
    nodes_ = acquire node_id (release old m.nodes_);
    counted_room_to_node_ = put room node_id m.counted_room_to_node_;
  }
]

unfoldable pub bind_room : ChannelId → String → LivekitNodeRegistry → LivekitNodeRegistry
unfolding move_count
bind_room room node_id m =
    if contains node_id m.nodes_
    then if is_counted (find room m.room_to_node_) node_id
      then m
      else record (move_count room node_id m) { room_to_node_ = put room node_id m.room_to_node_ }
    else m

unfoldable pub change_users : (ℕ → ℕ) → String → LivekitNodeRegistry → LivekitNodeRegistry
unfolding update_load
change_users f node_id m = elim (find node_id m.nodes_) [
  | none ↦ m
  | some n ↦ record m {
    nodes_ = put node_id (update_load (record n { active_users = f n.active_users })) m.nodes_;
  }
]

unfoldable pub increment_user : String → LivekitNodeRegistry → LivekitNodeRegistry
unfolding change_users
increment_user node_id m = change_users (λ u. inc64 u) node_id m

unfoldable pub decrement_user : String → LivekitNodeRegistry → LivekitNodeRegistry
unfolding change_users
decrement_user node_id m = change_users (λ u. u - 1) node_id m

abbrev pub better : Option LivekitNode → LivekitNode → Option LivekitNode
better none n = some n
better (some best) n = if ltb n.load_score best.load_score then some n else some best

-- The loop of `pick_node` with the best node so far.
unfoldable pub pick_from :
    List String → Map String LivekitNode → Option LivekitNode → Option LivekitNode
pick_from [] nodes best = best
pick_from (id ∷ ids) nodes best = elim (find id nodes) [
  | none ↦ pick_from ids nodes best
  | some n ↦ pick_from ids nodes (better best n)
]

unfoldable pub pick_node : LivekitNodeRegistry → Option LivekitNode
unfolding pick_from
pick_node m = pick_from m.node_order_ m.nodes_ none

-- `node_order_[i]`
unfoldable pub nth : ℕ → List String → Option String
nth i [] = none
nth zero (x ∷ xs) = some x
nth (suc i) (x ∷ xs) = nth i xs

abbrev pub node_at : Option String → Map String LivekitNode → Option LivekitNode
node_at none nodes = none
node_at (some id) nodes = find id nodes

-- The loop of `any_node` with the attempts that are left: the node and the cursor.
unfoldable pub any_from : ℕ → List String → Map String LivekitNode → ℕ → Option LivekitNode × ℕ
unfolding nth
any_from zero order nodes cursor = (none, cursor)
any_from (suc n) order nodes cursor = elim (node_at (nth (cursor % length order) order) nodes) [
  | some x ↦ (some x, inc64 cursor)
  | none ↦ any_from n order nodes (inc64 cursor)
]

unfoldable pub any_node : LivekitNodeRegistry → LivekitNodeRegistry × Option LivekitNode
unfolding any_from
any_node m =
    let found = any_from (length m.node_order_) m.node_order_ m.nodes_ m.round_robin_cursor_ in
    (record m { round_robin_cursor_ = found.1 }, found.0)

unfoldable pub list_from : List String → Map String LivekitNode → List LivekitNode
list_from [] nodes = []
list_from (id ∷ ids) nodes = elim (find id nodes) [
  | none ↦ list_from ids nodes
  | some n ↦ n ∷ list_from ids nodes
]

unfoldable pub list_nodes : LivekitNodeRegistry → List LivekitNode
unfolding list_from
list_nodes m = list_from m.node_order_ m.nodes_
