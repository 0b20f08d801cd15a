-- ===== src/Livekit/Nodes/History.antt =====
-- Whole histories of the room and user events of the nodes.
use kergit_server.Base.{
  ℕ, suc, ◌+◌, ◌-◌, ◌^◌, ◌<◌, ◌≡◌, refl, subst, List, [], ◌∷◌, String, inc64, length, string_key,
  arith,
}
use kergit_server.Base.Map.{find-empty, IsMap-empty}
use kergit_server.Base.Map.Tally.{tally, tally-empty}
use kergit_server.Ids.{ChannelId, channel_id_key}
use kergit_server.Livekit.Nodes.{
  LivekitNode, LivekitNodeRegistry, init, increment_room, decrement_room, clear_room, bind_room,
  increment_user, decrement_user, any_node,
}
use kergit_server.Livekit.Nodes.Rooms.{
  rooms_at, registered, new_node, IsCountedBy, IsCountedBy-increment, IsCountedBy-decrement,
  IsCountedBy-clear, IsCountedBy-bind, IsCountedBy-users, IsCountedBy-register,
}

-- The calls that change the registry. A node is registered with its names, without rooms or users.
pub data Call : Type 0 where
  registers : String → String → String → Call
  binds increments : ChannelId → String → Call
  clears decrements : ChannelId → Call
  user_joins user_leaves : String → Call
  any : Call

unfoldable pub step : Call → LivekitNodeRegistry → LivekitNodeRegistry
step (Call.registers id public_host private_host) m =
    registered (new_node id public_host private_host) m
step (Call.binds r n) m = bind_room r n m
step (Call.increments r n) m = increment_room r n m
step (Call.clears r) m = clear_room r m
step (Call.decrements r) m = decrement_room r m
step (Call.user_joins n) m = increment_user n m
step (Call.user_leaves n) m = decrement_user n m
step Call.any m = (any_node m).0

unfoldable pub run : List Call → LivekitNodeRegistry → LivekitNodeRegistry
unfolding step
run [] m = m
run (c ∷ cs) m = run cs (step c m)

IsCountedBy-step :
    (k : ℕ) (c : Call) (m : LivekitNodeRegistry)
    → suc k < 2 ^ 64
    → IsCountedBy k m
    → IsCountedBy (suc k) (step c m)
unfolding step increment_user decrement_user any_node
IsCountedBy-step k (Call.registers id public_host private_host) m small h =
    IsCountedBy-register k small m h (new_node id public_host private_host) refl
IsCountedBy-step k (Call.binds r n) m small h = IsCountedBy-bind k small m h r n
IsCountedBy-step k (Call.increments r n) m small h = IsCountedBy-increment k small m h r n
IsCountedBy-step k (Call.clears r) m small h = IsCountedBy-clear k small m h r
IsCountedBy-step k (Call.decrements r) m small h = IsCountedBy-decrement k small m h r
IsCountedBy-step k (Call.user_joins n) m small h = IsCountedBy-users k small m h (λ u. inc64 u) n
IsCountedBy-step k (Call.user_leaves n) m small h = IsCountedBy-users k small m h (λ u. u - 1) n
IsCountedBy-step k Call.any m small h = record {
  rooms = h.rooms;
  few = λ j. ground (arith, h.few j);
  map = h.map;
}

IsCountedBy-run_from :
    (k : ℕ) (cs : List Call) (m : LivekitNodeRegistry)
    → k + length cs < 2 ^ 64
    → IsCountedBy k m
    → IsCountedBy (k + length cs) (run cs m)
unfolding run
IsCountedBy-run_from k [] m small h = record {
  rooms = h.rooms;
  few = λ j. ground (arith, h.few j);
  map = h.map;
}
IsCountedBy-run_from k (c ∷ cs) m small h =
    subst (λ n. IsCountedBy n (run cs (step c m))) (omega arith)
      (IsCountedBy-run_from (suc k) cs (step c m) (ground (arith, small))
        (IsCountedBy-step k c m (ground (arith, small)) h))

-- After any history of fewer than 2^64 calls on an empty registry, the room counter of every node
-- is the number of rooms that are counted on it: no room is counted twice, and none is forgotten
-- when it moves to another node, is cleared or is decremented more than once.
pub room_counts :
    (cs : List Call) (j : String)
    → length cs < 2 ^ 64
    → rooms_at j (run cs init).nodes_ ≡ tally j (run cs init).counted_room_to_node_
unfolding init
room_counts cs j small =
    (IsCountedBy-run_from 0 cs init (ground (arith, small)) (record {
      rooms = λ i. ground (arith, find-empty {V = LivekitNode} i, tally-empty ChannelId i);
      few = λ i. ground (arith, tally-empty ChannelId i);
      map = IsMap-empty;
    })).rooms
      j
