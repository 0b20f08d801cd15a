-- ===== src/Livekit/Nodes/Tests.antt =====
-- Two nodes; a room moves from one to the other.
use kergit_server.Base.{◌≡◌, refl, List, [], ◌∷◌, arith, String_discrete, string_key}
use kergit_server.Base.Map.{find, put, erase, empty, elem}
use kergit_server.Base.Map.Tally.{tally}
use kergit_server.Ids.{ChannelId, ChannelId_discrete}
use kergit_server.Livekit.Nodes.{
  LivekitNode, init, update_load, register_node, release, acquire, release_previous, increment_room,
  bind_room, move_count, pick_from, pick_node,
}
use kergit_server.Livekit.Nodes.Rooms.{rooms_at}
use kergit_server.Livekit.Nodes.History.{Call, step, run, room_counts}
use kergit_server.Livekit.Nodes.Pick.{AtMost, pick_node-least}

abbrev lobby : ChannelId
lobby = record { value = "lobby" }

abbrev calls : List Call
calls =
    Call.registers "a" "a.example" "10.0.0.1"
    ∷ Call.registers "b" "b.example" "10.0.0.2"
    ∷ Call.increments lobby "a"
    ∷ Call.binds lobby "b"
    ∷ []

computing : Unit {0}
unfolding run step init register_node increment_room bind_room move_count release acquire
    release_previous update_load find put erase empty elem String_discrete ChannelId_discrete tally
    pick_node pick_from
computing = tt

moved : rooms_at "b" (run calls init).nodes_ ≡ 1
unfolding computing
moved = refl

room_counts_example :
    rooms_at "b" (run calls init).nodes_ ≡ tally "b" (run calls init).counted_room_to_node_
room_counts_example = room_counts calls "b" (omega arith)

abbrev node_b : LivekitNode
node_b = record {
  node_id = "b";
  public_host = "b.example";
  private_host = "10.0.0.2";
  active_rooms = 1;
  active_users = 0;
  load_score = 1;
}

pick_node-least_example : AtMost (pick_node (run calls init)) node_b
unfolding computing
pick_node-least_example = pick_node-least (run calls init) "b" node_b refl refl
