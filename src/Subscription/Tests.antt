-- ===== src/Subscription/Tests.antt =====
-- Two connections on one topic; the first unsubscribes.
use kergit_server.Base.{◌≡◌, refl, false, some, List, [], ◌∷◌, String, if◌then◌else◌}
use kergit_server.Base.Map.{find, put, erase, empty, is_empty}
use kergit_server.Base.Nested.{drop}
use kergit_server.Ids.{GlobalConnId, GlobalConnId_discrete}
use kergit_server.Subscription.{
  init, vec, subscribe_connection, unsubscribe_connection, get_subscribers, erase_conn_from_topic,
}
use kergit_server.Subscription.Topics.{Topic, hub_topic, Topic_discrete}
use kergit_server.Subscription.Vector.{occurs, swap_remove, overwrite}
use kergit_server.Subscription.Effects.{Call, step, run, after_all, fan_out}

abbrev conn : String → GlobalConnId
conn c = record { netstack_id = record { value = "ns" }; conn_id = record { value = c } }

abbrev lobby : Topic
lobby = hub_topic (record { value = "lobby" })

abbrev calls : List Call
calls =
    Call.subscribe (conn "a") lobby
    ∷ Call.subscribe (conn "b") lobby
    ∷ Call.unsubscribe (conn "a") lobby
    ∷ []

computing : Unit {0}
unfolding run step init subscribe_connection unsubscribe_connection erase_conn_from_topic
    swap_remove overwrite find put erase empty is_empty drop GlobalConnId_discrete get_subscribers
    hub_topic Topic_discrete
computing = tt

left_over : get_subscribers lobby (run calls init) ≡ some (conn "b" ∷ [])
unfolding computing
left_over = refl

fan_out_example :
    occurs (conn "b") (vec (get_subscribers lobby (run calls init)))
    ≡ (if after_all calls (conn "b") lobby false then 1 else 0)
fan_out_example = fan_out calls (conn "b") lobby
