-- ===== src/Voice/Evidence/Tests.antt =====
-- A room that goes missing for 10 seconds, with a time to live of 10.
use kergit_server.Base.{◌≡◌, true, false, none, List, [], ◌∷◌, arith}
use kergit_server.Base.Map.{find, find-empty}
use kergit_server.Ids.{ChannelId, UserId, channel_id_key}
use kergit_server.Voice.Evidence.{init}
use kergit_server.Voice.Evidence.Confirm.{
  Call, view, run, run_view, view-run, confirmations, confirmed_after_ttl,
}

abbrev room : ChannelId
room = record { value = "room" }

abbrev carol : UserId
carol = record { value = "carol" }

abbrev calls : List Call
calls =
    Call.sees_user_missing room carol "absent" 3
    ∷ Call.sees_channel_missing room "gone" 5
    ∷ Call.sees_channel_missing room "gone" 15
    ∷ []

view-run_example :
    view room carol (run calls (init 10)) ≡ run_view 10 room carol calls (view room carol (init 10))
unfolding init
view-run_example = view-run calls room carol (init 10)

fresh : find room (init 10).missing_channels ≡ none
unfolding init
fresh = find-empty room

confirmed_after_ttl_example :
    confirmations room "gone" (5 ∷ 9 ∷ 14 ∷ 15 ∷ []) (init 10) ≡ false ∷ false ∷ false ∷ true ∷ []
unfolding init
confirmed_after_ttl_example =
    confirmed_after_ttl room "gone" 5 (9 ∷ 14 ∷ []) 15 (init 10) fresh (omega arith) (omega arith)
