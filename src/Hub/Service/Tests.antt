-- ===== src/Hub/Service/Tests.antt =====
-- Tests of app/services/hub/HubService.cpp and HubRepository.cpp.
use kergit_server.Base.{
  ℕ, ℕ_discrete, ◌∙◌, sym, String_discrete, true, none, some, List, [], ◌∷◌, ◌≡◌, refl, All,
}
use kergit_server.Base.Map.{find, empty, put, erase}
use kergit_server.Ids.{
  HubId, ChannelId, UserId, HubId_discrete, UserId_discrete, ChannelId_discrete, hub_id_key,
  user_id_key,
}
use kergit_server.Persistence.Transaction.{Outside, done, in_doubt, failed}
use kergit_server.Persistence.Transaction.Laws.{RepliesArrive}
use kergit_server.Hub.RolePolicy.{user, admin, owner}
use kergit_server.Hub.Repository.{MemberKey_discrete}
use kergit_server.Hub.Repository.Sound.{
  create_hub_of, add_member_of, create_channel_of, execute, IsSound, no_rows,
}
use kergit_server.Hub.Repository.Sound.Keeps.{IsSound-execute}
use kergit_server.Hub.Repository.Queries as Queries
use kergit_server.Hub.Service.{HubService, init, finish_build}
use kergit_server.Hub.Service.Cache.{HubSnapshot, AnyKey_discrete}
use kergit_server.Hub.Service.Reads.{resolve_membership_role}
use kergit_server.Hub.Service.Writes.{add_member, remove_member}
use kergit_server.Hub.Service.Coherent.{InUse, IsApart, snapshot_of}
use kergit_server.Hub.Service.History.{
  Call, run, Prompt, Known, create_hub_by, create_channel_by, add_member_by, ask_role,
  rename_channel_by,
}
use kergit_server.Hub.Service.Membership.{
  removed_has_no_role, added_role_round_trip, lost_reply_keeps_role, raced_build_keeps_role,
}

abbrev steady : Outside
steady = record { lease = true; attempt = λ n. done; reconnect = λ n. true }

abbrev cut_off : Outside
cut_off = record { lease = true; attempt = λ n. in_doubt true; reconnect = λ n. true }

steady-RepliesArrive : RepliesArrive steady
steady-RepliesArrive n = refl

abbrev garden : HubId
garden = record { value = "garden" }

abbrev ann : UserId
ann = record { value = "ann" }

abbrev bob : UserId
bob = record { value = "bob" }

-- A hash under which all ids collide, and the one id in use.
abbrev one_hash : HubId → ℕ
one_hash id = 6

instance abbrev garden_only : InUse
garden_only = record { used = λ id. id ≡ garden }

garden_only-IsApart : IsApart one_hash
garden_only-IsApart i j p q e = p ∙ sym q

abbrev lobby : ChannelId
lobby = record { value = "lobby" }

-- Ann makes a hub, Bob joins it, his role is asked and cached, and a channel is made and renamed.
abbrev calls : List Call
calls =
    create_hub_by steady garden "Garden" ann
    ∷ add_member_by steady garden bob user
    ∷ ask_role garden bob
    ∷ create_channel_by steady lobby garden "Lobby" "voice"
    ∷ rename_channel_by steady lobby "Porch"
    ∷ []

-- What buildSnapshot makes of the hub.
abbrev garden_snapshot : HubSnapshot
garden_snapshot = record {
  hub_id = garden;
  owner_id = ann;
  name = "Garden";
  avatar_seed = "Felix";
  channel_ids = lobby ∷ [];
  member_roles = put bob user (put ann owner empty);
}

calls-Prompt : All Prompt calls
calls-Prompt = (
  steady-RepliesArrive,
  (steady-RepliesArrive, (tt, (steady-RepliesArrive, (steady-RepliesArrive, tt)))),
)

calls-Known : All Known calls
calls-Known = (refl, (refl, (refl, (refl, (tt, tt)))))

abbrev served : HubService
served = run calls (init one_hash no_rows)

bob_is_user : (resolve_membership_role garden bob served).0 ≡ some user
unfolding run init no_rows resolve_membership_role find empty put erase String_discrete
    HubId_discrete AnyKey_discrete ℕ_discrete UserId_discrete ChannelId_discrete MemberKey_discrete
bob_is_user = refl

removed_has_no_role_example :
    (resolve_membership_role garden bob (remove_member steady garden bob served).1).0 ≡ none
unfolding run init no_rows remove_member find empty put erase String_discrete HubId_discrete
    UserId_discrete ChannelId_discrete MemberKey_discrete
removed_has_no_role_example =
    removed_has_no_role one_hash calls steady garden bob garden_only-IsApart calls-Prompt
      calls-Known refl steady-RepliesArrive refl

added_role_round_trip_example :
    (resolve_membership_role garden bob (add_member steady garden bob admin served).1).0
    ≡ some admin
unfolding run init no_rows add_member find empty put erase String_discrete HubId_discrete
    UserId_discrete ChannelId_discrete MemberKey_discrete AnyKey_discrete
added_role_round_trip_example =
    added_role_round_trip one_hash calls steady garden bob admin garden_only-IsApart calls-Prompt
      calls-Known refl steady-RepliesArrive refl

-- Bob's role is cached; then the reply to his removal is lost.
lost_reply_keeps_role_example :
    ((remove_member cut_off garden bob served).0 ≡ failed)
    × ((resolve_membership_role garden bob (remove_member cut_off garden bob served).1).0
        ≡ some user)
    × (Queries.get_membership_role garden bob (remove_member cut_off garden bob served).1.repo
        ≡ none)
unfolding run init no_rows find empty put erase String_discrete HubId_discrete AnyKey_discrete
    ℕ_discrete UserId_discrete ChannelId_discrete MemberKey_discrete
lost_reply_keeps_role_example =
    lost_reply_keeps_role cut_off garden bob user garden_snapshot served refl refl refl refl

raced_build_keeps_role_example :
    ((resolve_membership_role garden bob
        (finish_build garden_snapshot (remove_member steady garden bob served).1)).0
      ≡ some user)
    × (Queries.get_membership_role garden bob
          (finish_build garden_snapshot (remove_member steady garden bob served).1).repo
        ≡ none)
unfolding run init no_rows snapshot_of remove_member find empty put erase String_discrete
    HubId_discrete AnyKey_discrete ℕ_discrete UserId_discrete ChannelId_discrete MemberKey_discrete
raced_build_keeps_role_example =
    raced_build_keeps_role served steady garden bob user garden_snapshot steady-RepliesArrive refl
      refl refl

IsSound-execute_example : IsSound (
    execute
      (create_hub_of garden "Garden" ann
        ∷ add_member_of garden bob "admin"
        ∷ create_channel_of lobby garden "Lobby" "voice"
        ∷ [])
      no_rows)
IsSound-execute_example = IsSound-execute (
    create_hub_of garden "Garden" ann
    ∷ add_member_of garden bob "admin"
    ∷ create_channel_of lobby garden "Lobby" "voice"
    ∷ [])
