-- ===== src/Hub/Service/History.antt =====
-- Histories of calls of HubService.cpp.
use kergit_server.Base.{
  String, some, List, [], ◌∷◌, ◌≡◌, All, All-append, arith, Option-cases, inl, inr,
}
use kergit_server.Base.Map.{Map, find, find_entry, IsMap, IsDistinct}
use kergit_server.Ids.{HubId, ChannelId, UserId, hub_id_key}
use kergit_server.Persistence.Transaction.{Outside}
use kergit_server.Persistence.Transaction.Laws.{RepliesArrive}
use kergit_server.Hub.RolePolicy.{Role}
use kergit_server.Hub.Repository.{Database, HubRow, MemberKey, member, member_key}
use kergit_server.Hub.Domain.{set_member_role, make_hub}
use kergit_server.Hub.Repository.Queries as Queries
use kergit_server.Hub.Repository.Queries.{joined_hubs, parse_hub_row}
use kergit_server.Hub.Service.{HubService}
use kergit_server.Hub.Service.Writes.{
  create_hub, create_channel, rename_channel, delete_channel, rename_hub, update_hub_avatar_seed,
  delete_hub, add_member, remove_member,
}
use kergit_server.Hub.Service.Reads.{
  get_hub, get_channel, get_user_hubs, resolve_membership_role, get_hub_topology,
}
use kergit_server.Hub.Service.Batch.{get_hubs_by_ids, get_channels_by_ids, warm_snapshots_for_hubs}
use kergit_server.Hub.Service.Coherent.{InUse, Loads-load, IsCoherent}
use kergit_server.Hub.Service.Keeps.{
  IsCoherent-create_hub, IsCoherent-add_member, IsCoherent-remove_member, IsCoherent-rename_hub,
  IsCoherent-update_hub_avatar_seed,
}
use kergit_server.Hub.Service.ChannelKeeps.{
  IsCoherent-create_channel, IsCoherent-rename_channel, IsCoherent-delete_channel,
}
use kergit_server.Hub.Service.DeleteHub.{IsCoherent-delete_hub}
use kergit_server.Hub.Service.BatchKeeps.{
  IsCurrent, row_of, Fills-get_hubs_by_ids, Fills-get_channels_by_ids,
}
use kergit_server.Hub.Service.WarmKeeps.{Fills-warm_snapshots_for_hubs}
use kergit_server.Hub.Service.Answers.{Reads-get_hub, Reads-get_channel}

current_joined :
    (user_id : UserId) (members : Map MemberKey String) (hubs rest : List (HubId × HubRow))
    → ((id : HubId) (row : HubRow) → find_entry id rest ≡ some row → find_entry id hubs ≡ some row)
    → IsDistinct rest
    → All (λ hub. find_entry hub.id hubs ≡ some (row_of hub)) (joined_hubs user_id members rest)
unfolding find_entry set_member_role parse_hub_row make_hub
current_joined user_id members hubs [] h d = tt
current_joined user_id members hubs ((id, row) ∷ rest) h d =
    let more : All (λ hub. find_entry hub.id hubs ≡ some (row_of hub))
        (joined_hubs user_id members rest) =
      current_joined user_id members hubs rest (λ i r e. h i r (ground (arith, e, d.0))) d.1 in
    elim (Option-cases (find (member id user_id) members)) [
      | inl e ↦ rw (joined_hubs, e) more
      | inr (role, e) ↦ rw (joined_hubs, e) (All-append _ _ _ more (h id row (ground arith), tt))
    ]

-- The hubs that getUserHubs returns are as they stand in the table.
pub IsCurrent-user_hubs :
    (user_id : UserId) (db : Database)
    → IsMap db.hubs
    → All (IsCurrent db) (Queries.get_user_hubs user_id db)
unfolding Queries.get_user_hubs find
IsCurrent-user_hubs user_id db d =
    current_joined user_id db.members db.hubs.entries db.hubs.entries (λ i r e. e) d.distinct

pub data Call : Type 0 where
  ask_hub : HubId → Call
  ask_hubs : List HubId → Call
  ask_channel : ChannelId → Call
  ask_channels : List ChannelId → Call
  ask_topology : HubId → Call
  ask_role : HubId → UserId → Call
  warm_user : UserId → Call
  create_hub_by : Outside → HubId → String → UserId → Call
  create_channel_by : Outside → ChannelId → HubId → String → String → Call
  rename_channel_by : Outside → ChannelId → String → Call
  delete_channel_by : Outside → ChannelId → HubId → Call
  rename_hub_by : Outside → HubId → String → Call
  update_avatar_by : Outside → HubId → String → Call
  delete_hub_by : Outside → HubId → UserId → Call
  add_member_by : Outside → HubId → UserId → Role → Call
  remove_member_by : Outside → HubId → UserId → Call

unfoldable pub step : Call → HubService → HubService
unfolding get_hub get_hubs_by_ids get_channel get_channels_by_ids get_hub_topology
    resolve_membership_role get_user_hubs warm_snapshots_for_hubs create_hub create_channel
    rename_channel delete_channel rename_hub update_hub_avatar_seed delete_hub add_member
    remove_member
step (ask_hub id) s = (get_hub id s).1
step (ask_hubs ids) s = (get_hubs_by_ids ids s).1
step (ask_channel id) s = (get_channel id s).1
step (ask_channels ids) s = (get_channels_by_ids ids s).1
step (ask_topology id) s = (get_hub_topology id s).1
step (ask_role id user_id) s = (resolve_membership_role id user_id s).1
step (warm_user user_id) s = warm_snapshots_for_hubs (get_user_hubs user_id s) s
step (create_hub_by o fresh name owner) s = (create_hub o fresh name owner s).1
step (create_channel_by o fresh hub_id name type) s = (create_channel o fresh hub_id name type s).1
step (rename_channel_by o id name) s = (rename_channel o id name s).1
step (delete_channel_by o id hub_id) s = (delete_channel o id hub_id s).1
step (rename_hub_by o id name) s = (rename_hub o id name s).1
step (update_avatar_by o id seed) s = (update_hub_avatar_seed o id seed s).1
step (delete_hub_by o id owner) s = (delete_hub o id owner s).1
step (add_member_by o id user_id role) s = (add_member o id user_id role s).1
step (remove_member_by o id user_id) s = (remove_member o id user_id s).1

unfoldable pub run : List Call → HubService → HubService
unfolding step
run [] s = s
run (c ∷ cs) s = run cs (step c s)

-- The connection of a write does not break in a commit that was carried out.
abbrev pub Prompt : Call → Type 0
Prompt (create_hub_by o _ _ _) = RepliesArrive o
Prompt (create_channel_by o _ _ _ _) = RepliesArrive o
Prompt (rename_channel_by o _ _) = RepliesArrive o
Prompt (delete_channel_by o _ _) = RepliesArrive o
Prompt (rename_hub_by o _ _) = RepliesArrive o
Prompt (update_avatar_by o _ _) = RepliesArrive o
Prompt (delete_hub_by o _ _) = RepliesArrive o
Prompt (add_member_by o _ _ _) = RepliesArrive o
Prompt (remove_member_by o _ _) = RepliesArrive o
Prompt _ = Unit

module _ ⦃u : InUse⦄ where
  -- The hub ids that a call names are in use.
  abbrev pub Known : Call → Type 0
  Known (ask_hub id) = u.used id
  Known (ask_hubs ids) = All u.used ids
  Known (ask_topology id) = u.used id
  Known (ask_role id _) = u.used id
  Known (create_hub_by _ id _ _) = u.used id
  Known (create_channel_by _ _ id _ _) = u.used id
  Known (delete_channel_by _ _ id) = u.used id
  Known (rename_hub_by _ id _) = u.used id
  Known (update_avatar_by _ id _) = u.used id
  Known (delete_hub_by _ id _) = u.used id
  Known (add_member_by _ id _ _) = u.used id
  Known (remove_member_by _ id _) = u.used id
  Known _ = Unit

  pub IsCoherent-step :
      (c : Call) (s : HubService) → Prompt c → Known c → IsCoherent s → IsCoherent (step c s)
  unfolding step get_hub_topology resolve_membership_role get_user_hubs
  IsCoherent-step (ask_hub id) s p w h = (Reads-get_hub id s w h).coherent
  IsCoherent-step (ask_hubs ids) s p w h = (Fills-get_hubs_by_ids ids s w h).coherent
  IsCoherent-step (ask_channel id) s p w h = (Reads-get_channel id s h).coherent
  IsCoherent-step (ask_channels ids) s p w h = (Fills-get_channels_by_ids ids s h).coherent
  IsCoherent-step (ask_topology id) s p w h = (Loads-load id s w h).coherent
  IsCoherent-step (ask_role id user_id) s p w h = (Loads-load id s w h).coherent
  IsCoherent-step (warm_user user_id) s p w h =
      (Fills-warm_snapshots_for_hubs _ s h
        (IsCurrent-user_hubs user_id s.repo h.valid.hubs)).coherent
  IsCoherent-step (create_hub_by o fresh name owner) s p w h =
      IsCoherent-create_hub o p s h fresh name owner w
  IsCoherent-step (create_channel_by o fresh hub_id name type) s p w h =
      IsCoherent-create_channel o p s h fresh hub_id name type w
  IsCoherent-step (rename_channel_by o id name) s p w h = IsCoherent-rename_channel o p s h id name
  IsCoherent-step (delete_channel_by o id hub_id) s p w h =
      IsCoherent-delete_channel o p s h id hub_id w
  IsCoherent-step (rename_hub_by o id name) s p w h = IsCoherent-rename_hub o p s h id name w
  IsCoherent-step (update_avatar_by o id seed) s p w h =
      IsCoherent-update_hub_avatar_seed o p s h id seed w
  IsCoherent-step (delete_hub_by o id owner) s p w h = IsCoherent-delete_hub o p s h id owner w
  IsCoherent-step (add_member_by o id user_id role) s p w h =
      IsCoherent-add_member o p s h id user_id role w
  IsCoherent-step (remove_member_by o id user_id) s p w h =
      IsCoherent-remove_member o p s h id user_id w
