-- ===== src/Hub/Service/Reads.antt =====
-- HubService.cpp: the reads that go through a cache.
use text.Mathlib.Text.{is_lt}
use Prim.Native.String.{compare}
use kergit_server.Base.{Bool, Option, none, some, List, [], ◌∷◌, is_some, if◌then◌else◌}
use kergit_server.Base.Map.{Map, find}
use kergit_server.Ids.{HubId, ChannelId, UserId, user_id_key, channel_id_key}
use kergit_server.Hub.RolePolicy.{Role}
use kergit_server.Hub.Domain.{Hub, Channel}
use kergit_server.Hub.Repository.Queries.{
  MemberRole, get_hub as repo_hub, get_channel as repo_channel, get_user_hubs as repo_user_hubs,
}
use kergit_server.Hub.Service.{HubService, cached, to_hub, load_snapshot}
use kergit_server.Hub.Service.Cache.{HubSnapshot, put_channel, get_channel as cached_channel}
use kergit_server.Hub.Service.Batch.{get_channels_by_ids}

-- A cached snapshot's hub, or what the repository has.
abbrev pub hub_from : Option HubSnapshot → HubId → HubService → Option Hub
hub_from (some snapshot) hub_id s = some (to_hub snapshot)
hub_from none hub_id s = repo_hub hub_id s.repo

unfoldable pub get_hub : HubId → HubService → Option Hub × HubService
unfolding cached to_hub repo_hub
get_hub hub_id s = let found = cached hub_id s in (hub_from found.0 hub_id found.1, found.1)

unfoldable pub get_channel : ChannelId → HubService → Option Channel × HubService
unfolding cached_channel repo_channel put_channel
get_channel channel_id s = elim (cached_channel channel_id s.channel_cache) [
  | some channel ↦ (some channel, s)
  | none ↦ elim (repo_channel channel_id s.repo) [
    | some channel ↦
        (some channel, record s { channel_cache = put_channel channel s.channel_cache })
    | none ↦ (none, s)
  ]
]

unfoldable pub get_user_hubs : UserId → HubService → List Hub
unfolding repo_user_hubs
get_user_hubs user_id s = repo_user_hubs user_id s.repo

abbrev pub role_in : UserId → Option HubSnapshot → Option Role
role_in user_id none = none
role_in user_id (some snapshot) = find user_id snapshot.member_roles

unfoldable pub resolve_membership_role : HubId → UserId → HubService → Option Role × HubService
unfolding load_snapshot
resolve_membership_role hub_id user_id s =
    let loaded = load_snapshot hub_id s in (role_in user_id loaded.0, loaded.1)

unfoldable pub get_membership_role : HubId → UserId → HubService → Option Role × HubService
unfolding resolve_membership_role
get_membership_role = resolve_membership_role

unfoldable pub is_hub_member : HubId → UserId → HubService → Bool × HubService
unfolding resolve_membership_role
is_hub_member hub_id user_id s =
    let resolved = resolve_membership_role hub_id user_id s in (is_some resolved.0, resolved.1)

pub record HubTopology : Type 0 where
  pub members : List MemberRole
  pub channel_ids : List ChannelId

-- `std::sort` by the text of the user id; no two members have the same.
abbrev insert_member : MemberRole → List MemberRole → List MemberRole
insert_member m [] = m ∷ []
insert_member m (n ∷ ns) =
    let rest = insert_member m ns in
    if is_lt (compare m.user_id.value n.user_id.value) then m ∷ n ∷ ns else n ∷ rest

unfoldable pub sort_members : List (UserId × Role) → List MemberRole
sort_members [] = []
sort_members ((user_id, role) ∷ rest) =
    insert_member (record { user_id = user_id; role = role }) (sort_members rest)

abbrev pub topology_of : Option HubSnapshot → HubTopology
topology_of none = record { members = []; channel_ids = [] }
topology_of (some snapshot) = record {
  members = sort_members snapshot.member_roles.entries;
  channel_ids = snapshot.channel_ids;
}

unfoldable pub get_hub_topology : HubId → HubService → HubTopology × HubService
unfolding load_snapshot sort_members
get_hub_topology hub_id s = let loaded = load_snapshot hub_id s in (topology_of loaded.0, loaded.1)

unfoldable pub get_hub_members_with_roles : HubId → HubService → List MemberRole × HubService
unfolding get_hub_topology
get_hub_members_with_roles hub_id s =
    let topology = get_hub_topology hub_id s in (topology.0.members, topology.1)

unfoldable pub get_hub_channel_ids : HubId → HubService → List ChannelId × HubService
unfolding get_hub_topology
get_hub_channel_ids hub_id s =
    let topology = get_hub_topology hub_id s in (topology.0.channel_ids, topology.1)

-- The second loop of getHubChannels.
unfoldable pub collect_channels : List ChannelId → Map ChannelId Channel → List Channel
collect_channels [] by_id = []
collect_channels (id ∷ ids) by_id = elim (find id by_id) [
  | none ↦ collect_channels ids by_id
  | some channel ↦ channel ∷ collect_channels ids by_id
]

unfoldable pub get_hub_channels : HubId → HubService → List Channel × HubService
unfolding get_hub_channel_ids get_channels_by_ids collect_channels
get_hub_channels hub_id s =
    let ids = get_hub_channel_ids hub_id s in
    let by_id = get_channels_by_ids ids.0 ids.1 in (collect_channels ids.0 by_id.0, by_id.1)
