-- ===== src/Hub/Service/Batch.antt =====
-- HubService.cpp: getHubsByIds, getChannelsByIds and warmSnapshotsForHubs.
use kergit_server.Base.{
  Bool, false, not, ◌||◌, none, some, List, [], ◌∷◌, ◌++◌, map, is_some, if◌then◌else◌, string_key,
}
use kergit_server.Base.Map.{Map, Set, put, insert, contains, empty, is_nil, find}
use kergit_server.Base.Map.Table.{listed, same}
use kergit_server.Ids.{HubId, ChannelId, hub_id_key, channel_id_key, user_id_key}
use kergit_server.Hub.Domain.{Hub, Channel}
use kergit_server.Hub.Repository.Queries.{
  MemberRole, get_hubs_by_ids as repo_hubs_by_ids, get_hub_channels_by_hub_ids,
  get_hub_member_roles_by_hub_ids, get_channels_by_ids as repo_channels_by_ids,
}
use kergit_server.Hub.Service.{HubService, cached, to_hub, assign_roles}
use kergit_server.Hub.Service.Cache.{HubSnapshot, put_snapshot, put_channel, get_channel}

abbrev pub Channels : Type 0
Channels = Map HubId (List Channel)

abbrev pub Members : Type 0
Members = Map HubId (List MemberRole)

abbrev pub put_channels : List Channel → HubService → HubService
put_channels [] s = s
put_channels (c ∷ cs) s =
    put_channels cs (record s { channel_cache = put_channel c s.channel_cache })

-- The snapshot of a fetched hub, with its channels put into the channel cache.
unfoldable pub store_hub : Channels → Members → Hub → HubService → HubService
unfolding put_channel assign_roles put_snapshot
store_hub channels members hub s =
    let own = listed (find hub.id channels) in
    let snapshot : HubSnapshot = record {
      hub_id = hub.id;
      owner_id = hub.owner;
      name = hub.name;
      avatar_seed = hub.avatar_seed;
      channel_ids = map (λ c. c.id) own;
      member_roles = assign_roles (listed (find hub.id members)) empty;
    } in
    let filled = put_channels own s in record filled { cache = put_snapshot snapshot filled.cache }

unfoldable pub store_hubs : Channels → Members → List Hub → HubService → HubService
unfolding store_hub
store_hubs channels members [] s = s
store_hubs channels members (hub ∷ hubs) s =
    store_hubs channels members hubs (store_hub channels members hub s)

pub record HubScan : Type 0 where
  pub hubs_by_id : Map HubId Hub
  pub seen_ids : Set HubId
  pub misses : List HubId

abbrev pub no_hubs : HubScan
no_hubs = record { hubs_by_id = empty; seen_ids = empty; misses = [] }

-- A round of the first loop of getHubsByIds.
unfoldable pub scan_hub : HubId → HubScan × HubService → HubScan × HubService
unfolding cached to_hub
scan_hub id (scan, s) =
    if same id.value "" || contains id scan.seen_ids
    then (scan, s)
    else let found = cached id s in
      let seen = insert id scan.seen_ids in
      elim found.0 [
        | some snapshot ↦ (
          record scan { hubs_by_id = put id (to_hub snapshot) scan.hubs_by_id; seen_ids = seen },
          found.1,
        )
        | none ↦ (record scan { seen_ids = seen; misses = scan.misses ++ (id ∷ []) }, found.1)
      ]

unfoldable pub scan_hubs : List HubId → HubScan × HubService → HubScan × HubService
unfolding scan_hub
scan_hubs [] r = r
scan_hubs (id ∷ ids) r = scan_hubs ids (scan_hub id r)

unfoldable pub assign_hubs : List Hub → Map HubId Hub → Map HubId Hub
assign_hubs [] hubs = hubs
assign_hubs (hub ∷ rest) hubs = assign_hubs rest (put hub.id hub hubs)

-- The second loop of getHubsByIds, over what the repository returned.
unfoldable pub store_fetched : List Hub → Map HubId Hub → HubService → Map HubId Hub × HubService
unfolding get_hub_channels_by_hub_ids get_hub_member_roles_by_hub_ids store_hubs assign_hubs
store_fetched fetched hubs_by_id s =
    let ids = map (λ hub. hub.id) fetched in
    (
      assign_hubs fetched hubs_by_id,
      store_hubs (get_hub_channels_by_hub_ids ids s.repo)
          (get_hub_member_roles_by_hub_ids ids s.repo) fetched s,
    )

unfoldable pub fetch_misses : HubScan × HubService → Map HubId Hub × HubService
unfolding repo_hubs_by_ids store_fetched
fetch_misses (scan, s) =
    if is_nil scan.misses
    then (scan.hubs_by_id, s)
    else store_fetched (repo_hubs_by_ids scan.misses s.repo) scan.hubs_by_id s

unfoldable pub get_hubs_by_ids : List HubId → HubService → Map HubId Hub × HubService
unfolding scan_hubs fetch_misses
get_hubs_by_ids hub_ids s = fetch_misses (scan_hubs hub_ids (no_hubs, s))

pub record ChannelScan : Type 0 where
  pub channels : Map ChannelId Channel
  pub seen_ids : Set ChannelId
  pub misses : List ChannelId

abbrev pub no_channels : ChannelScan
no_channels = record { channels = empty; seen_ids = empty; misses = [] }

-- A round of the loop of getChannelsByIds.
unfoldable pub scan_channel : HubService → ChannelId → ChannelScan → ChannelScan
unfolding get_channel
scan_channel s id scan =
    if same id.value "" || contains id scan.seen_ids
    then scan
    else let seen = insert id scan.seen_ids in
      elim (get_channel id s.channel_cache) [
        | some channel ↦ record scan { channels = put id channel scan.channels; seen_ids = seen }
        | none ↦ record scan { seen_ids = seen; misses = scan.misses ++ (id ∷ []) }
      ]

unfoldable pub scan_channels : HubService → List ChannelId → ChannelScan → ChannelScan
unfolding scan_channel
scan_channels s [] scan = scan
scan_channels s (id ∷ ids) scan = scan_channels s ids (scan_channel s id scan)

unfoldable pub assign_channels : List Channel → Map ChannelId Channel → Map ChannelId Channel
assign_channels [] channels = channels
assign_channels (c ∷ cs) channels = assign_channels cs (put c.id c channels)

unfoldable pub fetch_channels : ChannelScan → HubService → Map ChannelId Channel × HubService
unfolding repo_channels_by_ids assign_channels put_channel
fetch_channels scan s =
    if is_nil scan.misses
    then (scan.channels, s)
    else let fetched = repo_channels_by_ids scan.misses s.repo in
      (assign_channels fetched scan.channels, put_channels fetched s)

unfoldable pub get_channels_by_ids :
    List ChannelId → HubService → Map ChannelId Channel × HubService
unfolding scan_channels fetch_channels
get_channels_by_ids channel_ids s = fetch_channels (scan_channels s channel_ids no_channels) s

-- The first loop of warmSnapshotsForHubs: the hubs to refresh, and whether one is missing.
pub record WarmScan : Type 0 where
  pub all_hubs : List Hub
  pub seen_ids : Set HubId
  pub requires_db_refresh : Bool

abbrev pub no_warm : WarmScan
no_warm = record { all_hubs = []; seen_ids = empty; requires_db_refresh = false }

unfoldable pub warm_hub : Hub → WarmScan × HubService → WarmScan × HubService
unfolding cached
warm_hub hub (scan, s) =
    if same hub.id.value "" || contains hub.id scan.seen_ids
    then (scan, s)
    else let found = cached hub.id s in
      (
        record {
          all_hubs = scan.all_hubs ++ (hub ∷ []);
          seen_ids = insert hub.id scan.seen_ids;
          requires_db_refresh = scan.requires_db_refresh || not (is_some found.0);
        },
        found.1,
      )

unfoldable pub warm_hubs : List Hub → WarmScan × HubService → WarmScan × HubService
unfolding warm_hub
warm_hubs [] r = r
warm_hubs (hub ∷ hubs) r = warm_hubs hubs (warm_hub hub r)

-- The second loop of warmSnapshotsForHubs.
unfoldable pub refresh_hubs : List Hub → HubService → HubService
unfolding store_hubs get_hub_channels_by_hub_ids get_hub_member_roles_by_hub_ids
refresh_hubs hubs s =
    let ids = map (λ hub. hub.id) hubs in
    store_hubs (get_hub_channels_by_hub_ids ids s.repo) (get_hub_member_roles_by_hub_ids ids s.repo)
      hubs s

unfoldable pub warm_snapshots_for_hubs : List Hub → HubService → HubService
unfolding warm_hubs refresh_hubs
warm_snapshots_for_hubs hubs s =
    let scan = warm_hubs hubs (no_warm, s) in
    if scan.0.requires_db_refresh then refresh_hubs scan.0.all_hubs scan.1 else scan.1
