-- ===== src/Hub/Service/BatchKeeps.antt =====
-- getHubsByIds and getChannelsByIds of HubService.cpp keep the caches coherent.
use kergit_server.Base.{
  Bool, true, false, ◌||◌, some, List, [], ◌∷◌, map, ◌≡◌, refl, ap, subst, ◌∙◌, arith, Option-cases,
  inl, inr, string_key, if◌then◌else◌, All, All-impl, All-both,
}
use kergit_server.Base.Map.{Map, find, contains, find-put, elem, empty, is_nil}
use kergit_server.Base.Map.Table.{same, select, listed}
use kergit_server.Base.Map.Select.{All-select, map-select, listed-group}
use kergit_server.Ids.{HubId, ChannelId, hub_id_key, channel_id_key, user_id_key}
use kergit_server.Hub.Domain.{Hub, Channel, make_hub}
use kergit_server.Hub.Repository.{Database, HubRow, in_hub, member_key}
use kergit_server.Hub.Repository.Queries as Queries
use kergit_server.Hub.Repository.Queries.{
  get_hub_channel_ids, get_hub_member_roles, get_hub_channels_by_hub_ids,
  get_hub_member_roles_by_hub_ids, parse_channel_row, parse_hub_row, member_of, parse_member_row,
}
use kergit_server.Hub.Service.{HubService, cached, assign_roles}
use kergit_server.Hub.Service.Cache.{put_channel}
use kergit_server.Hub.Service.Batch.{
  put_channels, store_hub, store_hubs, HubScan, scan_hub, scan_hubs, fetch_misses, get_hubs_by_ids,
  get_channels_by_ids, no_hubs, no_channels, scan_channels, ChannelScan, fetch_channels,
  store_fetched, refresh_hubs,
}
use kergit_server.Hub.Service.Coherent.{
  InUse, IsValid, IsCoherent, snapshot_of, Looks, Looks-cached, IsCoherent-put,
}

-- The row that a hub shows.
abbrev pub row_of : Hub → HubRow
row_of hub = record { name = hub.name; owner_id = hub.owner; avatar_seed = hub.avatar_seed }

-- A hub as the database has it.
abbrev pub IsCurrent : Database → Hub → Type 0
IsCurrent db hub = find hub.id db.hubs ≡ some (row_of hub)

abbrev pub IsCurrentChannel : Database → Channel → Type 0
IsCurrentChannel db channel = Queries.get_channel channel.id db ≡ some channel

module _ ⦃u : InUse⦄ where
  -- Filling the channel cache.
  pub record Fills (s t : HubService) : Type 0 where
    pub repo : t.repo ≡ s.repo
    pub coherent : IsCoherent t

  pub Fills-put_channels :
      (channels : List Channel) (s : HubService)
      → IsCoherent s
      → All (IsCurrentChannel s.repo) channels
      → Fills s (put_channels channels s)
  unfolding put_channel
  Fills-put_channels [] s h a = record { repo = refl; coherent = h }
  Fills-put_channels (c ∷ cs) s h a =
      let f : Fills (record s { channel_cache = put_channel c s.channel_cache }) _ =
        Fills-put_channels cs (record s { channel_cache = put_channel c s.channel_cache })
          (record {
            valid = h.valid;
            apart = h.apart;
            stored = h.stored;
            hubs = h.hubs;
            channels = λ i d e.
                ground (arith, e, a.0, find-put c.id i c s.channel_cache.cache, h.channels i d);
          })
          a.1 in
      record { repo = f.repo; coherent = f.coherent }

  is_nil-elem : (hub_id : HubId) (ids : List HubId) → elem hub_id ids ≡ true → is_nil ids ≡ false
  unfolding elem
  is_nil-elem hub_id [] h = absurd (ground (arith, h))
  is_nil-elem hub_id (_ ∷ _) h = refl

  module _ (ids : List HubId) (hub_id : HubId) (db : Database) (k : elem hub_id ids ≡ true) where
    channels_of :
        listed (find hub_id (get_hub_channels_by_hub_ids ids db))
        ≡ select (λ id row. in_hub hub_id row) parse_channel_row db.channels
    unfolding get_hub_channels_by_hub_ids
    channels_of =
        rw (get_hub_channels_by_hub_ids, is_nil-elem hub_id ids k)
          (listed-group (λ id row. row.hub_id) parse_channel_row ids hub_id db.channels k)

    IsCurrentChannel-listed :
        IsValid db
        → All (IsCurrentChannel db) (listed (find hub_id (get_hub_channels_by_hub_ids ids db)))
    unfolding Queries.get_channel parse_channel_row
    IsCurrentChannel-listed v = rw channels_of (
        All-select (IsCurrentChannel db) _ parse_channel_row db.channels v.channels
          (λ id row e _. ground (arith, e)))

    channel_ids_of :
        map (λ c. c.id) (listed (find hub_id (get_hub_channels_by_hub_ids ids db)))
        ≡ get_hub_channel_ids hub_id db
    unfolding get_hub_channel_ids parse_channel_row
    channel_ids_of =
        rw channels_of
          (map-select (in_hub hub_id) parse_channel_row (λ c. c.id) db.channels (λ id row. refl))

    members_of :
        listed (find hub_id (get_hub_member_roles_by_hub_ids ids db))
        ≡ get_hub_member_roles hub_id db
    unfolding get_hub_member_roles_by_hub_ids get_hub_member_roles
    members_of =
        rw (get_hub_member_roles_by_hub_ids, is_nil-elem hub_id ids k)
          (listed-group (λ key role. key.hub_id) parse_member_row ids hub_id db.members k)

  Fills-store_hub :
      (ids : List HubId) (hub : Hub) (s : HubService)
      → IsCoherent s
      → IsCurrent s.repo hub
      → elem hub.id ids ≡ true
      → Fills s (
          store_hub
            (get_hub_channels_by_hub_ids ids s.repo)
            (get_hub_member_roles_by_hub_ids ids s.repo)
            hub
            s)
  unfolding store_hub snapshot_of
  Fills-store_hub ids hub s h c k =
      let f : Fills s
          (put_channels (listed (find hub.id (get_hub_channels_by_hub_ids ids s.repo))) s) =
        Fills-put_channels _ s h (IsCurrentChannel-listed ids hub.id s.repo k h.valid) in
      let made : snapshot_of hub.id s.repo
          ≡ some (record {
            hub_id = hub.id;
            owner_id = hub.owner;
            name = hub.name;
            avatar_seed = hub.avatar_seed;
            channel_ids =
                map (λ x. x.id) (listed (find hub.id (get_hub_channels_by_hub_ids ids s.repo)));
            member_roles =
                assign_roles (listed (find hub.id (get_hub_member_roles_by_hub_ids ids s.repo)))
                  empty;
          }) =
        rw (channel_ids_of ids hub.id s.repo k, members_of ids hub.id s.repo k)
          (ground (arith, c)) in
      record {
        repo = f.repo;
        coherent =
            IsCoherent-put hub.id _ _ (h.stored hub.id (row_of hub) c) f.coherent
              (ap (snapshot_of hub.id) f.repo ∙ made);
      }

  -- The databases are the same, so what was read of one can be stored over the other.
  Fills-store_hubs :
      (ids : List HubId) (hubs : List Hub) (s : HubService) (db : Database)
      → s.repo ≡ db
      → IsCoherent s
      → All (λ hub. IsCurrent db hub × (elem hub.id ids ≡ true)) hubs
      → Fills s (
          store_hubs
            (get_hub_channels_by_hub_ids ids db)
            (get_hub_member_roles_by_hub_ids ids db)
            hubs
            s)
  unfolding store_hubs
  Fills-store_hubs ids [] s db e h a = record { repo = refl; coherent = h }
  Fills-store_hubs ids (hub ∷ hubs) s db e h a =
      let after : HubService =
        store_hub (get_hub_channels_by_hub_ids ids db) (get_hub_member_roles_by_hub_ids ids db) hub
          s in
      let f : Fills s after =
        subst
          (λ d.
            IsCurrent d hub
            → Fills s (
                store_hub (get_hub_channels_by_hub_ids ids d)
                  (get_hub_member_roles_by_hub_ids ids d) hub s))
          e (λ c. Fills-store_hub ids hub s h c a.0.1) a.0.0 in
      let g : Fills after _ = Fills-store_hubs ids hubs after db (f.repo ∙ e) f.coherent a.1 in
      record { repo = g.repo ∙ f.repo; coherent = g.coherent }

  -- Every hub that the repository returns for a list of identifiers is current, and in the list.
  elem-map : (hubs : List Hub) → All (λ hub. elem hub.id (map (λ x. x.id) hubs) ≡ true) hubs
  unfolding elem
  elem-map [] = tt
  elem-map (hub ∷ hubs) =
      (ground arith, All-impl _ _ hubs (λ x k. ground (arith, k)) (elem-map hubs))

  IsCurrent-hubs :
      (ids : List HubId) (db : Database)
      → IsValid db
      → All (IsCurrent db) (Queries.get_hubs_by_ids ids db)
  unfolding Queries.get_hubs_by_ids parse_hub_row make_hub
  IsCurrent-hubs [] db v = tt
  IsCurrent-hubs (id ∷ ids) db v =
      All-select (IsCurrent db) _ parse_hub_row db.hubs v.hubs (λ i row e _. e)

  scan_hub_state :
      (id : HubId) (scan : HubScan) (s : HubService)
      → (scan_hub id (scan, s)).1
        ≡ (if same id.value "" || contains id scan.seen_ids then s else (cached id s).1)
  unfolding scan_hub
  scan_hub_state id scan s = elim (Option-cases (cached id s).0) [
    | inl e ↦ ground (arith, e)
    | inr (x, e) ↦ ground (arith, e)
  ]

  pub Fills-cached_if :
      (id : HubId) (s : HubService) (b : Bool)
      → u.used id
      → IsCoherent s
      → Fills s (if b then s else (cached id s).1)
  Fills-cached_if id s true w h = record { repo = refl; coherent = h }
  Fills-cached_if id s false w h =
      let l : Looks id w s h (cached id s) = Looks-cached id w s h in
      record { repo = l.repo; coherent = l.coherent }

  Fills-scan_hubs :
      (ids : List HubId) (scan : HubScan) (s : HubService)
      → All u.used ids
      → IsCoherent s
      → Fills s (scan_hubs ids (scan, s)).1
  unfolding scan_hubs
  Fills-scan_hubs [] scan s w h = record { repo = refl; coherent = h }
  Fills-scan_hubs (id ∷ ids) scan s w h =
      let f : Fills s (scan_hub id (scan, s)).1 =
        rw (scan_hub_state id scan s) (Fills-cached_if id s _ w.0 h) in
      let g : Fills (scan_hub id (scan, s)).1 _ =
        Fills-scan_hubs ids (scan_hub id (scan, s)).0 (scan_hub id (scan, s)).1 w.1 f.coherent in
      record { repo = g.repo ∙ f.repo; coherent = g.coherent }

  pub Fills-refresh :
      (hubs : List Hub) (s : HubService)
      → IsCoherent s
      → All (IsCurrent s.repo) hubs
      → Fills s (refresh_hubs hubs s)
  unfolding refresh_hubs
  Fills-refresh hubs s h a =
      Fills-store_hubs _ hubs s s.repo refl h (All-both _ _ hubs a (elem-map hubs))

  Fills-fetched_if :
      (b : Bool) (fetched : List Hub) (hubs : Map HubId Hub) (s : HubService)
      → IsCoherent s
      → All (IsCurrent s.repo) fetched
      → Fills s (if b then (hubs, s) else store_fetched fetched hubs s).1
  unfolding store_fetched refresh_hubs
  Fills-fetched_if true fetched hubs s h a = record { repo = refl; coherent = h }
  Fills-fetched_if false fetched hubs s h a = Fills-refresh fetched s h a

  Fills-fetch_misses :
      (scan : HubScan) (s : HubService) → IsCoherent s → Fills s (fetch_misses (scan, s)).1
  unfolding fetch_misses
  Fills-fetch_misses scan s h =
      Fills-fetched_if (is_nil scan.misses) _ _ s h (IsCurrent-hubs scan.misses s.repo h.valid)

  pub Fills-get_hubs_by_ids :
      (ids : List HubId) (s : HubService)
      → All u.used ids
      → IsCoherent s
      → Fills s (get_hubs_by_ids ids s).1
  unfolding get_hubs_by_ids
  Fills-get_hubs_by_ids ids s w h =
      let r = scan_hubs ids (no_hubs, s) in
      let f : Fills s r.1 = Fills-scan_hubs ids no_hubs s w h in
      let g : Fills r.1 (fetch_misses r).1 = Fills-fetch_misses r.0 r.1 f.coherent in
      record { repo = g.repo ∙ f.repo; coherent = g.coherent }

  fetched_channels :
      (ids : List ChannelId) (db : Database)
      → IsValid db
      → All (IsCurrentChannel db) (Queries.get_channels_by_ids ids db)
  unfolding Queries.get_channels_by_ids Queries.get_channel parse_channel_row
  fetched_channels [] db v = tt
  fetched_channels (id ∷ ids) db v =
      All-select (IsCurrentChannel db) _ parse_channel_row db.channels v.channels
        (λ i row e _. ground (arith, e))

  Fills-channels_if :
      (b : Bool) (fetched : List Channel) (old new : Map ChannelId Channel) (s : HubService)
      → IsCoherent s
      → All (IsCurrentChannel s.repo) fetched
      → Fills s
          (if◌then◌else◌ {A = Map ChannelId Channel × HubService} b
            (old, s)
            (new, put_channels fetched s)).1
  Fills-channels_if true fetched old new s h a = record { repo = refl; coherent = h }
  Fills-channels_if false fetched old new s h a = Fills-put_channels fetched s h a

  Fills-fetch_channels :
      (scan : ChannelScan) (s : HubService) → IsCoherent s → Fills s (fetch_channels scan s).1
  unfolding fetch_channels
  Fills-fetch_channels scan s h =
      Fills-channels_if (is_nil scan.misses) _ _ _ s h (fetched_channels scan.misses s.repo h.valid)

  pub Fills-get_channels_by_ids :
      (ids : List ChannelId) (s : HubService) → IsCoherent s → Fills s (get_channels_by_ids ids s).1
  unfolding get_channels_by_ids
  Fills-get_channels_by_ids ids s h = Fills-fetch_channels (scan_channels s ids no_channels) s h
