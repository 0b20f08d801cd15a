-- ===== src/Hub/Service/DeleteHub.antt =====
-- deleteHub of HubService.cpp keeps the caches coherent.
use kergit_server.Base.{
  subst, nat_key, Bool, true, false, Option, none, some, List, [], ◌∷◌, ◌≡◌, refl, sym, ap, ◌∙◌,
  arith, Option-cases, inl, inr, dec_eq, is_some, string_key, if◌then◌else◌,
}
use kergit_server.Base.Map.{find, erase, find-erase, IsMap-erase, elem}
use kergit_server.Base.Map.Table.{
  same, holds, keys_where, elem-keys_where, delete_where, delete_keys, find-delete_where,
  IsMap-delete, IsMap-delete_keys,
}
use kergit_server.Ids.{HubId, ChannelId, UserId, hub_id_key, channel_id_key, user_id_key}
use kergit_server.Persistence.Transaction.{Outside}
use kergit_server.Persistence.Transaction.Laws.{RepliesArrive}
use kergit_server.Hub.Domain.{Channel}
use kergit_server.Hub.Repository as Repository
use kergit_server.Hub.Repository.{
  Database, HubRow, ChannelRow, MemberKey, in_hub, owned_by, member_key,
}
use kergit_server.Hub.Repository.Queries as Queries
use kergit_server.Hub.Repository.Queries.{
  get_hub_channel_ids, get_hub_member_roles, parse_channel_row, member_of, parse_member_row,
}
use kergit_server.Hub.Service.{HubService, invalidate_hub_caches}
use kergit_server.Hub.Service.Cache.{
  HubSnapshot, snapshot, ChannelCache, invalidate_channel, any_key, lookup, lookup-invalidate,
  hash-invalidate,
}
use kergit_server.Hub.Service.{load_snapshot}
use kergit_server.Hub.Service.Reads.{
  get_hub_channel_ids as service_channel_ids, get_hub_topology, topology_of,
}
use kergit_server.Hub.Service.Writes.{delete_hub, invalidate_channels, hub_deleted}
use kergit_server.Hub.Service.ChannelEffects.{
  SameHub-cascade, delete_hub_facts, channel_ids-snapshot_of,
}
use kergit_server.Hub.Service.Coherent.{
  InUse, IsApart, IsValid, IsCoherent, Loads, Loads-load, IsCoherent-write, snapshot_of,
  snapshot_of-same,
}

find-invalidate_channels :
    (ids : List ChannelId) (c : ChannelCache) (i : ChannelId)
    → find i (invalidate_channels ids c).cache ≡ (if elem i ids then none else find i c.cache)
unfolding invalidate_channel elem
find-invalidate_channels [] c i = refl
find-invalidate_channels (j ∷ ids) c i =
    ground (arith, find-invalidate_channels ids (invalidate_channel j c) i, find-erase j i c.cache)

module _ ⦃u : InUse⦄ where
  -- The identifiers that deleteHub reads are those of the database.
  record Lists (hub_id : HubId) (s : HubService) (r : List ChannelId × HubService) : Type 0 where
    repo : r.1.repo ≡ s.repo
    ids :
        is_some (find hub_id s.repo.hubs) ≡ true → r.0 ≡ keys_where (in_hub hub_id) s.repo.channels
    coherent : IsCoherent r.1

  listed_of :
      (hub_id : HubId) (db : Database) (o : Option HubSnapshot)
      → o ≡ snapshot_of hub_id db
      → is_some (find hub_id db.hubs) ≡ true
      → (topology_of o).channel_ids ≡ keys_where (in_hub hub_id) db.channels
  unfolding snapshot_of Queries.get_hub_channel_ids
  listed_of hub_id db (some x) e k = channel_ids-snapshot_of hub_id db x (sym e)
  listed_of hub_id db none e k = elim (Option-cases (find hub_id db.hubs)) [
    | inl f ↦ absurd (ground (arith, k, f))
    | inr (row, f) ↦ absurd (ground (arith, e, f))
  ]

  Lists-ids :
      (hub_id : HubId) (s : HubService)
      → u.used hub_id
      → IsCoherent s
      → Lists hub_id s (service_channel_ids hub_id s)
  unfolding service_channel_ids get_hub_topology
  Lists-ids hub_id s w h =
      let l : Loads hub_id s (load_snapshot hub_id s) = Loads-load hub_id s w h in
      record {
        repo = l.repo;
        ids = λ k. listed_of hub_id s.repo _ l.answer k;
        coherent = l.coherent;
      }

  module _ (hub_id : HubId) (s : HubService) (h : IsCoherent s) where
    abbrev without_hub : Database
    without_hub = record {
      hubs = erase hub_id s.repo.hubs;
      channels = delete_where (in_hub hub_id) s.repo.channels;
      members = delete_keys (λ key. same key.hub_id hub_id) s.repo.members;
    }

    IsValid-without_hub : IsValid without_hub
    IsValid-without_hub = record {
      hubs = IsMap-erase hub_id s.repo.hubs h.valid.hubs;
      channels = IsMap-delete (in_hub hub_id) s.repo.channels h.valid.channels;
      members = IsMap-delete_keys (λ key. same key.hub_id hub_id) s.repo.members h.valid.members;
    }

    -- A cached channel that is left is not of the hub.
    found_without :
        (ids : List ChannelId)
        → ids ≡ keys_where (in_hub hub_id) s.repo.channels
        → (i : ChannelId) (c : Channel)
        → find i (invalidate_channels ids s.channel_cache).cache ≡ some c
        → Queries.get_channel i without_hub ≡ some c
    unfolding Queries.get_channel
    found_without ids k i c e =
        let known : elem i ids ≡ holds (in_hub hub_id) (find i s.repo.channels) =
          ap (elem i) k ∙ elem-keys_where (in_hub hub_id) i s.repo.channels h.valid.channels in
        let kept : (elem i ids ≡ false) × (find i s.channel_cache.cache ≡ some c) =
          ground (arith, e, find-invalidate_channels ids s.channel_cache i) in
        let deleted = find-delete_where (in_hub hub_id) i s.repo.channels h.valid.channels in
        let old : Queries.get_channel i s.repo ≡ some c = h.channels i c kept.1 in
        ground (arith, deleted, known, kept.0, old)

    IsCoherent-deleted :
        (ids : List ChannelId)
        → ids ≡ keys_where (in_hub hub_id) s.repo.channels
        → IsCoherent (hub_deleted hub_id ids true (record s { repo = without_hub })).1
    unfolding invalidate_hub_caches
    IsCoherent-deleted ids k = record {
      valid = IsValid-without_hub;
      apart = subst IsApart (sym (hash-invalidate hub_id s.cache)) h.apart;
      stored = λ i row e. h.stored i row (ground (arith, e, find-erase hub_id i s.repo.hubs));
      hubs = λ i x v e. elim (dec_eq hub_id i) [
        | yes p ↦ absurd (ground (arith, e, p, lookup-invalidate hub_id i s.cache))
        | no n ↦
            let f : lookup i s.cache ≡ some (snapshot x) =
              ground (arith, e, lookup-invalidate hub_id i s.cache) in
            snapshot_of-same i s.repo without_hub (SameHub-cascade hub_id s.repo i (λ q. n (sym q)))
            ∙ h.hubs i x v f
      ];
      channels = found_without ids k;
    }

  deleted_hub_is_some :
      (owner : UserId) (o : Option HubRow) → holds (owned_by owner) o ≡ true → is_some o ≡ true
  deleted_hub_is_some owner none e = absurd (ground (arith, e))
  deleted_hub_is_some owner (some row) e = refl

  module _ (o : Outside) (replies : RepliesArrive o) (s : HubService) (h : IsCoherent s)
      (hub_id : HubId) (owner : UserId) (w : u.used hub_id) where
    kept :
        (r : List ChannelId × HubService)
        → Lists hub_id s r
        → (a : Bool) (db : Database) → Repository.delete_hub hub_id owner r.1.repo ≡ some (a, db)
        → IsCoherent (hub_deleted hub_id r.0 a (record r.1 { repo = db })).1
    kept r l true db e =
        let k = delete_hub_facts hub_id owner r.1.repo db true e in
        let ids = l.ids (
          deleted_hub_is_some owner _
            (ap (λ d. holds (owned_by owner) (find hub_id d.hubs)) (sym l.repo) ∙ k.0)) in
        rw k.1 (
          IsCoherent-deleted hub_id r.1 l.coherent r.0
            (ids ∙ ap (λ d. keys_where (in_hub hub_id) d.channels) (sym l.repo)))
    kept r l false db e = rw (delete_hub_facts hub_id owner r.1.repo db false e).0 l.coherent

    pub IsCoherent-delete_hub : IsCoherent (delete_hub o hub_id owner s).1
    unfolding delete_hub
    IsCoherent-delete_hub =
        let l : Lists hub_id s (service_channel_ids hub_id s) = Lists-ids hub_id s w h in
        IsCoherent-write o (Repository.delete_hub hub_id owner) (service_channel_ids hub_id s).1
          (hub_deleted hub_id (service_channel_ids hub_id s).0) replies l.coherent (kept _ l)
