-- ===== src/Hub/Service/Edit.antt =====
-- Changing the cached snapshot of a hub along with the database.
use kergit_server.Base.{
  refl, subst, nat_key, none, some, ◌≡◌, ◌≢◌, sym, ap, ◌∙◌, arith, Option-cases, inl, inr, dec_eq,
  string_key,
}
use kergit_server.Base.Map.{find}
use kergit_server.Ids.{HubId, ChannelId, hub_id_key, channel_id_key, user_id_key}
use kergit_server.Hub.Domain.{Channel}
use kergit_server.Hub.Repository.{Database, HubRow, member_key}
use kergit_server.Hub.Repository.Queries as Queries
use kergit_server.Hub.Repository.Queries.{
  get_hub_channel_ids, get_hub_member_roles, parse_channel_row, member_of, parse_member_row,
}
use kergit_server.Hub.Service.{HubService, invalidate_hub_caches}
use kergit_server.Hub.Service.Cache.{
  HubSnapshot, snapshot, other, put_snapshot, invalidate, HubCache, ChannelCache, any_key, lookup,
  lookup-put_snapshot, lookup-invalidate, hash-put_snapshot, hash-invalidate,
}
use kergit_server.Hub.Service.Writes.{edit_snapshot}
use kergit_server.Hub.Service.Coherent.{
  InUse, IsApart, IsValid, IsCoherent, cached-none, cached-other, cached-snapshot,
  hub_id-snapshot_of, SameHub, snapshot_of, snapshot_of-same,
}

module _ (hub_id : HubId) (s : HubService) (after : Database) (edit : HubSnapshot → HubSnapshot)
    (cc : ChannelCache) where
  -- The database changed in the given way for one hub, and the channel cache is up to date.
  pub record Edits : Type 0 where
    pub valid : IsValid after
    pub others : (id : HubId) → id ≢ hub_id → SameHub id s.repo after
    pub edited :
        (x : HubSnapshot)
        → snapshot_of hub_id s.repo ≡ some x
        → snapshot_of hub_id after ≡ some (edit x)
    pub channels :
        (id : ChannelId) (c : Channel)
        → find id cc.cache ≡ some c
        → Queries.get_channel id after ≡ some c

module _ ⦃u : InUse⦄ where
  module _ (hub_id : HubId) (s : HubService) (after : Database) (edit : HubSnapshot → HubSnapshot)
      (cc : ChannelCache) (w : u.used hub_id) (h : IsCoherent s)
      (e : Edits hub_id s after edit cc) where
    abbrev t : HubService
    t = record s { repo = after; channel_cache = cc }

    other_hub :
        (i : HubId) (x : HubSnapshot)
        → u.used i
        → i ≢ hub_id
        → lookup i s.cache ≡ some (snapshot x)
        → snapshot_of i after ≡ some x
    other_hub i x v n f = snapshot_of-same i s.repo after (e.others i n) ∙ h.hubs i x v f

    stored_after : (i : HubId) (row : HubRow) → find i after.hubs ≡ some row → u.used i
    stored_after i row f = elim (dec_eq hub_id i) [
      | yes p ↦ subst u.used p w
      | no n ↦ h.stored i row (sym (e.others i (λ q. n (sym q))).hub ∙ f)
    ]

    -- The cache without the hub.
    without :
        (cache : HubCache)
        → cache.hash ≡ s.cache.hash
        → ((i : HubId) (x : HubSnapshot)
            → u.used i
            → lookup i cache ≡ some (snapshot x)
            → (i ≢ hub_id) × (lookup i s.cache ≡ some (snapshot x)))
        → IsCoherent (record t { cache = cache })
    without cache g k = record {
      valid = e.valid;
      apart = subst IsApart (sym g) h.apart;
      stored = stored_after;
      hubs = λ i x v f. other_hub i x v (k i x v f).0 (k i x v f).1;
      channels = e.channels;
    }

    with_edit :
        (x : HubSnapshot)
        → lookup hub_id s.cache ≡ some (snapshot x)
        → (edit x).hub_id ≡ hub_id
        → IsCoherent (record t { cache = put_snapshot (edit x) s.cache })
    with_edit x f key = record {
      valid = e.valid;
      apart = subst IsApart (sym (hash-put_snapshot (edit x) s.cache)) h.apart;
      stored = stored_after;
      hubs = λ i y v g. elim (dec_eq hub_id i) [
        | yes p ↦
            let z : edit x ≡ y =
              ground (arith, g, p, key, lookup-put_snapshot (edit x) i s.cache) in
            ap (λ j. snapshot_of j after) (sym p) ∙ e.edited x (h.hubs hub_id x w f) ∙ ap some z
        | no n ↦
            other_hub i y v (λ q. n (sym q))
              (ground
                (arith, g, n, key, h.apart hub_id i w v, lookup-put_snapshot (edit x) i s.cache))
      ];
      channels = e.channels;
    }

    none_entry :
        lookup hub_id s.cache ≡ none
        → (i : HubId) (x : HubSnapshot) → u.used i
        → lookup i s.cache ≡ some (snapshot x)
        → (i ≢ hub_id) × (lookup i s.cache ≡ some (snapshot x))
    none_entry f i x v g = (λ p. ground (arith, f, g, p), g)

    invalidated_entry :
        (i : HubId) (x : HubSnapshot)
        → u.used i
        → lookup i (invalidate hub_id (invalidate hub_id s.cache)) ≡ some (snapshot x)
        → (i ≢ hub_id) × (lookup i s.cache ≡ some (snapshot x))
    invalidated_entry i x v g = ground (
      arith,
      g,
      ap s.cache.hash,
      hash-invalidate hub_id s.cache,
      lookup-invalidate hub_id i (invalidate hub_id s.cache),
      lookup-invalidate hub_id i s.cache,
    )

    pub IsCoherent-edit :
        ((x : HubSnapshot) → (edit x).hub_id ≡ x.hub_id) → IsCoherent (edit_snapshot hub_id edit t)
    unfolding invalidate_hub_caches
    IsCoherent-edit key = elim (Option-cases (lookup hub_id s.cache)) [
      | inl f ↦
          rw (edit_snapshot, cached-none hub_id t f)
            (rw (cached-none hub_id t f) (without s.cache refl (none_entry f)))
      | inr (snapshot x, f) ↦
          rw (edit_snapshot, cached-snapshot hub_id t x f)
            (rw (cached-snapshot hub_id t x f)
              (with_edit x f (key x ∙ hub_id-snapshot_of hub_id s.repo x (h.hubs hub_id x w f))))
      | inr (other, f) ↦
          rw (edit_snapshot, cached-other hub_id t f)
            (rw (cached-other hub_id t f) (
              without _
                (hash-invalidate hub_id (invalidate hub_id s.cache)
                  ∙ hash-invalidate hub_id s.cache)
                invalidated_entry))
    ]
