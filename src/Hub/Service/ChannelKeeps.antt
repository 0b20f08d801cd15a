-- ===== src/Hub/Service/ChannelKeeps.antt =====
-- createChannel, renameChannel, deleteChannel and deleteHub of HubService.cpp keep the caches
-- coherent.
use kergit_server.Base.{
  String, Bool, true, false, Option, none, some, ◌≡◌, refl, ap, ◌∙◌, arith, inl, inr, string_key,
}
use kergit_server.Base.Map.{find, put, erase, find-put, find-erase, IsMap-put, IsMap-erase}
use kergit_server.Base.Map.Table.{holds, keys_where-new, keys_where-erase, elem-keys_where}
use kergit_server.Ids.{HubId, ChannelId, hub_id_key, channel_id_key, user_id_key}
use kergit_server.Persistence.Transaction.{Outside}
use kergit_server.Persistence.Transaction.Laws.{RepliesArrive}
use kergit_server.Hub.Domain.{Channel}
use kergit_server.Hub.Names.{channel_types_agree}
use kergit_server.Hub.Repository as Repository
use kergit_server.Hub.Repository.{
  Database, HubRow, ChannelRow, MemberKey, in_hub, owned_by, member_key,
}
use kergit_server.Hub.Repository.Queries as Queries
use kergit_server.Hub.Repository.Queries.{
  get_hub_channel_ids, get_hub_member_roles, parse_channel_row, member_of, parse_member_row,
}
use kergit_server.Hub.Service.{HubService}
use kergit_server.Hub.Service.Cache.{ChannelCache, put_channel, get_channel, invalidate_channel}
use kergit_server.Hub.Service.Writes.{
  create_channel, rename_channel, delete_channel, append_channel, drop_channel, rename_cached,
  channel_created, channel_renamed, channel_deleted,
}
use kergit_server.Hub.Service.Edit.{Edits, IsCoherent-edit}
use kergit_server.Hub.Service.ChannelEffects.{
  create_channel_facts, delete_channel_facts, rename_channel_facts, SameHub-new, SameHub-old,
  SameHub-erase, channel_ids-snapshot_of, snapshot_of-channels,
}
use kergit_server.Hub.Service.Coherent.{InUse, IsCoherent, IsCoherent-write, snapshot_of-same}

-- What the repository and the service know of a channel that is put.
found_put :
    (id : ChannelId) (row : ChannelRow) (db : Database) (channel : Channel) (cc : ChannelCache)
    → channel ≡ parse_channel_row id row
    → ((i : ChannelId) (c : Channel) → find i cc.cache ≡ some c → Queries.get_channel i db ≡ some c)
    → (i : ChannelId) (c : Channel) → find i (put_channel channel cc).cache ≡ some c
    → Queries.get_channel i (record db { channels = put id row db.channels }) ≡ some c
unfolding put_channel Queries.get_channel parse_channel_row
found_put id row db channel cc e h i c f =
    let key : channel.id ≡ id = ap (λ x. x.id) e in
    ground (
      arith,
      f,
      e,
      key,
      find-put id i row db.channels,
      find-put channel.id i channel cc.cache,
      h i c,
    )

module _ ⦃u : InUse⦄ where
  module _ (s : HubService) (h : IsCoherent s) where
    Edits-create :
        (fresh : ChannelId) (hub_id : HubId) (name type : String) (channel : Channel)
        → channel ≡ parse_channel_row fresh (record { hub_id = hub_id; name = name; type = type })
        → find fresh s.repo.channels ≡ none
        → Edits hub_id s
            (record s.repo {
              channels =
                  put fresh (record { hub_id = hub_id; name = name; type = type }) s.repo.channels;
            })
            (append_channel fresh)
            (put_channel channel s.channel_cache)
    Edits-create fresh hub_id name type channel c f =
        let row : ChannelRow = record { hub_id = hub_id; name = name; type = type } in
        record {
          valid = record {
            hubs = h.valid.hubs;
            channels = IsMap-put fresh row s.repo.channels h.valid.channels;
            members = h.valid.members;
          };
          others = λ id n. SameHub-new fresh row s.repo id f n;
          edited = λ x e.
              snapshot_of-channels hub_id s.repo (put fresh row s.repo.channels) x e
              ∙ ap some (
                  ground (
                    arith,
                    channel_ids-snapshot_of hub_id s.repo x e,
                    keys_where-new (in_hub hub_id) fresh row s.repo.channels f,
                    elem-keys_where (in_hub hub_id) fresh s.repo.channels h.valid.channels,
                    f,
                  ));
          channels = found_put fresh row s.repo channel s.channel_cache c h.channels;
        }

    Edits-delete :
        (channel_id : ChannelId) (hub_id : HubId)
        → holds (in_hub hub_id) (find channel_id s.repo.channels) ≡ true
        → Edits hub_id s
            (record s.repo { channels = erase channel_id s.repo.channels })
            (drop_channel channel_id)
            (invalidate_channel channel_id s.channel_cache)
    unfolding invalidate_channel Queries.get_channel
    Edits-delete channel_id hub_id f = record {
      valid = record {
        hubs = h.valid.hubs;
        channels = IsMap-erase channel_id s.repo.channels h.valid.channels;
        members = h.valid.members;
      };
      others = λ id n. SameHub-erase channel_id hub_id s.repo id h.valid f n;
      edited = λ x e.
          snapshot_of-channels hub_id s.repo (erase channel_id s.repo.channels) x e
          ∙ ap some (
              ground (
                arith,
                channel_ids-snapshot_of hub_id s.repo x e,
                keys_where-erase (in_hub hub_id) channel_id s.repo.channels,
              ));
      channels = λ i c g. ground (
        arith,
        g,
        find-erase channel_id i s.repo.channels,
        find-erase channel_id i s.channel_cache.cache,
        h.channels i c,
      );
    }

  module _ (o : Outside) (replies : RepliesArrive o) (s : HubService) (h : IsCoherent s) where
    pub IsCoherent-create_channel :
        (fresh : ChannelId) (hub_id : HubId) (name type : String)
        → u.used hub_id
        → IsCoherent (create_channel o fresh hub_id name type s).1
    unfolding create_channel parse_channel_row
    IsCoherent-create_channel fresh hub_id name type w =
        IsCoherent-write o (Repository.create_channel fresh hub_id name type) s
          (channel_created hub_id name type) replies h
          (λ id db e.
            let k = create_channel_facts fresh hub_id name type s.repo db id e in
            rw (k.0, k.2)
              (IsCoherent-edit hub_id s _ (append_channel fresh) _ w h
                (Edits-create s h fresh hub_id name type _
                  (ground (arith, channel_types_agree type)) k.1)
                (λ x. ground arith)))

    pub IsCoherent-delete_channel :
        (channel_id : ChannelId) (hub_id : HubId)
        → u.used hub_id
        → IsCoherent (delete_channel o channel_id hub_id s).1
    unfolding delete_channel
    IsCoherent-delete_channel channel_id hub_id w =
        IsCoherent-write o (Repository.delete_channel channel_id hub_id) s
          (channel_deleted channel_id hub_id) replies h kept
      where
        kept :
            (a : Bool) (db : Database)
            → Repository.delete_channel channel_id hub_id s.repo ≡ some (a, db)
            → IsCoherent (channel_deleted channel_id hub_id a (record s { repo = db })).1
        kept true db e =
            let k = delete_channel_facts channel_id hub_id s.repo db true e in
            rw k.1 (
              IsCoherent-edit hub_id s _ (drop_channel channel_id) _ w h
                (Edits-delete s h channel_id hub_id k.0) (λ x. refl))
        kept false db e =
            let k = delete_channel_facts channel_id hub_id s.repo db false e in rw k.0 h

    module _ (channel_id : ChannelId) (name : String) (row : ChannelRow)
        (f : find channel_id s.repo.channels ≡ some row) where
      abbrev renamed_db : Database
      renamed_db = record s.repo {
        channels = put channel_id (record row { name = name }) s.repo.channels;
      }

      found_renamed :
          (o : Option Channel)
          → find channel_id s.channel_cache.cache ≡ o
          → (i : ChannelId) (c : Channel)
          → find i (rename_cached o channel_id name s.channel_cache).cache ≡ some c
          → Queries.get_channel i renamed_db ≡ some c
      unfolding invalidate_channel Queries.get_channel parse_channel_row
      found_renamed (some d) g i c q =
          let e : Queries.get_channel channel_id s.repo ≡ some d = h.channels channel_id d g in
          found_put channel_id (record row { name = name }) s.repo (record d { name = name })
            s.channel_cache (ground (arith, e, f)) h.channels i c q
      found_renamed none g i c e = ground (
        arith,
        e,
        find-erase channel_id i s.channel_cache.cache,
        find-put channel_id i (record row { name = name }) s.repo.channels,
        h.channels i c,
      )

      IsCoherent-renamed :
          IsCoherent (channel_renamed channel_id name true (record s { repo = renamed_db })).1
      unfolding get_channel
      IsCoherent-renamed = record {
        valid = record {
          hubs = h.valid.hubs;
          channels = IsMap-put channel_id _ s.repo.channels h.valid.channels;
          members = h.valid.members;
        };
        apart = h.apart;
        stored = h.stored;
        hubs = λ i x v e.
            snapshot_of-same i s.repo _ (SameHub-old channel_id row name s.repo i f)
            ∙ h.hubs i x v e;
        channels = found_renamed (find channel_id s.channel_cache.cache) refl;
      }

    pub IsCoherent-rename_channel :
        (channel_id : ChannelId) (name : String) → IsCoherent (rename_channel o channel_id name s).1
    unfolding rename_channel
    IsCoherent-rename_channel channel_id name =
        IsCoherent-write o (Repository.rename_channel channel_id name) s
          (channel_renamed channel_id name) replies h
          (λ a db e. elim (rename_channel_facts channel_id name s.repo db a e) [
            | inl (p, q) ↦ rw (p, q) h
            | inr (row, f, p, q) ↦ rw (p, q) (IsCoherent-renamed channel_id name row f)
          ])
