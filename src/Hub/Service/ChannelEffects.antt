-- ===== src/Hub/Service/ChannelEffects.antt =====
-- What the writes of HubRepository.cpp to the table of channels change.
use mathlib.Core.List.{append-nil}
use kergit_server.Base.{
  ◌⊎◌, String, Bool, true, false, Option, none, some, ◌≡◌, ◌≢◌, refl, ◌∙◌, arith, Option-cases, inl,
  inr, string_key, if◌then◌else◌,
}
use kergit_server.Base.Map.{Map, find, put, erase, find-erase}
use kergit_server.Base.Map.Table.{
  same, holds, keys_where, keys_where-delete, keys_where-new, keys_where-old, keys_where-erase,
  elem-keys_where, remove_absent, delete_where, delete_keys, select-delete,
}
use kergit_server.Ids.{HubId, ChannelId, UserId, hub_id_key, channel_id_key, user_id_key}
use kergit_server.Hub.Repository as Repository
use kergit_server.Hub.Repository.{
  Database, HubRow, ChannelRow, MemberKey, in_hub, owned_by, member_key,
}
use kergit_server.Hub.Repository.Queries.{
  get_hub_channel_ids, get_hub_member_roles, member_of, parse_member_row,
}
use kergit_server.Hub.Service.Cache.{HubSnapshot}
use kergit_server.Hub.Service.Coherent.{IsValid, SameHub, snapshot_of}

pub create_channel_facts :
    (fresh : ChannelId) (hub_id : HubId) (name type : String) (db after : Database) (id : ChannelId)
    → Repository.create_channel fresh hub_id name type db ≡ some (id, after)
    → (id ≡ fresh)
      × (find fresh db.channels ≡ none)
      × (after ≡ record db {
        channels = put fresh (record { hub_id = hub_id; name = name; type = type }) db.channels;
      })
unfolding Repository.create_channel
create_channel_facts fresh hub_id name type db after id e =
    elim (Option-cases (find fresh db.channels)) [
      | inl f ↦ ground (arith, e, f)
      | inr (row, f) ↦ absurd (ground (arith, e, f))
    ]

pub delete_channel_facts :
    (channel_id : ChannelId) (hub_id : HubId) (db after : Database) (deleted : Bool)
    → Repository.delete_channel channel_id hub_id db ≡ some (deleted, after)
    → (if deleted
        then (holds (in_hub hub_id) (find channel_id db.channels) ≡ true)
          × (after ≡ record db { channels = erase channel_id db.channels })
        else (after ≡ db) × Unit {0})
unfolding Repository.delete_channel
delete_channel_facts channel_id hub_id db after true e = ground (arith, e)
delete_channel_facts channel_id hub_id db after false e = ground (arith, e)

pub rename_channel_facts :
    (channel_id : ChannelId) (name : String) (db after : Database) (renamed : Bool)
    → Repository.rename_channel channel_id name db ≡ some (renamed, after)
    → ((renamed ≡ false) × (after ≡ db))
      ⊎ ((row : ChannelRow) × (find channel_id db.channels ≡ some row)
          × (renamed ≡ true)
          × (after
              ≡ record db { channels = put channel_id (record row { name = name }) db.channels }))
unfolding Repository.rename_channel
rename_channel_facts channel_id name db after renamed e =
    elim (Option-cases (find channel_id db.channels)) [
      | inl f ↦ inl (ground (arith, e, f))
      | inr (row, f) ↦
          let g : (renamed ≡ true)
              × (after ≡ record db {
                channels = put channel_id (record row { name = name }) db.channels;
              }) =
            ground (arith, e, f) in
          inr (row, f, g.0, g.1)
    ]

pub SameHub-new :
    (fresh : ChannelId) (row : ChannelRow) (db : Database) (id : HubId)
    → find fresh db.channels ≡ none
    → id ≢ row.hub_id
    → SameHub id db (record db { channels = put fresh row db.channels })
unfolding get_hub_channel_ids get_hub_member_roles
SameHub-new fresh row db id f n = record {
  hub = refl;
  ids = ground (
    arith,
    n,
    keys_where-new (in_hub id) fresh row db.channels f,
    append-nil (keys_where (in_hub id) db.channels),
  );
  roles = refl;
}

pub SameHub-old :
    (channel_id : ChannelId) (row : ChannelRow) (name : String) (db : Database) (id : HubId)
    → find channel_id db.channels ≡ some row
    → SameHub id db
        (record db { channels = put channel_id (record row { name = name }) db.channels })
unfolding get_hub_channel_ids get_hub_member_roles
SameHub-old channel_id row name db id f = record {
  hub = refl;
  ids = keys_where-old (in_hub id) channel_id _ row db.channels f refl;
  roles = refl;
}

pub in_another :
    (id hub_id : HubId) (o : Option ChannelRow)
    → id ≢ hub_id
    → holds (in_hub hub_id) o ≡ true
    → holds (in_hub id) o ≡ false
in_another id hub_id none n f = refl
in_another id hub_id (some row) n f = ground (arith, n, f)

pub SameHub-erase :
    (channel_id : ChannelId) (hub_id : HubId) (db : Database) (id : HubId)
    → IsValid db
    → holds (in_hub hub_id) (find channel_id db.channels) ≡ true
    → id ≢ hub_id
    → SameHub id db (record db { channels = erase channel_id db.channels })
unfolding get_hub_channel_ids get_hub_member_roles
SameHub-erase channel_id hub_id db id v f n = record {
  hub = refl;
  ids =
      keys_where-erase (in_hub id) channel_id db.channels
      ∙ remove_absent channel_id (keys_where (in_hub id) db.channels) (
          elem-keys_where (in_hub id) channel_id db.channels v.channels
          ∙ in_another id hub_id (find channel_id db.channels) n f);
  roles = refl;
}

pub channel_ids-snapshot_of :
    (hub_id : HubId) (db : Database) (x : HubSnapshot)
    → snapshot_of hub_id db ≡ some x
    → x.channel_ids ≡ keys_where (in_hub hub_id) db.channels
unfolding snapshot_of get_hub_channel_ids
channel_ids-snapshot_of hub_id db x e = elim (Option-cases (find hub_id db.hubs)) [
  | inl f ↦ absurd (ground (arith, e, f))
  | inr (row, f) ↦ ground (arith, e, f)
]

pub snapshot_of-channels :
    (hub_id : HubId) (db : Database) (channels : Map ChannelId ChannelRow) (x : HubSnapshot)
    → snapshot_of hub_id db ≡ some x
    → snapshot_of hub_id (record db { channels = channels })
      ≡ some (record x { channel_ids = keys_where (in_hub hub_id) channels })
unfolding snapshot_of get_hub_channel_ids get_hub_member_roles
snapshot_of-channels hub_id db channels x e = elim (Option-cases (find hub_id db.hubs)) [
  | inl f ↦ absurd (ground (arith, e, f))
  | inr (row, f) ↦ ground (arith, e, f)
]

pub delete_hub_facts :
    (hub_id : HubId) (owner : UserId) (db after : Database) (deleted : Bool)
    → Repository.delete_hub hub_id owner db ≡ some (deleted, after)
    → (if deleted
        then (holds (owned_by owner) (find hub_id db.hubs) ≡ true)
          × (after ≡ record {
            hubs = erase hub_id db.hubs;
            channels = delete_where (in_hub hub_id) db.channels;
            members = delete_keys (λ key. same key.hub_id hub_id) db.members;
          })
        else (after ≡ db) × Unit {0})
unfolding Repository.delete_hub
delete_hub_facts hub_id owner db after true e = ground (arith, e)
delete_hub_facts hub_id owner db after false e = ground (arith, e)

pub SameHub-cascade :
    (hub_id : HubId) (db : Database) (id : HubId)
    → id ≢ hub_id
    → SameHub id db (record {
      hubs = erase hub_id db.hubs;
      channels = delete_where (in_hub hub_id) db.channels;
      members = delete_keys (λ key. same key.hub_id hub_id) db.members;
    })
unfolding get_hub_channel_ids get_hub_member_roles
SameHub-cascade hub_id db id n = record {
  hub = ground (arith, n, find-erase hub_id id db.hubs);
  ids = keys_where-delete (in_hub id) (in_hub hub_id) db.channels (λ row f. ground (arith, n, f));
  roles =
      select-delete (member_of id) parse_member_row (λ key. same key.hub_id hub_id) db.members
        (λ key role f. ground (arith, n, f));
}
