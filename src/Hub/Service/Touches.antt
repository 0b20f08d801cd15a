-- ===== src/Hub/Service/Touches.antt =====
-- What each write of HubRepository.cpp changes, for the caches above it.
use kergit_server.Base.{
  String, Bool, false, some, ◌≡◌, ◌≢◌, refl, ap, ◌∙◌, arith, Option-cases, inl, inr, string_key,
}
use kergit_server.Base.Map.{Map, find, put, erase, IsMap, find-put, IsMap-put, IsMap-erase}
use kergit_server.Base.Map.Table.{select, select-put, select-erase}
use kergit_server.Ids.{HubId, UserId, hub_id_key, channel_id_key, user_id_key}
use kergit_server.Hub.Domain.{Hub}
use kergit_server.Hub.Names.{normalize_db_role}
use kergit_server.Hub.Repository as Repository
use kergit_server.Hub.Repository.{
  Database, HubRow, ChannelRow, MemberKey, member, member_key, in_hub, owned_by, upsert_member,
}
use kergit_server.Hub.Repository.Queries.{
  get_channel, get_hub_channel_ids, get_hub_member_roles, parse_member_row, member_of,
}
use kergit_server.Hub.Service.Coherent.{IsValid, SameHub, Touches}

-- A change to the members of one hub.
Touches-members :
    (hub_id : HubId) (db : Database) (members : Map MemberKey String)
    → IsValid db
    → IsMap members
    → ((id : HubId)
        → id ≢ hub_id
        → select (member_of id) parse_member_row members
          ≡ select (member_of id) parse_member_row db.members)
    → Touches hub_id db (record db { members = members })
unfolding get_hub_channel_ids get_hub_member_roles get_channel
Touches-members hub_id db members v d h = record {
  valid = record { hubs = v.hubs; channels = v.channels; members = d };
  others = λ id n. record { hub = refl; ids = refl; roles = h id n };
  channels = λ id. refl;
}

other_member :
    (id hub_id : HubId) (user_id : UserId) (role : String)
    → id ≢ hub_id
    → member_of id (member hub_id user_id) role ≡ false
other_member id hub_id user_id role n = ground (arith, n)

pub Touches-upsert :
    (hub_id : HubId) (user_id : UserId) (role : String) (db after : Database)
    → IsValid db
    → upsert_member hub_id user_id role db ≡ some after
    → Touches hub_id db after
unfolding upsert_member
Touches-upsert hub_id user_id role db after v e = elim (Option-cases (find hub_id db.hubs)) [
  | inl f ↦ absurd (ground (arith, e, f))
  | inr (row, f) ↦
      let g : after ≡ record db { members = put (member hub_id user_id) role db.members } =
        ground (arith, e, f) in
      rw g (
        Touches-members hub_id db _ v (IsMap-put (member hub_id user_id) role db.members v.members)
          (λ id n.
            select-put (member_of id) parse_member_row _ _ db.members
              (λ w. other_member id hub_id user_id w n)))
]

pub Touches-add_member :
    (hub_id : HubId) (user_id : UserId) (role : String) (db after : Database) (u : Unit)
    → IsValid db
    → Repository.add_member hub_id user_id role db ≡ some (u, after)
    → Touches hub_id db after
unfolding Repository.add_member
Touches-add_member hub_id user_id role db after u v e =
    elim (Option-cases (upsert_member hub_id user_id (normalize_db_role role) db)) [
      | inl f ↦ absurd (ground (arith, e, f))
      | inr (x, f) ↦
          let g : x ≡ after = ground (arith, e, f) in
          Touches-upsert hub_id user_id (normalize_db_role role) db after v (f ∙ ap some g)
    ]

pub Touches-remove_member :
    (hub_id : HubId) (user_id : UserId) (db after : Database) (u : Unit)
    → IsValid db
    → Repository.remove_member hub_id user_id db ≡ some (u, after)
    → Touches hub_id db after
unfolding Repository.remove_member
Touches-remove_member hub_id user_id db after u v e =
    let g : after ≡ record db { members = erase (member hub_id user_id) db.members } =
      ground (arith, e) in
    rw g (
      Touches-members hub_id db _ v (IsMap-erase (member hub_id user_id) db.members v.members)
        (λ id n.
          select-erase (member_of id) parse_member_row _ db.members
            (λ w. other_member id hub_id user_id w n)))

-- A change to the row of one hub.
Touches-hub :
    (hub_id : HubId) (row : HubRow) (db : Database)
    → IsValid db
    → Touches hub_id db (record db { hubs = put hub_id row db.hubs })
unfolding get_hub_channel_ids get_hub_member_roles get_channel
Touches-hub hub_id row db v = record {
  valid = record {
    hubs = IsMap-put hub_id row db.hubs v.hubs;
    channels = v.channels;
    members = v.members;
  };
  others = λ id n. record {
    hub = ground (arith, n, find-put hub_id id row db.hubs);
    ids = refl;
    roles = refl;
  };
  channels = λ id. refl;
}

Touches-nothing : (hub_id : HubId) (db : Database) → IsValid db → Touches hub_id db db
Touches-nothing hub_id db v = record {
  valid = v;
  others = λ id n. record { hub = refl; ids = refl; roles = refl };
  channels = λ id. refl;
}

Touches-trans :
    (hub_id : HubId) (db mid after : Database)
    → Touches hub_id db mid
    → Touches hub_id mid after
    → Touches hub_id db after
Touches-trans hub_id db mid after a b = record {
  valid = b.valid;
  others = λ id n.
      let x : SameHub id db mid = a.others id n in
      let y : SameHub id mid after = b.others id n in
      record { hub = y.hub ∙ x.hub; ids = y.ids ∙ x.ids; roles = y.roles ∙ x.roles };
  channels = λ id. b.channels id ∙ a.channels id;
}

pub Touches-rename_hub :
    (hub_id : HubId) (name : String) (db after : Database) (renamed : Bool)
    → IsValid db
    → Repository.rename_hub hub_id name db ≡ some (renamed, after)
    → Touches hub_id db after
unfolding Repository.rename_hub
Touches-rename_hub hub_id name db after renamed v e = elim (Option-cases (find hub_id db.hubs)) [
  | inl f ↦ let g : after ≡ db = ground (arith, e, f) in rw g (Touches-nothing hub_id db v)
  | inr (row, f) ↦
      let g : after ≡ record db { hubs = put hub_id (record row { name = name }) db.hubs } =
        ground (arith, e, f) in
      rw g (Touches-hub hub_id _ db v)
]

pub Touches-update_hub_avatar_seed :
    (hub_id : HubId) (seed : String) (db after : Database) (updated : Bool)
    → IsValid db
    → Repository.update_hub_avatar_seed hub_id seed db ≡ some (updated, after)
    → Touches hub_id db after
unfolding Repository.update_hub_avatar_seed
Touches-update_hub_avatar_seed hub_id seed db after updated v e =
    elim (Option-cases (find hub_id db.hubs)) [
      | inl f ↦ let g : after ≡ db = ground (arith, e, f) in rw g (Touches-nothing hub_id db v)
      | inr (row, f) ↦
          let g : after
              ≡ record db { hubs = put hub_id (record row { avatar_seed = seed }) db.hubs } =
            ground (arith, e, f) in
          rw g (Touches-hub hub_id _ db v)
    ]

pub Touches-create_hub :
    (fresh : HubId) (name : String) (owner : UserId) (db after : Database) (hub : Hub)
    → IsValid db
    → Repository.create_hub fresh name owner db ≡ some (hub, after)
    → Touches fresh db after × (hub.id ≡ fresh)
unfolding Repository.create_hub
Touches-create_hub fresh name owner db after hub v e =
    let row : HubRow = record { name = name; owner_id = owner; avatar_seed = "Felix" } in
    let mid : Database = record db { hubs = put fresh row db.hubs } in
    elim (Option-cases (upsert_member fresh owner "owner" mid)) [
      | inl f ↦ absurd (ground (arith, e, f))
      | inr (x, f) ↦
          let g : (x ≡ after) × (hub.id ≡ fresh) = ground (arith, e, f) in
          (
            Touches-trans fresh db mid after (Touches-hub fresh row db v) (
                Touches-upsert fresh owner "owner" mid after (Touches-hub fresh row db v).valid
                  (f ∙ ap some g.0)),
            g.1,
          )
    ]
