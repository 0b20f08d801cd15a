-- ===== src/Hub/Repository/Sound/Keeps.antt =====
-- Every write keeps the tables sound.
use mathlib.Core.List.{append-nil}
use kergit_server.Base.{
  subst, ◌≤◌, ◌<◌, String, true, false, ◌||◌, none, some, List, [], ◌∷◌, ◌≡◌, refl, arith,
  Option-cases, Bool-cases, inl, inr, dec_eq, is_some, length, leb, length-append, string_key,
}
use kergit_server.Base.Map.{
  find, put, erase, contains, find-put, find-erase, IsMap-put, IsMap-erase,
}
use kergit_server.Base.Map.Table.{
  same, holds, keys_where, keys_where-new, keys_where-old, keys_where-erase, delete_where,
  delete_keys, find-delete_where, find-delete_keys, IsMap-delete,
}
use kergit_server.Ids.{HubId, ChannelId, UserId, hub_id_key, channel_id_key, user_id_key}
use kergit_server.Hub.Names.{normalize_db_role}
use kergit_server.Hub.Repository.{
  Database, HubRow, ChannelRow, MemberKey, member, member_key, in_hub, owned_by, upsert_member,
  create_hub, add_member, remove_member, rename_hub, update_hub_avatar_seed, delete_hub,
  create_channel, creation_refused, rename_channel, delete_channel,
}
use kergit_server.Base.Map.Select.{length-remove, length-delete}
use kergit_server.Hub.Repository.Sound.{
  Statement, create_hub_of, add_member_of, remove_member_of, rename_hub_of, update_avatar_of,
  delete_hub_of, create_channel_of, rename_channel_of, delete_channel_of, settled, perform, execute,
  no_rows, IsSound, IsSound-no_rows, upsert_facts,
}

IsSound-upsert :
    (h : HubId) (u : UserId) (role : String) (db after : Database)
    → IsSound db
    → upsert_member h u role db ≡ some after
    → IsSound after
IsSound-upsert h u role db after s e =
    let f = upsert_facts h u role db after e in
    rw f.3 (record {
      member_hub = λ i v r k.
          ground
            (arith, k, f.1, find-put (member h u) (member i v) role db.members, s.member_hub i v r);
      channel_hub = s.channel_hub;
      owner_role = λ i v row k l. ground (
        arith,
        k,
        l,
        f.1,
        f.2,
        find-put (member h u) (member i v) role db.members,
        s.owner_role i v row k,
      );
      channel_limit = s.channel_limit;
      channel_keys = s.channel_keys;
      hub_limit = s.hub_limit;
    })

-- Change a hub's row, its owner apart.
IsSound-hub :
    (h : HubId) (old row : HubRow) (db : Database)
    → find h db.hubs ≡ some old
    → row.owner_id ≡ old.owner_id
    → IsSound db
    → IsSound (record db { hubs = put h row db.hubs })
IsSound-hub h old row db f e s = record {
  member_hub = λ i v r k. ground (arith, find-put h i row db.hubs, s.member_hub i v r k);
  channel_hub = λ c r k. ground (arith, find-put h r.hub_id row db.hubs, s.channel_hub c r k);
  owner_role = λ i v r k l.
      ground
        (arith, k, l, f, e, find-put h i row db.hubs, s.owner_role i v old, s.owner_role i v r);
  channel_limit = s.channel_limit;
  channel_keys = s.channel_keys;
  hub_limit =
      λ u. ground (arith, e, keys_where-old (owned_by u) h row old db.hubs f, s.hub_limit u);
}

-- A hub that is new, with an owner who has fewer than two.
IsSound-new_hub :
    (h : HubId) (row : HubRow) (db : Database)
    → find h db.hubs ≡ none
    → length (keys_where (owned_by row.owner_id) db.hubs) < 2
    → IsSound db
    → IsSound (record db { hubs = put h row db.hubs })
IsSound-new_hub h row db f n s = record {
  member_hub = λ i v r k. ground (arith, find-put h i row db.hubs, s.member_hub i v r k);
  channel_hub = λ c r k. ground (arith, find-put h r.hub_id row db.hubs, s.channel_hub c r k);
  owner_role = λ i v r k l.
      ground
        (arith, k, l, f, find-put h i row db.hubs, s.owner_role i v r, s.member_hub i v "owner" l);
  channel_limit = s.channel_limit;
  channel_keys = s.channel_keys;
  hub_limit = λ u. elim (dec_eq row.owner_id u) [
    | yes e ↦ ground (
      arith,
      e,
      subst (λ v. length (keys_where (owned_by v) db.hubs) < 2) e n,
      keys_where-new (owned_by u) h row db.hubs f,
      length-append (keys_where (owned_by u) db.hubs) (h ∷ []),
    )
    | no m ↦ ground (
      arith,
      m,
      keys_where-new (owned_by u) h row db.hubs f,
      append-nil (keys_where (owned_by u) db.hubs),
      s.hub_limit u,
    )
  ];
}

IsSound-channel :
    (c : ChannelId) (row : ChannelRow) (db : Database)
    → is_some (find row.hub_id db.hubs) ≡ true
    → ((h : HubId) → length (keys_where (in_hub h) (put c row db.channels)) ≤ 3)
    → IsSound db
    → IsSound (record db { channels = put c row db.channels })
IsSound-channel c row db e l s = record {
  member_hub = s.member_hub;
  channel_hub = λ d r k. ground (arith, k, e, find-put c d row db.channels, s.channel_hub d r);
  owner_role = s.owner_role;
  channel_limit = l;
  channel_keys = IsMap-put c row db.channels s.channel_keys;
  hub_limit = s.hub_limit;
}

new_channel_limit :
    (c : ChannelId) (row : ChannelRow) (db : Database)
    → find c db.channels ≡ none
    → length (keys_where (in_hub row.hub_id) db.channels) < 3
    → IsSound db
    → (h : HubId) → length (keys_where (in_hub h) (put c row db.channels)) ≤ 3
new_channel_limit c row db f n s h = elim (dec_eq row.hub_id h) [
  | yes e ↦ ground (
    arith,
    e,
    subst (λ v. length (keys_where (in_hub v) db.channels) < 3) e n,
    keys_where-new (in_hub h) c row db.channels f,
    length-append (keys_where (in_hub h) db.channels) (c ∷ []),
  )
  | no m ↦ ground (
    arith,
    m,
    keys_where-new (in_hub h) c row db.channels f,
    append-nil (keys_where (in_hub h) db.channels),
    s.channel_limit h,
  )
]

IsSound-erase_channel :
    (c : ChannelId) (db : Database)
    → IsSound db
    → IsSound (record db { channels = erase c db.channels })
IsSound-erase_channel c db s = record {
  member_hub = s.member_hub;
  channel_hub = λ d r k. ground (arith, k, find-erase c d db.channels, s.channel_hub d r);
  owner_role = s.owner_role;
  channel_limit = λ h. ground (
    arith,
    keys_where-erase (in_hub h) c db.channels,
    length-remove c (keys_where (in_hub h) db.channels),
    s.channel_limit h,
  );
  channel_keys = IsMap-erase c db.channels s.channel_keys;
  hub_limit = s.hub_limit;
}

IsSound-erase_member :
    (key : MemberKey) (db : Database)
    → IsSound db
    → IsSound (record db { members = erase key db.members })
IsSound-erase_member key db s = record {
  member_hub =
      λ i v r k. ground (arith, k, find-erase key (member i v) db.members, s.member_hub i v r);
  channel_hub = s.channel_hub;
  owner_role = λ i v row k l.
      ground (arith, k, l, find-erase key (member i v) db.members, s.owner_role i v row);
  channel_limit = s.channel_limit;
  channel_keys = s.channel_keys;
  hub_limit = s.hub_limit;
}

IsSound-cascade :
    (h : HubId) (db : Database)
    → IsSound db
    → IsSound (record {
      hubs = erase h db.hubs;
      channels = delete_where (in_hub h) db.channels;
      members = delete_keys (λ key. same key.hub_id h) db.members;
    })
IsSound-cascade h db s = record {
  member_hub = λ i v r k. ground (
    arith,
    k,
    find-erase h i db.hubs,
    find-delete_keys (λ key. same key.hub_id h) (member i v) db.members,
    s.member_hub i v r,
  );
  channel_hub = λ c r k. elim (Option-cases (find c db.channels)) [
    | inl f ↦
        absurd (ground (arith, k, f, find-delete_where (in_hub h) c db.channels s.channel_keys))
    | inr (q, f) ↦
        let g : (q ≡ r) × (in_hub h q ≡ false) =
          ground (arith, k, f, find-delete_where (in_hub h) c db.channels s.channel_keys) in
        ground (arith, g.0, g.1, f, find-erase h r.hub_id db.hubs, s.channel_hub c q f)
  ];
  owner_role = λ i v row k l. ground (
    arith,
    k,
    l,
    find-erase h i db.hubs,
    find-delete_keys (λ key. same key.hub_id h) (member i v) db.members,
    s.owner_role i v row,
  );
  channel_limit =
      λ i. ground (arith, length-delete (in_hub i) (in_hub h) db.channels, s.channel_limit i);
  channel_keys = IsMap-delete (in_hub h) db.channels s.channel_keys;
  hub_limit = λ u. ground (
    arith,
    keys_where-erase (owned_by u) h db.hubs,
    length-remove h (keys_where (owned_by u) db.hubs),
    s.hub_limit u,
  );
}

IsSound-create_hub :
    (fresh : HubId) (name : String) (owner : UserId) (db : Database)
    → IsSound db
    → IsSound (settled db (create_hub fresh name owner db))
unfolding create_hub
IsSound-create_hub fresh name owner db s =
    let row : HubRow = record { name = name; owner_id = owner; avatar_seed = "Felix" } in
    let mid : Database = record db { hubs = put fresh row db.hubs } in
    elim (Bool-cases
      (leb 2 (length (keys_where (owned_by owner) db.hubs)) || contains fresh db.hubs)) [
        | inl e ↦ rw (create_hub, e) s
        | inr e ↦ elim (Option-cases (upsert_member fresh owner "owner" mid)) [
          | inl f ↦ rw (create_hub, e, f) s
          | inr (after, f) ↦
              rw (create_hub, e, f)
                (IsSound-upsert fresh owner "owner" mid after
                  (IsSound-new_hub fresh row db (ground (arith, e)) (ground (arith, e)) s) f)
        ]
      ]

IsSound-create_channel :
    (fresh : ChannelId) (hub_id : HubId) (name type : String) (db : Database)
    → IsSound db
    → IsSound (settled db (create_channel fresh hub_id name type db))
unfolding create_channel
IsSound-create_channel fresh hub_id name type db s =
    let row : ChannelRow = record { hub_id = hub_id; name = name; type = type } in
    elim (Bool-cases (creation_refused fresh hub_id type db)) [
      | inl e ↦ rw (create_channel, e) s
      | inr e ↦
          rw (create_channel, e)
            (IsSound-channel fresh row db (ground (arith, e))
              (new_channel_limit fresh row db (ground (arith, e)) (ground (arith, e)) s) s)
    ]

-- Whatever write is made, through whatever constraint it fails, the tables stay sound.
pub IsSound-perform : (st : Statement) (db : Database) → IsSound db → IsSound (perform st db)
unfolding perform create_hub add_member remove_member rename_hub update_hub_avatar_seed delete_hub
    create_channel rename_channel delete_channel
IsSound-perform (create_hub_of fresh name owner) db s = IsSound-create_hub fresh name owner db s
IsSound-perform (add_member_of hub_id user_id role) db s =
    elim (Option-cases (upsert_member hub_id user_id (normalize_db_role role) db)) [
      | inl f ↦ rw (perform, add_member, f) s
      | inr (after, f) ↦
          rw (perform, add_member, f)
            (IsSound-upsert hub_id user_id (normalize_db_role role) db after s f)
    ]
IsSound-perform (remove_member_of hub_id user_id) db s =
    IsSound-erase_member (member hub_id user_id) db s
IsSound-perform (rename_hub_of hub_id name) db s = elim (Option-cases (find hub_id db.hubs)) [
  | inl f ↦ rw (perform, rename_hub, f) s
  | inr (row, f) ↦
      rw (perform, rename_hub, f) (IsSound-hub hub_id row (record row { name = name }) db f refl s)
]
IsSound-perform (update_avatar_of hub_id seed) db s = elim (Option-cases (find hub_id db.hubs)) [
  | inl f ↦ rw (perform, update_hub_avatar_seed, f) s
  | inr (row, f) ↦
      rw (perform, update_hub_avatar_seed, f)
        (IsSound-hub hub_id row (record row { avatar_seed = seed }) db f refl s)
]
IsSound-perform (delete_hub_of hub_id owner) db s =
    elim (Bool-cases (holds (owned_by owner) (find hub_id db.hubs))) [
      | inl f ↦ rw (perform, delete_hub, f) (IsSound-cascade hub_id db s)
      | inr f ↦ rw (perform, delete_hub, f) s
    ]
IsSound-perform (create_channel_of fresh hub_id name type) db s =
    IsSound-create_channel fresh hub_id name type db s
IsSound-perform (rename_channel_of channel_id name) db s =
    elim (Option-cases (find channel_id db.channels)) [
      | inl f ↦ rw (perform, rename_channel, f) s
      | inr (row, f) ↦
          rw (perform, rename_channel, f)
            (IsSound-channel channel_id (record row { name = name }) db
              (s.channel_hub channel_id row f)
              (λ h. ground (
                arith,
                keys_where-old (in_hub h) channel_id (record row { name = name }) row db.channels f
                    refl,
                s.channel_limit h,
              ))
              s)
    ]
IsSound-perform (delete_channel_of channel_id hub_id) db s =
    elim (Bool-cases (holds (in_hub hub_id) (find channel_id db.channels))) [
      | inl f ↦ rw (perform, delete_channel, f) (IsSound-erase_channel channel_id db s)
      | inr f ↦ rw (perform, delete_channel, f) s
    ]

-- After any sequence of writes from empty tables, members and channels are only of hubs that exist,
-- no one but a hub's owner has the role of owner in it, no hub has more than three channels, and no
-- user owns more than two hubs.
pub IsSound-execute : (sts : List Statement) → IsSound (execute sts no_rows)
unfolding execute
IsSound-execute sts = from sts no_rows IsSound-no_rows
  where
    from : (rest : List Statement) (db : Database) → IsSound db → IsSound (execute rest db)
    from [] db s = s
    from (st ∷ rest) db s = from rest (perform st db) (IsSound-perform st db s)
