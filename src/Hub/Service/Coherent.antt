-- ===== src/Hub/Service/Coherent.antt =====
-- The caches agree with the database.
use kergit_server.Base.{
  ℕ, nat_key, subst, Option, none, some, ◌≡◌, ◌≢◌, refl, sym, ap, ◌∙◌, inl, inr, arith,
  Option-cases, dec_eq,
}
use kergit_server.Base.Map.{find, empty, IsMap, find-empty}
use kergit_server.Ids.{HubId, ChannelId, hub_id_key, channel_id_key, user_id_key}
use kergit_server.Cache as OnMemory
use kergit_server.Persistence.Transaction.{Outside, Work, write}
use kergit_server.Persistence.Transaction.Laws.{RepliesArrive, Answered-write}
use kergit_server.Hub.Domain.{Channel, make_hub}
use kergit_server.Hub.Repository.{Database, HubRow, member_key}
use kergit_server.Hub.Repository.Queries.{
  get_hub, get_channel, get_hub_channel_ids, get_hub_member_roles, parse_hub_row,
}
use kergit_server.Hub.Service.{
  HubService, init, cached, build_snapshot, load_snapshot, assign_roles, invalidate_hub_caches,
}
use kergit_server.Hub.Service.Cache as Cache
use kergit_server.Hub.Service.Cache.{
  HubSnapshot, snapshot, other, put_snapshot, invalidate, AnyKey, any_key, make_key, lookup,
  lookup-put_snapshot, lookup-invalidate, hash-put_snapshot, hash-invalidate,
}
use kergit_server.Hub.Service.Writes.{after_write}

-- What buildSnapshot makes of the database.
unfoldable pub snapshot_of : HubId → Database → Option HubSnapshot
unfolding get_hub_channel_ids get_hub_member_roles assign_roles
snapshot_of hub_id db = elim (find hub_id db.hubs) [
  | none ↦ none
  | some row ↦ some record {
    hub_id = hub_id;
    owner_id = row.owner_id;
    name = row.name;
    avatar_seed = row.avatar_seed;
    channel_ids = get_hub_channel_ids hub_id db;
    member_roles = assign_roles (get_hub_member_roles hub_id db) empty;
  }
]

-- Nothing that the snapshot of a hub shows differs between two databases.
pub record SameHub (hub_id : HubId) (db after : Database) : Type 0 where
  pub hub : find hub_id after.hubs ≡ find hub_id db.hubs
  pub ids : get_hub_channel_ids hub_id after ≡ get_hub_channel_ids hub_id db
  pub roles : get_hub_member_roles hub_id after ≡ get_hub_member_roles hub_id db

pub snapshot_of-same :
    (id : HubId) (db after : Database)
    → SameHub id db after
    → snapshot_of id after ≡ snapshot_of id db
unfolding snapshot_of
snapshot_of-same id db after e = elim (Option-cases (find id db.hubs)) [
  | inl f ↦ ground (arith, e.hub, f)
  | inr (row, f) ↦ ground (arith, e.hub, e.ids, e.roles, f)
]

-- No table has a primary key twice.
pub record IsValid (db : Database) : Type 0 where
  pub hubs : IsMap db.hubs
  pub channels : IsMap db.channels
  pub members : IsMap db.members

-- A write that concerns one hub, and no channel's row.
pub record Touches (hub_id : HubId) (db after : Database) : Type 0 where
  pub valid : IsValid after
  pub others : (id : HubId) → id ≢ hub_id → SameHub id db after
  pub channels : (id : ChannelId) → get_channel id after ≡ get_channel id db

pub hub_id-snapshot_of :
    (id : HubId) (db : Database) (x : HubSnapshot) → snapshot_of id db ≡ some x → x.hub_id ≡ id
unfolding snapshot_of
hub_id-snapshot_of id db x h = ground (arith, h)

module _ (id : HubId) (s : HubService) where
  pub cached-none : lookup id s.cache ≡ none → cached id s ≡ (none, s)
  unfolding cached Cache.get OnMemory.get
  cached-none e = ground (arith, e)

  pub cached-snapshot :
      (x : HubSnapshot) → lookup id s.cache ≡ some (snapshot x) → cached id s ≡ (some x, s)
  unfolding cached Cache.get OnMemory.get
  cached-snapshot x e = ground (arith, e)

  pub cached-other :
      lookup id s.cache ≡ some other
      → cached id s ≡ (none, invalidate_hub_caches id (invalidate_hub_caches id s))
  unfolding cached Cache.get invalidate OnMemory.get OnMemory.discard invalidate_hub_caches
  cached-other e = ground (arith, e)

  build_none : find id s.repo.hubs ≡ none → build_snapshot id s ≡ (none, s)
  unfolding build_snapshot get_hub
  build_none e = ground (arith, e)

  build_some :
      (x : HubSnapshot)
      → snapshot_of id s.repo ≡ some x
      → build_snapshot id s ≡ (some x, record s { cache = put_snapshot x s.cache })
  unfolding build_snapshot snapshot_of get_hub parse_hub_row make_hub
  build_some x e = elim (Option-cases (find id s.repo.hubs)) [
    | inl f ↦ absurd (ground (arith, e, f))
    | inr (row, f) ↦ ground (arith, e, f)
  ]

  snapshot_of-none : find id s.repo.hubs ≡ none → snapshot_of id s.repo ≡ none
  unfolding snapshot_of
  snapshot_of-none e = ground (arith, e)

  none_of_snapshot_of : snapshot_of id s.repo ≡ none → find id s.repo.hubs ≡ none
  unfolding snapshot_of
  none_of_snapshot_of e = ground (arith, e)

  load_none : (cached id s).0 ≡ none → load_snapshot id s ≡ build_snapshot id (cached id s).1
  unfolding load_snapshot
  load_none e = ground (arith, e)

  load_some :
      (x : HubSnapshot) → (cached id s).0 ≡ some x → load_snapshot id s ≡ (some x, (cached id s).1)
  unfolding load_snapshot
  load_some x e = ground (arith, e)

-- The hub ids that the calls name.
pub record InUse : Type 1 where
  pub used : HubId → Type 0

-- No two of them have the same hash.
abbrev pub IsApart : ⦃u : InUse⦄ → (HubId → ℕ) → Type 0
IsApart ⦃u⦄ hash = (i j : HubId) → u.used i → u.used j → hash i ≡ hash j → i ≡ j

module _ ⦃u : InUse⦄ where
  pub record IsCoherent (s : HubService) : Type 0 where
    pub valid : IsValid s.repo
    pub apart : IsApart s.cache.hash
    pub stored : (id : HubId) (row : HubRow) → find id s.repo.hubs ≡ some row → u.used id
    pub hubs :
        (id : HubId) (x : HubSnapshot)
        → u.used id
        → lookup id s.cache ≡ some (snapshot x)
        → snapshot_of id s.repo ≡ some x
    pub channels :
        (id : ChannelId) (c : Channel)
        → find id s.channel_cache.cache ≡ some c
        → get_channel id s.repo ≡ some c

  pub IsCoherent-init :
      (hash : HubId → ℕ) (db : Database)
      → IsValid db
      → IsApart hash
      → ((id : HubId) (row : HubRow) → find id db.hubs ≡ some row → u.used id)
      → IsCoherent (init hash db)
  unfolding init OnMemory.init
  IsCoherent-init hash db v a k = record {
    valid = v;
    apart = a;
    stored = k;
    hubs = λ id x w h. absurd (ground (arith, h, find-empty {V = Cache.Any} (make_key hash id)));
    channels = λ id c h. absurd (ground (arith, h, find-empty {V = Channel} id));
  }

  pub IsCoherent-invalidate :
      (id : HubId) (s : HubService) → IsCoherent s → IsCoherent (invalidate_hub_caches id s)
  unfolding invalidate_hub_caches
  IsCoherent-invalidate id s h = record {
    valid = h.valid;
    apart = subst IsApart (sym (hash-invalidate id s.cache)) h.apart;
    stored = h.stored;
    hubs = λ i x w e. ground (arith, e, lookup-invalidate id i s.cache, h.hubs i x w);
    channels = h.channels;
  }

  module _ (id : HubId) (w : u.used id) (s : HubService) (h : IsCoherent s) where
    -- A lookup leaves the database alone and the caches coherent, and finds the hub's snapshot or
    -- nothing.
    pub record Looks (r : Option HubSnapshot × HubService) : Type 0 where
      pub repo : r.1.repo ≡ s.repo
      pub found : (x : HubSnapshot) → r.0 ≡ some x → snapshot_of id s.repo ≡ some x
      pub coherent : IsCoherent r.1

    Looks-nothing : (t : HubService) → t.repo ≡ s.repo → IsCoherent t → Looks (none, t)
    Looks-nothing t e k = record {
      repo = e;
      found = λ x n. absurd (ground (arith, n));
      coherent = k;
    }

    pub Looks-cached : Looks (cached id s)
    unfolding invalidate_hub_caches
    Looks-cached = elim (Option-cases (lookup id s.cache)) [
      | inl e ↦ rw (cached-none id s e) (Looks-nothing s refl h)
      | inr (snapshot x, e) ↦
          rw (cached-snapshot id s x e) (record {
            repo = refl;
            found = λ y n. ground (arith, n, h.hubs id x w e);
            coherent = h;
          })
      | inr (other, e) ↦
          rw (cached-other id s e)
            (Looks-nothing _ refl (IsCoherent-invalidate id _ (IsCoherent-invalidate id s h)))
    ]

  pub IsCoherent-put :
      (id : HubId) (s : HubService) (x : HubSnapshot)
      → u.used id
      → IsCoherent s
      → snapshot_of id s.repo ≡ some x
      → IsCoherent (record s { cache = put_snapshot x s.cache })
  IsCoherent-put id s x w h e = record {
    valid = h.valid;
    apart = subst IsApart (sym (hash-put_snapshot x s.cache)) h.apart;
    stored = h.stored;
    hubs = λ i y v f. ground (
      arith,
      f,
      e,
      hub_id-snapshot_of id s.repo x e,
      lookup-put_snapshot x i s.cache,
      h.apart id i w v,
      h.hubs i y v,
    );
    channels = h.channels;
  }

  -- What loadSnapshot answers: what it would build now.
  pub record Loads (id : HubId) (s : HubService) (r : Option HubSnapshot × HubService)
      : Type 0 where
    pub repo : r.1.repo ≡ s.repo
    pub answer : r.0 ≡ snapshot_of id s.repo
    pub coherent : IsCoherent r.1

  Loads-build :
      (id : HubId) (s : HubService) → u.used id → IsCoherent s → Loads id s (build_snapshot id s)
  Loads-build id s w h = elim (Option-cases (snapshot_of id s.repo)) [
    | inl e ↦
        rw (build_none id s (none_of_snapshot_of id s e))
          (record { repo = refl; answer = sym e; coherent = h })
    | inr (x, e) ↦
        rw (build_some id s x e)
          (record { repo = refl; answer = sym e; coherent = IsCoherent-put id s x w h e })
  ]

  pub Loads-load :
      (id : HubId) (s : HubService) → u.used id → IsCoherent s → Loads id s (load_snapshot id s)
  Loads-load id s w h =
      let l : Looks id w s h (cached id s) = Looks-cached id w s h in
      elim (Option-cases (cached id s).0) [
        | inl e ↦
            let b : Loads id (cached id s).1 (build_snapshot id (cached id s).1) =
              Loads-build id (cached id s).1 w l.coherent in
            rw (load_none id s e) (record {
              repo = b.repo ∙ l.repo;
              answer = b.answer ∙ ap (snapshot_of id) l.repo;
              coherent = b.coherent;
            })
        | inr (x, e) ↦
            rw (load_some id s x e)
              (record { repo = l.repo; answer = sym (l.found x e); coherent = l.coherent })
      ]

  pub IsCoherent-touch :
      (hub_id : HubId) (s : HubService) (after : Database)
      → u.used hub_id
      → IsCoherent s
      → Touches hub_id s.repo after
      → IsCoherent (invalidate_hub_caches hub_id (record s { repo = after }))
  unfolding invalidate_hub_caches
  IsCoherent-touch hub_id s after w h t = record {
    valid = t.valid;
    apart = subst IsApart (sym (hash-invalidate hub_id s.cache)) h.apart;
    stored = λ i row e. elim (dec_eq hub_id i) [
      | yes p ↦ subst u.used p w
      | no n ↦ h.stored i row (sym (t.others i (λ q. n (sym q))).hub ∙ e)
    ];
    hubs = λ i x v e. elim (dec_eq hub_id i) [
      | yes p ↦ absurd (ground (arith, e, p, lookup-invalidate hub_id i s.cache))
      | no n ↦
          let f : lookup i s.cache ≡ some (snapshot x) =
            ground (arith, e, lookup-invalidate hub_id i s.cache) in
          snapshot_of-same i s.repo after (t.others i (λ q. n (sym q))) ∙ h.hubs i x v f
    ];
    channels = λ i c e. t.channels i ∙ h.channels i c e;
  }

  -- A write through TransactionRunner keeps the caches coherent if what follows its return does.
  pub IsCoherent-write :
      {A B : Type 0} (o : Outside) (fn : Work Database A) (s : HubService)
      (next : A → HubService → B × HubService)
      → RepliesArrive o
      → IsCoherent s
      → ((a : A) (db : Database)
          → fn s.repo ≡ some (a, db)
          → IsCoherent (next a (record s { repo = db })).1)
      → IsCoherent (after_write (write o fn s.repo) s next).1
  IsCoherent-write o fn s next r h k = elim (Answered-write o fn r s.repo) [
    | inl ((a, db), e, w) ↦ rw w (k a db e)
    | inr (inl w) ↦ rw w h
    | inr (inr w) ↦ rw w h
  ]
