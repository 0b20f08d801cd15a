-- ===== src/Hub/Service/Answers.antt =====
-- What the reads of HubService.cpp answer over coherent caches: what the repository has.
use kergit_server.Base.{
  String, Bool, true, Option, none, some, List, [], ◌∷◌, ◌≡◌, refl, sym, ap, ◌∙◌, arith,
  Option-cases, inl, inr, dec_eq, is_some, if◌then◌else◌,
}
use kergit_server.Base.Map.{
  Map, find, put, IsMap, find-put, empty, find-empty, IsDistinct, find_entry,
}
use kergit_server.Base.Map.Table.{select, select_entries}
use kergit_server.Ids.{HubId, ChannelId, UserId, hub_id_key, channel_id_key, user_id_key}
use kergit_server.Hub.RolePolicy.{Role}
use kergit_server.Hub.Domain.{Hub, Channel}
use kergit_server.Hub.Names.{role_from_string}
use kergit_server.Hub.Repository.{Database, MemberKey, member, member_key}
use kergit_server.Hub.Repository.Sound.{IsSound}
use kergit_server.Hub.Repository.Queries as Queries
use kergit_server.Hub.Repository.Queries.{
  MemberRole, parse_hub_row, parse_member_row, parse_channel_row, member_of, get_hub_member_roles,
}
use kergit_server.Hub.Service.{HubService, cached, load_snapshot, assign_roles, to_hub}
use kergit_server.Hub.Service.Cache.{HubSnapshot, put_channel, get_channel as cached_channel}
use kergit_server.Hub.Service.Reads.{
  get_hub, hub_from, get_channel, resolve_membership_role, is_hub_member, role_in, get_hub_topology,
  topology_of, get_hub_channel_ids,
}
use kergit_server.Hub.Service.Batch.{put_channels}
use kergit_server.Hub.Service.BatchKeeps.{Fills, Fills-put_channels}
use kergit_server.Hub.Service.Coherent.{
  InUse, IsCoherent, snapshot_of, Looks, Looks-cached, Loads, Loads-load,
}

module _ ⦃u : InUse⦄ where
  -- A read that answers as the repository does and keeps the caches coherent.
  pub record Reads (A : Type 0) (s : HubService) (answer : A) (r : A × HubService) : Type 0 where
    pub repo : r.1.repo ≡ s.repo
    pub answered : r.0 ≡ answer
    pub coherent : IsCoherent r.1

  hub_of_snapshot :
      (id : HubId) (db : Database) (x : HubSnapshot)
      → snapshot_of id db ≡ some x
      → some (to_hub x) ≡ Queries.get_hub id db
  unfolding snapshot_of to_hub Queries.get_hub parse_hub_row
  hub_of_snapshot id db x e = elim (Option-cases (find id db.hubs)) [
    | inl f ↦ absurd (ground (arith, e, f))
    | inr (row, f) ↦ ground (arith, e, f)
  ]

  hub_from_lem :
      (id : HubId) (w : u.used id) (s : HubService) (h : IsCoherent s)
      (r : Option HubSnapshot × HubService)
      → Looks id w s h r
      → hub_from r.0 id r.1 ≡ Queries.get_hub id s.repo
  hub_from_lem id w s h (none, t) l = ap (Queries.get_hub id) l.repo
  hub_from_lem id w s h (some x, t) l = hub_of_snapshot id s.repo x (l.found x refl)

  pub Reads-get_hub :
      (id : HubId) (s : HubService)
      → u.used id
      → IsCoherent s
      → Reads (Option Hub) s (Queries.get_hub id s.repo) (get_hub id s)
  unfolding get_hub
  Reads-get_hub id s w h =
      let l : Looks id w s h (cached id s) = Looks-cached id w s h in
      record {
        repo = l.repo;
        answered = hub_from_lem id w s h (cached id s) l;
        coherent = l.coherent;
      }

  -- The roles that a snapshot has are those of the table.
  module _ (id : HubId) (user_id : UserId) where
    abbrev role_or : Option String → Option Role → Option Role
    role_or none other = other
    role_or (some role) other = some (role_from_string role)

    find-assign_entries :
        (l : List (MemberKey × String)) (roles : Map UserId Role)
        → IsDistinct l
        → find user_id (assign_roles (select_entries (member_of id) parse_member_row l) roles)
          ≡ role_or (find_entry (member id user_id) l) (find user_id roles)
    unfolding assign_roles find_entry
    find-assign_entries [] roles d = refl
    find-assign_entries ((k, v) ∷ l) roles d = elim (dec_eq k (member id user_id)) [
      | yes e ↦ ground (
        arith,
        e,
        d.0,
        find-put k.user_id user_id (role_from_string v) roles,
        find-assign_entries l (put k.user_id (role_from_string v) roles) d.1,
      )
      | no n ↦ elim (dec_eq k.hub_id id) [
        | yes e ↦ ground (
          arith,
          e,
          n,
          find-put k.user_id user_id (role_from_string v) roles,
          find-assign_entries l (put k.user_id (role_from_string v) roles) d.1,
        )
        | no m ↦ ground (arith, n, m, find-assign_entries l roles d.1)
      ]
    ]

    roles_agree :
        (db : Database)
        → IsMap db.members
        → find user_id (assign_roles (get_hub_member_roles id db) empty)
          ≡ Queries.get_membership_role id user_id db
    unfolding get_hub_member_roles select Queries.get_membership_role find
    roles_agree db d = elim (Option-cases (find (member id user_id) db.members)) [
      | inl e ↦ ground (
        arith,
        e,
        find-assign_entries db.members.entries empty d.distinct,
        find-empty {V = Role} user_id,
      )
      | inr (role, e) ↦ ground (arith, e, find-assign_entries db.members.entries empty d.distinct)
    ]

  member_roles-snapshot_of :
      (id : HubId) (db : Database) (x : HubSnapshot)
      → snapshot_of id db ≡ some x
      → x.member_roles ≡ assign_roles (get_hub_member_roles id db) empty
  unfolding snapshot_of
  member_roles-snapshot_of id db x e = elim (Option-cases (find id db.hubs)) [
    | inl f ↦ absurd (ground (arith, e, f))
    | inr (row, f) ↦ ground (arith, e, f)
  ]

  channel_ids_of_snapshot :
      (id : HubId) (db : Database) (x : HubSnapshot)
      → snapshot_of id db ≡ some x
      → (x.channel_ids ≡ Queries.get_hub_channel_ids id db) × (is_some (find id db.hubs) ≡ true)
  unfolding snapshot_of
  channel_ids_of_snapshot id db x e = elim (Option-cases (find id db.hubs)) [
    | inl f ↦ absurd (ground (arith, e, f))
    | inr (row, f) ↦ ground (arith, e, f)
  ]

  no_hub : (id : HubId) (db : Database) → snapshot_of id db ≡ none → find id db.hubs ≡ none
  unfolding snapshot_of
  no_hub id db e = elim (Option-cases (find id db.hubs)) [
    | inl f ↦ f
    | inr (row, f) ↦ absurd (ground (arith, e, f))
  ]

  role_in-snapshot_of :
      (id : HubId) (user_id : UserId) (db : Database) (o : Option HubSnapshot)
      → IsMap db.members
      → IsSound db
      → o ≡ snapshot_of id db
      → role_in user_id o ≡ Queries.get_membership_role id user_id db
  unfolding Queries.get_membership_role
  role_in-snapshot_of id user_id db (some x) d k e =
      ap (find user_id) (member_roles-snapshot_of id db x (sym e)) ∙ roles_agree id user_id db d
  role_in-snapshot_of id user_id db none d k e = ground (arith, nobody (no_hub id db (sym e)))
    where
      nobody : find id db.hubs ≡ none → none ≡ Queries.get_membership_role id user_id db
      nobody f = elim (Option-cases (find (member id user_id) db.members)) [
        | inl g ↦ sym (rw (Queries.get_membership_role, g) refl)
        | inr (role, g) ↦ absurd (ground (arith, f, k.member_hub id user_id role g))
      ]

  module _ (s : HubService) (h : IsCoherent s) (k : IsSound s.repo) where
    pub Reads-resolve_membership_role :
        (id : HubId) (user_id : UserId)
        → u.used id
        → Reads
            (Option Role)
            s
            (Queries.get_membership_role id user_id s.repo)
            (resolve_membership_role id user_id s)
    unfolding resolve_membership_role
    Reads-resolve_membership_role id user_id w =
        let l : Loads id s (load_snapshot id s) = Loads-load id s w h in
        record {
          repo = l.repo;
          answered =
              role_in-snapshot_of id user_id s.repo (load_snapshot id s).0 h.valid.members k
                l.answer;
          coherent = l.coherent;
        }

    pub Reads-is_hub_member :
        (id : HubId) (user_id : UserId)
        → u.used id
        → Reads Bool s (Queries.is_hub_member id user_id s.repo) (is_hub_member id user_id s)
    unfolding is_hub_member Queries.is_hub_member Queries.get_membership_role
    Reads-is_hub_member id user_id w =
        let r : Reads (Option Role) s (Queries.get_membership_role id user_id s.repo)
            (resolve_membership_role id user_id s) =
          Reads-resolve_membership_role id user_id w in
        record { repo = r.repo; answered = ap is_some r.answered ∙ held; coherent = r.coherent }
      where
        held :
            is_some (Queries.get_membership_role id user_id s.repo)
            ≡ is_some (find (member id user_id) s.repo.members)
        held = elim (Option-cases (find (member id user_id) s.repo.members)) [
          | inl e ↦ ground (arith, e)
          | inr (role, e) ↦ ground (arith, e)
        ]

  module _ (id : ChannelId) (s : HubService) where
    channel_hit :
        (c : Channel) → find id s.channel_cache.cache ≡ some c → get_channel id s ≡ (some c, s)
    unfolding get_channel cached_channel
    channel_hit c e = ground (arith, e)

    channel_absent :
        find id s.channel_cache.cache ≡ none
        → Queries.get_channel id s.repo ≡ none
        → get_channel id s ≡ (none, s)
    unfolding get_channel cached_channel
    channel_absent e f = ground (arith, e, f)

    channel_fetched :
        (c : Channel)
        → find id s.channel_cache.cache ≡ none
        → Queries.get_channel id s.repo ≡ some c
        → get_channel id s ≡ (some c, put_channels (c ∷ []) s)
    unfolding get_channel cached_channel put_channel
    channel_fetched c e f = ground (arith, e, f)

    channel_id : (c : Channel) → Queries.get_channel id s.repo ≡ some c → c.id ≡ id
    unfolding Queries.get_channel parse_channel_row
    channel_id c e = elim (Option-cases (find id s.repo.channels)) [
      | inl f ↦ absurd (ground (arith, e, f))
      | inr (row, f) ↦ ground (arith, e, f)
    ]

    pub Reads-get_channel :
        IsCoherent s → Reads (Option Channel) s (Queries.get_channel id s.repo) (get_channel id s)
    Reads-get_channel h = elim (Option-cases (find id s.channel_cache.cache)) [
      | inr (c, e) ↦
          rw (channel_hit c e)
            (record { repo = refl; answered = sym (h.channels id c e); coherent = h })
      | inl e ↦ elim (Option-cases (Queries.get_channel id s.repo)) [
        | inl f ↦ rw (channel_absent e f) (record { repo = refl; answered = sym f; coherent = h })
        | inr (c, f) ↦
            let k : Fills s (put_channels (c ∷ []) s) =
              Fills-put_channels (c ∷ []) s h
                (ap (λ i. Queries.get_channel i s.repo) (channel_id c f) ∙ f, tt) in
            rw (channel_fetched c e f)
              (record { repo = k.repo; answered = sym f; coherent = k.coherent })
      ]
    ]

  -- The list of channels is that of the repository, for a hub that exists.
  module _ (id : HubId) (w : u.used id) (s : HubService) (h : IsCoherent s) where
    pub Reads-get_hub_channel_ids :
        Reads
          (List ChannelId)
          s
          (if is_some (find id s.repo.hubs) then Queries.get_hub_channel_ids id s.repo else [])
          (get_hub_channel_ids id s)
    unfolding get_hub_channel_ids get_hub_topology
    Reads-get_hub_channel_ids =
        let l : Loads id s (load_snapshot id s) = Loads-load id s w h in
        record {
          repo = l.repo;
          answered = listing (load_snapshot id s).0 l.answer;
          coherent = l.coherent;
        }
      where
        listing :
            (o : Option HubSnapshot)
            → o ≡ snapshot_of id s.repo
            → (topology_of o).channel_ids ≡ (
                if is_some (find id s.repo.hubs) then Queries.get_hub_channel_ids id s.repo else [])
        listing none e = ground (arith, no_hub id s.repo (sym e))
        listing (some x) e = ground (arith, channel_ids_of_snapshot id s.repo x (sym e))
