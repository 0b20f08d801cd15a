-- ===== src/Hub/Service/Membership.antt =====
-- What HubService.cpp tells its callers, after any history of calls.
use kergit_server.Base.{
  ℕ, nat_key, true, Option, none, some, List, [], ◌∷◌, ◌≡◌, All, refl, ap, ◌∙◌, arith, Option-cases,
  inl, inr,
}
use kergit_server.Base.Map.{find, put, erase, find-put, find-erase}
use kergit_server.Ids.{HubId, UserId, hub_id_key, user_id_key}
use kergit_server.Persistence.Transaction.{
  Outside, Result, ok, transient, failed, in_doubt, write, run as run_transaction, attempts,
}
use kergit_server.Persistence.Transaction.Laws.{RepliesArrive, Answered-write}
use kergit_server.Hub.RolePolicy.{Role}
use kergit_server.Hub.Domain.{Hub}
use kergit_server.Hub.Names.{role_to_string, normalize_db_role, role_round_trip}
use kergit_server.Hub.Repository as Repository
use kergit_server.Hub.Repository.{Database, member, member_key, upsert_member}
use kergit_server.Hub.Repository.Sound.{no_rows, upsert_facts}
use kergit_server.Hub.Repository.Queries as Queries
use kergit_server.Hub.Service.{invalidate_hub_caches, HubService, finish_build, init, load_snapshot}
use kergit_server.Hub.Service.Cache.{HubSnapshot, snapshot, any_key, lookup, lookup-put_snapshot}
use kergit_server.Hub.Service.Reads.{resolve_membership_role}
use kergit_server.Hub.Service.Writes.{add_member, remove_member, members_changed, after_write}
use kergit_server.Hub.Service.Coherent.{
  InUse, IsApart, cached-snapshot, hub_id-snapshot_of, snapshot_of,
}
use kergit_server.Hub.Service.Answers.{Reads, Reads-resolve_membership_role}
use kergit_server.Hub.Service.History.{
  Call, run, Prompt, add_member_by, remove_member_by, step, Known,
}
use kergit_server.Hub.Service.Refines.{
  repo-after_write, Agrees, Agrees-run, Agrees-init, effects, effect,
}

-- The database after a write that returned.
returned :
    {A B : Type 0} (r : Result A × Database) (s : HubService)
    (next : A → HubService → B × HubService) (b : B)
    → (after_write r s next).0 ≡ ok b
    → (a : A) × (r.0 ≡ ok a)
returned (ok a, db) s next b e = (a, refl)
returned (transient, db) s next b e = absurd (ground (arith, e))
returned (failed, db) s next b e = absurd (ground (arith, e))
returned (Result.stuck, db) s next b e = absurd (ground (arith, e))

module _ {A : Type 0} (o : Outside) (fn : Database → Option (A × Database)) (db : Database) where
  committed_write :
      RepliesArrive o
      → (a : A) → (write o fn db).0 ≡ ok a
      → (after : Database) × (fn db ≡ some (a, after)) × ((write o fn db).1 ≡ after)
  committed_write r a e = elim (Answered-write o fn r db) [
    | inl ((b, after), f, w) ↦
        let g : b ≡ a = ground (arith, e, w) in (after, rw (← g) f, ap (λ x. x.1) w)
    | inr (inl w) ↦ absurd (ground (arith, e, w))
    | inr (inr w) ↦ absurd (ground (arith, e, w))
  ]

member_erased :
    (hub_id : HubId) (user_id : UserId) (db after : Database) (u : Unit)
    → Repository.remove_member hub_id user_id db ≡ some (u, after)
    → Queries.get_membership_role hub_id user_id after ≡ none
unfolding Repository.remove_member Queries.get_membership_role
member_erased hub_id user_id db after u e =
    let f : after ≡ record db { members = erase (member hub_id user_id) db.members } =
      ground (arith, e) in
    rw f (ground (arith, find-erase (member hub_id user_id) (member hub_id user_id) db.members))

member_put :
    (hub_id : HubId) (user_id : UserId) (role : Role) (db after : Database) (u : Unit)
    → Repository.add_member hub_id user_id (role_to_string role) db ≡ some (u, after)
    → Queries.get_membership_role hub_id user_id after ≡ some role
unfolding Repository.add_member Queries.get_membership_role
member_put hub_id user_id role db after u e =
    let name = normalize_db_role (role_to_string role) in
    elim (Option-cases (upsert_member hub_id user_id name db)) [
      | inl f ↦ absurd (ground (arith, e, f))
      | inr (x, f) ↦
          let k = upsert_facts hub_id user_id name db x f in
          let g : after ≡ record db { members = put (member hub_id user_id) name db.members } =
            ground (arith, e, f, k.3) in
          rw g (
            ground (
              arith,
              find-put (member hub_id user_id) (member hub_id user_id) name db.members,
              role_round_trip role,
            ))
    ]

module _ ⦃u : InUse⦄ where
  role_after :
      (s : HubService) (db : Database) (hub_id : HubId) (user_id : UserId) (c : Call)
      → Agrees s db
      → Prompt c
      → Known c
      → u.used hub_id
      → (resolve_membership_role hub_id user_id (step c s)).0
        ≡ Queries.get_membership_role hub_id user_id (effect c s.repo)
  unfolding run effects
  role_after s db hub_id user_id c a p w v =
      let b : Agrees (step c s) (effect c s.repo) =
        Agrees-run (c ∷ []) s s.repo (p, tt) (w, tt)
          (record { coherent = a.coherent; sound = a.sound; repo = refl }) in
      let r : Reads (Option Role) (step c s) _ (resolve_membership_role hub_id user_id (step c s)) =
        Reads-resolve_membership_role (step c s) b.coherent b.sound hub_id user_id v in
      r.answered ∙ ap (Queries.get_membership_role hub_id user_id) b.repo

  -- Calls are made from empty tables and caches one after another, none overlapping another, the
  -- reply to each commit that is carried out arrives, and no two of the hub ids that they name have
  -- the same hash. Then, once removeMember returns, the service gives the removed user no role in
  -- the hub, whatever the calls before had put into the cache.
  pub removed_has_no_role :
      (hash : HubId → ℕ) (cs : List Call) (o : Outside) (hub_id : HubId) (user_id : UserId)
      → IsApart hash
      → All Prompt cs
      → All Known cs
      → u.used hub_id
      → RepliesArrive o
      → (remove_member o hub_id user_id (run cs (init hash no_rows))).0 ≡ ok tt
      → (resolve_membership_role hub_id user_id
          (remove_member o hub_id user_id (run cs (init hash no_rows))).1).0
        ≡ none
  unfolding step effect remove_member
  removed_has_no_role hash cs o hub_id user_id apart p w v r e =
      let s = run cs (init hash no_rows) in
      let a : Agrees s (effects cs no_rows) =
        Agrees-run cs (init hash no_rows) no_rows p w (Agrees-init hash apart) in
      let (done, f) =
        returned (write o (Repository.remove_member hub_id user_id) s.repo) s
          (members_changed hub_id) tt e in
      let (after, g, k) =
        committed_write o (Repository.remove_member hub_id user_id) s.repo r done f in
      role_after s (effects cs no_rows) hub_id user_id (remove_member_by o hub_id user_id) a r v v
      ∙ ap (Queries.get_membership_role hub_id user_id) k
      ∙ member_erased hub_id user_id s.repo after done g

  -- Calls are made from empty tables and caches one after another, none overlapping another, the
  -- reply to each commit that is carried out arrives, and no two of the hub ids that they name have
  -- the same hash. Then, once addMember returns, reading the user's role gives the role that was
  -- written, through its name in the database, whether the user was a member before or not.
  pub added_role_round_trip :
      (hash : HubId → ℕ) (cs : List Call) (o : Outside) (hub_id : HubId) (user_id : UserId)
      (role : Role)
      → IsApart hash
      → All Prompt cs
      → All Known cs
      → u.used hub_id
      → RepliesArrive o
      → (add_member o hub_id user_id role (run cs (init hash no_rows))).0 ≡ ok tt
      → (resolve_membership_role hub_id user_id
          (add_member o hub_id user_id role (run cs (init hash no_rows))).1).0
        ≡ some role
  unfolding step effect add_member
  added_role_round_trip hash cs o hub_id user_id role apart p w v r e =
      let s = run cs (init hash no_rows) in
      let a : Agrees s (effects cs no_rows) =
        Agrees-run cs (init hash no_rows) no_rows p w (Agrees-init hash apart) in
      let fn = Repository.add_member hub_id user_id (role_to_string role) in
      let (done, f) = returned (write o fn s.repo) s (members_changed hub_id) tt e in
      let (after, g, k) = committed_write o fn s.repo r done f in
      role_after s (effects cs no_rows) hub_id user_id (add_member_by o hub_id user_id role) a r v v
      ∙ ap (Queries.get_membership_role hub_id user_id) k
      ∙ member_put hub_id user_id role s.repo after done g

lost_write :
    {A : Type 0} (o : Outside) (fn : Database → Option (A × Database)) (db after : Database) (a : A)
    → o.lease ≡ true
    → o.attempt 1 ≡ in_doubt true
    → fn db ≡ some (a, after)
    → write o fn db ≡ (failed, after)
unfolding write run_transaction attempts
lost_write o fn db after a l b e = rw (write, run_transaction, l) (rw (b, e) refl)

-- A read of a role from a cached snapshot.
cached_role :
    (s : HubService) (hub_id : HubId) (user_id : UserId) (x : HubSnapshot)
    → lookup hub_id s.cache ≡ some (snapshot x)
    → (resolve_membership_role hub_id user_id s).0 ≡ find user_id x.member_roles
unfolding resolve_membership_role load_snapshot
cached_role s hub_id user_id x e = ground (arith, cached-snapshot hub_id s x e)

-- Where the connection is lost in the commit of removeMember and the database has committed, the
-- in_doubt_error of the library reaches the caller as it is, and the hub's snapshot stays in the
-- cache: the removed user keeps the role that was cached, though the database has none.
pub lost_reply_keeps_role :
    (o : Outside) (hub_id : HubId) (user_id : UserId) (role : Role) (x : HubSnapshot)
    (s : HubService)
    → o.lease ≡ true
    → o.attempt 1 ≡ in_doubt true
    → lookup hub_id s.cache ≡ some (snapshot x)
    → find user_id x.member_roles ≡ some role
    → ((remove_member o hub_id user_id s).0 ≡ failed)
      × ((resolve_membership_role hub_id user_id (remove_member o hub_id user_id s).1).0
          ≡ some role)
      × (Queries.get_membership_role hub_id user_id (remove_member o hub_id user_id s).1.repo
          ≡ none)
unfolding remove_member Repository.remove_member
lost_reply_keeps_role o hub_id user_id role x s l b c f =
    let after : Database = record s.repo {
      members = erase (member hub_id user_id) s.repo.members;
    } in
    let w : write o (Repository.remove_member hub_id user_id) s.repo ≡ (failed, after) =
      lost_write o (Repository.remove_member hub_id user_id) s.repo after tt l b refl in
    let r : remove_member o hub_id user_id s ≡ (failed, record s { repo = after }) =
      ap (λ q. after_write q s (members_changed hub_id)) w in
    rw r (
      refl,
      cached_role (record s { repo = after }) hub_id user_id x c ∙ f,
      member_erased hub_id user_id s.repo after tt refl,
    )

-- Where one worker reads a hub's tables to build its snapshot, another worker's removeMember runs
-- and returns, and only then the first puts its snapshot: the removed user has the role that was
-- read, though the database has none.
pub raced_build_keeps_role :
    (s : HubService) (o : Outside) (hub_id : HubId) (user_id : UserId) (role : Role)
    (x : HubSnapshot)
    → RepliesArrive o
    → snapshot_of hub_id s.repo ≡ some x
    → find user_id x.member_roles ≡ some role
    → (remove_member o hub_id user_id s).0 ≡ ok tt
    → ((resolve_membership_role hub_id user_id
          (finish_build x (remove_member o hub_id user_id s).1)).0
        ≡ some role)
      × (Queries.get_membership_role hub_id user_id
            (finish_build x (remove_member o hub_id user_id s).1).repo
          ≡ none)
unfolding remove_member invalidate_hub_caches
raced_build_keeps_role s o hub_id user_id role x r b f e =
    let t = (remove_member o hub_id user_id s).1 in
    let (u, g) =
      returned (write o (Repository.remove_member hub_id user_id) s.repo) s (members_changed hub_id)
        tt e in
    let (after, k, w) = committed_write o (Repository.remove_member hub_id user_id) s.repo r u g in
    let key : x.hub_id ≡ hub_id = hub_id-snapshot_of hub_id s.repo x b in
    (
      cached_role (finish_build x t) hub_id user_id x
            (ground (arith, key, lookup-put_snapshot x hub_id t.cache))
          ∙ f,
      ap (Queries.get_membership_role hub_id user_id) (
            repo-after_write (write o (Repository.remove_member hub_id user_id) s.repo) s
              (members_changed hub_id) (λ a v. refl)
            ∙ w)
          ∙ member_erased hub_id user_id s.repo after u k,
    )
