-- ===== src/Hub/Service/Refines.antt =====
-- The hub service against a service without caches, whose state is the database alone.
use kergit_server.Base.{
  ℕ, subst, String, Bool, true, false, List, [], ◌∷◌, ◌≡◌, All, refl, sym, ap, ◌∙◌, arith,
  Option-cases, inl, inr,
}
use kergit_server.Base.Map.{IsMap-empty, find-empty}
use kergit_server.Ids.{channel_id_key, HubId, ChannelId, hub_id_key}
use kergit_server.Cache as OnMemory
use kergit_server.Persistence.Transaction.{
  Outside, Work, Result, ok, transient, failed, stuck, write,
}
use kergit_server.Persistence.Transaction.Laws.{Settles, Fate, committed, refused, lost, write_once}
use kergit_server.Hub.Names.{role_to_string, channel_type_from_storage}
use kergit_server.Hub.Domain.{Channel}
use kergit_server.Hub.Repository as Repository
use kergit_server.Hub.Repository.{Database, HubRow, MemberKey, member, member_key}
use kergit_server.Hub.Repository.Sound.{
  create_hub_of, add_member_of, remove_member_of, rename_hub_of, update_avatar_of, delete_hub_of,
  create_channel_of, rename_channel_of, delete_channel_of, settled, perform, IsSound, no_rows,
  IsSound-no_rows,
}
use kergit_server.Hub.Repository.Sound.Keeps.{IsSound-perform}
use kergit_server.Hub.Service.{invalidate_hub_caches, HubService, init, cached}
use kergit_server.Hub.Service.Cache as Cache
use kergit_server.Hub.Service.Cache.{
  HubSnapshot, invalidate_channel, put_channel, any_key, make_key, lookup,
}
use kergit_server.Hub.Service.Writes.{
  create_hub, create_channel, rename_channel, delete_channel, rename_hub, update_hub_avatar_seed,
  delete_hub, add_member, remove_member, after_write, hub_created, members_changed, invalidate_if,
  edit_snapshot, append_channel, drop_channel, channel_created, channel_renamed, channel_deleted,
  hub_deleted,
}
use kergit_server.Hub.Service.Reads.{
  get_user_hubs, resolve_membership_role, get_hub_channel_ids, get_hub_topology,
}
use kergit_server.Hub.Service.Coherent.{InUse, IsApart, Loads-load, IsCoherent, IsCoherent-init}
use kergit_server.Hub.Service.BatchKeeps.{Fills-get_hubs_by_ids, Fills-get_channels_by_ids}
use kergit_server.Hub.Service.WarmKeeps.{Fills-warm_snapshots_for_hubs}
use kergit_server.Hub.Service.Answers.{
  Reads, Reads-get_hub, Reads-get_channel, Reads-get_hub_channel_ids,
}
use kergit_server.Hub.Service.History.{
  Call, ask_hub, ask_hubs, ask_channel, ask_channels, ask_topology, ask_role, warm_user,
  create_hub_by, create_channel_by, rename_channel_by, delete_channel_by, rename_hub_by,
  update_avatar_by, delete_hub_by, add_member_by, remove_member_by, step, run, Prompt, Known,
  IsCoherent-step, IsCurrent-user_hubs,
}

-- What a call does to the database.
unfoldable pub effect : Call → Database → Database
unfolding write Repository.create_hub Repository.create_channel Repository.rename_channel
    Repository.delete_channel Repository.rename_hub Repository.update_hub_avatar_seed
    Repository.delete_hub Repository.add_member Repository.remove_member role_to_string
effect (create_hub_by o fresh name owner) db =
    (write o (Repository.create_hub fresh name owner) db).1
effect (create_channel_by o fresh hub_id name type) db =
    (write o (Repository.create_channel fresh hub_id name type) db).1
effect (rename_channel_by o id name) db = (write o (Repository.rename_channel id name) db).1
effect (delete_channel_by o id hub_id) db = (write o (Repository.delete_channel id hub_id) db).1
effect (rename_hub_by o id name) db = (write o (Repository.rename_hub id name) db).1
effect (update_avatar_by o id seed) db = (write o (Repository.update_hub_avatar_seed id seed) db).1
effect (delete_hub_by o id owner) db = (write o (Repository.delete_hub id owner) db).1
effect (add_member_by o id user_id role) db =
    (write o (Repository.add_member id user_id (role_to_string role)) db).1
effect (remove_member_by o id user_id) db = (write o (Repository.remove_member id user_id) db).1
effect _ db = db

unfoldable pub effects : List Call → Database → Database
unfolding effect
effects [] db = db
effects (c ∷ cs) db = effects cs (effect c db)

pub repo-after_write :
    {A B : Type 0} (r : Result A × Database) (s : HubService)
    (next : A → HubService → B × HubService)
    → ((a : A) (t : HubService) → (next a t).1.repo ≡ t.repo)
    → (after_write r s next).1.repo ≡ r.1
repo-after_write (ok a, db) s next h = h a (record s { repo = db })
repo-after_write (transient, db) s next h = refl
repo-after_write (failed, db) s next h = refl
repo-after_write (stuck, db) s next h = refl

repo-cached : (id : HubId) (s : HubService) → (cached id s).1.repo ≡ s.repo
unfolding cached Cache.get OnMemory.get
repo-cached id s = elim (Option-cases (lookup id s.cache)) [
  | inl e ↦ ground (arith, e)
  | inr (Cache.snapshot x, e) ↦ ground (arith, e)
  | inr (Cache.other, e) ↦ ground (arith, e)
]

repo-edit_snapshot :
    (id : HubId) (edit : HubSnapshot → HubSnapshot) (s : HubService)
    → (edit_snapshot id edit s).repo ≡ s.repo
repo-edit_snapshot id edit s = elim (Option-cases (cached id s).0) [
  | inl e ↦ ground (arith, e, repo-cached id s)
  | inr (x, e) ↦ ground (arith, e, repo-cached id s)
]

repo-channel_created :
    (hub_id : HubId) (name type : String) (id : ChannelId) (t : HubService)
    → (channel_created hub_id name type id t).1.repo ≡ t.repo
unfolding put_channel
repo-channel_created hub_id name type id t =
    let channel : Channel = record {
      name = name;
      id = id;
      hub_id = hub_id;
      type = channel_type_from_storage type;
    } in
    repo-edit_snapshot hub_id (append_channel id)
      (record t { channel_cache = put_channel channel t.channel_cache })

repo-channel_renamed :
    (id : ChannelId) (name : String) (a : Bool) (t : HubService)
    → (channel_renamed id name a t).1.repo ≡ t.repo
repo-channel_renamed id name true t = refl
repo-channel_renamed id name false t = refl

repo-channel_deleted :
    (id : ChannelId) (hub_id : HubId) (a : Bool) (t : HubService)
    → (channel_deleted id hub_id a t).1.repo ≡ t.repo
unfolding invalidate_channel
repo-channel_deleted id hub_id true t =
    repo-edit_snapshot hub_id (drop_channel id)
      (record t { channel_cache = invalidate_channel id t.channel_cache })
repo-channel_deleted id hub_id false t = refl

repo-hub_deleted :
    (hub_id : HubId) (ids : List ChannelId) (a : Bool) (t : HubService)
    → (hub_deleted hub_id ids a t).1.repo ≡ t.repo
unfolding invalidate_hub_caches
repo-hub_deleted hub_id ids true t = refl
repo-hub_deleted hub_id ids false t = refl

repo-invalidate_if :
    (id : HubId) (a : Bool) (t : HubService) → (invalidate_if id a t).1.repo ≡ t.repo
unfolding invalidate_hub_caches
repo-invalidate_if id true t = refl
repo-invalidate_if id false t = refl

-- A write through TransactionRunner leaves sound tables, whatever becomes of its reply.
IsSound-write :
    {A : Type 0} (o : Outside) (fn : Work Database A) (db : Database)
    → IsSound db
    → IsSound (settled db (fn db))
    → IsSound (write o fn db).1
IsSound-write o fn db s k = from (write_once o fn db)
  where
    from : (fate : Fate) × Settles fate (fn db) db (write o fn db) → IsSound (write o fn db).1
    from (committed, (y, e, f)) = rw f (subst (λ x. IsSound (settled db x)) e k)
    from (refused, inl f) = rw f s
    from (refused, inr f) = rw f s
    from (lost, (y, e, inl f)) = rw f (subst (λ x. IsSound (settled db x)) e k)
    from (lost, (y, e, inr f)) = rw f (subst (λ x. IsSound (settled db x)) e k)

IsSound-effect : (c : Call) (db : Database) → IsSound db → IsSound (effect c db)
unfolding effect perform
IsSound-effect (create_hub_by o fresh name owner) db s =
    IsSound-write o (Repository.create_hub fresh name owner) db s
      (IsSound-perform (create_hub_of fresh name owner) db s)
IsSound-effect (create_channel_by o fresh hub_id name type) db s =
    IsSound-write o (Repository.create_channel fresh hub_id name type) db s
      (IsSound-perform (create_channel_of fresh hub_id name type) db s)
IsSound-effect (rename_channel_by o id name) db s =
    IsSound-write o (Repository.rename_channel id name) db s
      (IsSound-perform (rename_channel_of id name) db s)
IsSound-effect (delete_channel_by o id hub_id) db s =
    IsSound-write o (Repository.delete_channel id hub_id) db s
      (IsSound-perform (delete_channel_of id hub_id) db s)
IsSound-effect (rename_hub_by o id name) db s =
    IsSound-write o (Repository.rename_hub id name) db s
      (IsSound-perform (rename_hub_of id name) db s)
IsSound-effect (update_avatar_by o id seed) db s =
    IsSound-write o (Repository.update_hub_avatar_seed id seed) db s
      (IsSound-perform (update_avatar_of id seed) db s)
IsSound-effect (delete_hub_by o id owner) db s =
    IsSound-write o (Repository.delete_hub id owner) db s
      (IsSound-perform (delete_hub_of id owner) db s)
IsSound-effect (add_member_by o id user_id role) db s =
    IsSound-write o (Repository.add_member id user_id (role_to_string role)) db s
      (IsSound-perform (add_member_of id user_id (role_to_string role)) db s)
IsSound-effect (remove_member_by o id user_id) db s =
    IsSound-write o (Repository.remove_member id user_id) db s
      (IsSound-perform (remove_member_of id user_id) db s)
IsSound-effect (ask_hub id) db s = s
IsSound-effect (ask_hubs ids) db s = s
IsSound-effect (ask_channel id) db s = s
IsSound-effect (ask_channels ids) db s = s
IsSound-effect (ask_topology id) db s = s
IsSound-effect (ask_role id user_id) db s = s
IsSound-effect (warm_user user_id) db s = s

module _ ⦃u : InUse⦄ where
  -- A call over coherent caches does to the database what it does without caches.
  repo-step :
      (c : Call) (s : HubService) → Known c → IsCoherent s → (step c s).repo ≡ effect c s.repo
  unfolding step effect get_hub_topology resolve_membership_role get_user_hubs create_hub
      create_channel rename_channel delete_channel rename_hub update_hub_avatar_seed delete_hub
      add_member remove_member invalidate_hub_caches put_channel
  repo-step (ask_hub id) s w h = (Reads-get_hub id s w h).repo
  repo-step (ask_hubs ids) s w h = (Fills-get_hubs_by_ids ids s w h).repo
  repo-step (ask_channel id) s w h = (Reads-get_channel id s h).repo
  repo-step (ask_channels ids) s w h = (Fills-get_channels_by_ids ids s h).repo
  repo-step (ask_topology id) s w h = (Loads-load id s w h).repo
  repo-step (ask_role id user_id) s w h = (Loads-load id s w h).repo
  repo-step (warm_user user_id) s w h =
      (Fills-warm_snapshots_for_hubs _ s h (IsCurrent-user_hubs user_id s.repo h.valid.hubs)).repo
  repo-step (create_hub_by o fresh name owner) s w h =
      repo-after_write _ s hub_created (λ a t. refl)
  repo-step (create_channel_by o fresh hub_id name type) s w h =
      repo-after_write _ s (channel_created hub_id name type)
        (repo-channel_created hub_id name type)
  repo-step (rename_channel_by o id name) s w h =
      repo-after_write _ s (channel_renamed id name) (repo-channel_renamed id name)
  repo-step (delete_channel_by o id hub_id) s w h =
      repo-after_write _ s (channel_deleted id hub_id) (repo-channel_deleted id hub_id)
  repo-step (rename_hub_by o id name) s w h =
      repo-after_write _ s (invalidate_if id) (repo-invalidate_if id)
  repo-step (update_avatar_by o id seed) s w h =
      repo-after_write _ s (invalidate_if id) (repo-invalidate_if id)
  repo-step (delete_hub_by o id owner) s w h =
      let l : Reads (List ChannelId) s _ (get_hub_channel_ids id s) =
        Reads-get_hub_channel_ids id w s h in
      repo-after_write _ (get_hub_channel_ids id s).1 (hub_deleted id (get_hub_channel_ids id s).0)
        (repo-hub_deleted id (get_hub_channel_ids id s).0)
      ∙ ap (λ db. (write o (Repository.delete_hub id owner) db).1) l.repo
  repo-step (add_member_by o id user_id role) s w h =
      repo-after_write _ s (members_changed id) (λ a t. refl)
  repo-step (remove_member_by o id user_id) s w h =
      repo-after_write _ s (members_changed id) (λ a t. refl)

  -- Coherent caches over sound tables that are those of the service without caches.
  pub record Agrees (s : HubService) (db : Database) : Type 0 where
    pub coherent : IsCoherent s
    pub sound : IsSound s.repo
    pub repo : s.repo ≡ db

  pub Agrees-run :
      (cs : List Call) (s : HubService) (db : Database)
      → All Prompt cs
      → All Known cs
      → Agrees s db
      → Agrees (run cs s) (effects cs db)
  unfolding run effects
  Agrees-run [] s db p w a = a
  Agrees-run (c ∷ cs) s db p w a =
      let e : (step c s).repo ≡ effect c s.repo = repo-step c s w.0 a.coherent in
      Agrees-run cs (step c s) (effect c db) p.1 w.1 (record {
        coherent = IsCoherent-step c s p.0 w.0 a.coherent;
        sound = subst IsSound (sym e) (IsSound-effect c s.repo a.sound);
        repo = e ∙ ap (effect c) a.repo;
      })

  pub Agrees-init : (hash : HubId → ℕ) → IsApart hash → Agrees (init hash no_rows) no_rows
  unfolding init no_rows
  Agrees-init hash apart = record {
    coherent =
        IsCoherent-init hash no_rows
          (record { hubs = IsMap-empty; channels = IsMap-empty; members = IsMap-empty }) apart
          (λ id row e. absurd (ground (arith, e, find-empty {V = HubRow} id)));
    sound = IsSound-no_rows;
    repo = refl;
  }
