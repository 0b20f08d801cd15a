-- ===== src/Hub/Service/Keeps.antt =====
-- The writes of HubService.cpp keep the caches coherent.
use kergit_server.Base.{
  String, Bool, true, false, some, ◌≡◌, refl, arith, Option-cases, inl, inr, string_key,
}
use kergit_server.Base.Map.{find}
use kergit_server.Ids.{HubId, UserId, hub_id_key, channel_id_key, user_id_key}
use kergit_server.Persistence.Transaction.{Outside}
use kergit_server.Persistence.Transaction.Laws.{RepliesArrive}
use kergit_server.Hub.RolePolicy.{Role}
use kergit_server.Hub.Names.{role_to_string}
use kergit_server.Hub.Repository as Repository
use kergit_server.Hub.Repository.{
  Database, HubRow, ChannelRow, MemberKey, in_hub, owned_by, member_key,
}
use kergit_server.Hub.Service.{HubService}
use kergit_server.Hub.Service.Writes.{
  create_hub, rename_hub, update_hub_avatar_seed, add_member, remove_member, invalidate_if,
  hub_created, members_changed,
}
use kergit_server.Hub.Service.Coherent.{
  InUse, IsCoherent, Touches, IsCoherent-touch, IsCoherent-write,
}
use kergit_server.Hub.Service.Touches.{
  Touches-create_hub, Touches-add_member, Touches-remove_member, Touches-rename_hub,
  Touches-update_hub_avatar_seed,
}

rename_hub-false :
    (hub_id : HubId) (name : String) (db after : Database) (a : Bool)
    → Repository.rename_hub hub_id name db ≡ some (a, after)
    → a ≡ false
    → after ≡ db
unfolding Repository.rename_hub
rename_hub-false hub_id name db after a e f = elim (Option-cases (find hub_id db.hubs)) [
  | inl n ↦ ground (arith, e, n)
  | inr (row, n) ↦ absurd (ground (arith, e, n, f))
]

update_hub_avatar_seed-false :
    (hub_id : HubId) (seed : String) (db after : Database) (a : Bool)
    → Repository.update_hub_avatar_seed hub_id seed db ≡ some (a, after)
    → a ≡ false
    → after ≡ db
unfolding Repository.update_hub_avatar_seed
update_hub_avatar_seed-false hub_id seed db after a e f =
    elim (Option-cases (find hub_id db.hubs)) [
      | inl n ↦ ground (arith, e, n)
      | inr (row, n) ↦ absurd (ground (arith, e, n, f))
    ]

module _ ⦃u : InUse⦄ where
  module _ (o : Outside) (replies : RepliesArrive o) (s : HubService) (h : IsCoherent s) where
    pub IsCoherent-create_hub :
        (fresh : HubId) (name : String) (owner : UserId)
        → u.used fresh
        → IsCoherent (create_hub o fresh name owner s).1
    unfolding create_hub
    IsCoherent-create_hub fresh name owner w =
        IsCoherent-write o (Repository.create_hub fresh name owner) s hub_created replies h
          (λ hub db e.
            let t : Touches fresh s.repo db × (hub.id ≡ fresh) =
              Touches-create_hub fresh name owner s.repo db hub h.valid e in
            rw t.1 (IsCoherent-touch fresh s db w h t.0))

    pub IsCoherent-add_member :
        (hub_id : HubId) (user_id : UserId) (role : Role)
        → u.used hub_id
        → IsCoherent (add_member o hub_id user_id role s).1
    unfolding add_member
    IsCoherent-add_member hub_id user_id role w =
        IsCoherent-write o (Repository.add_member hub_id user_id (role_to_string role)) s
          (members_changed hub_id) replies h
          (λ done db e.
            IsCoherent-touch hub_id s db w h
              (Touches-add_member hub_id user_id (role_to_string role) s.repo db done h.valid e))

    pub IsCoherent-remove_member :
        (hub_id : HubId) (user_id : UserId)
        → u.used hub_id
        → IsCoherent (remove_member o hub_id user_id s).1
    unfolding remove_member
    IsCoherent-remove_member hub_id user_id w =
        IsCoherent-write o (Repository.remove_member hub_id user_id) s (members_changed hub_id)
          replies h
          (λ done db e.
            IsCoherent-touch hub_id s db w h
              (Touches-remove_member hub_id user_id s.repo db done h.valid e))

    IsCoherent-invalidate_if :
        (hub_id : HubId) (a : Bool) (db : Database)
        → (a ≡ false → db ≡ s.repo)
        → u.used hub_id
        → Touches hub_id s.repo db
        → IsCoherent (invalidate_if hub_id a (record s { repo = db })).1
    IsCoherent-invalidate_if hub_id true db e w t = IsCoherent-touch hub_id s db w h t
    IsCoherent-invalidate_if hub_id false db e w t = rw (e refl) h

    pub IsCoherent-rename_hub :
        (hub_id : HubId) (name : String) → u.used hub_id → IsCoherent (rename_hub o hub_id name s).1
    unfolding rename_hub
    IsCoherent-rename_hub hub_id name w =
        IsCoherent-write o (Repository.rename_hub hub_id name) s (invalidate_if hub_id) replies h
          (λ a db e.
            IsCoherent-invalidate_if hub_id a db (λ f. rename_hub-false hub_id name s.repo db a e f)
              w (Touches-rename_hub hub_id name s.repo db a h.valid e))

    pub IsCoherent-update_hub_avatar_seed :
        (hub_id : HubId) (seed : String)
        → u.used hub_id
        → IsCoherent (update_hub_avatar_seed o hub_id seed s).1
    unfolding update_hub_avatar_seed
    IsCoherent-update_hub_avatar_seed hub_id seed w =
        IsCoherent-write o (Repository.update_hub_avatar_seed hub_id seed) s (invalidate_if hub_id)
          replies h
          (λ a db e.
            IsCoherent-invalidate_if hub_id a db
              (λ f. update_hub_avatar_seed-false hub_id seed s.repo db a e f) w
              (Touches-update_hub_avatar_seed hub_id seed s.repo db a h.valid e))
