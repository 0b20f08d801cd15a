-- ===== src/Hub/RolePolicy/Laws.antt =====
-- The policy as an order on roles: one acts on another user of strictly lower rank.
use kergit_server.Base.{ℕ, ◌<◌, ◌≡◌, ◌≢◌, ◌↔◌, true, arith}
use kergit_server.Ids.{UserId}
use kergit_server.Hub.RolePolicy.{
  Role, user, admin, owner, can_kick_hub_member, can_change_member_role,
}

abbrev pub rank : Role → ℕ
rank user = 0
rank admin = 1
rank owner = 2

-- One may kick exactly another user of strictly lower rank, whatever the two roles.
pub kick_iff :
    (actor target : Role) (actor_id target_id : UserId)
    → (can_kick_hub_member actor target actor_id target_id ≡ true)
      ↔ ((actor_id ≢ target_id) × (rank target < rank actor))
unfolding can_kick_hub_member
kick_iff user user a b = ground arith
kick_iff user admin a b = ground arith
kick_iff user owner a b = ground arith
kick_iff admin user a b = ground arith
kick_iff admin admin a b = ground arith
kick_iff admin owner a b = ground arith
kick_iff owner user a b = ground arith
kick_iff owner admin a b = ground arith
kick_iff owner owner a b = ground arith

-- A role is changed exactly by an owner, for another user who is not an owner, to a different
-- role below the owner's.
pub change_role_iff :
    (actor target desired : Role) (actor_id target_id : UserId)
    → (can_change_member_role actor target desired actor_id target_id ≡ true) ↔ (
        (rank actor ≡ 2)
        × (actor_id ≢ target_id)
        × (rank target < 2)
        × (rank desired < 2)
        × (rank target ≢ rank desired))
unfolding can_change_member_role
change_role_iff owner user user a b = ground arith
change_role_iff owner user admin a b = ground arith
change_role_iff owner user owner a b = ground arith
change_role_iff owner admin user a b = ground arith
change_role_iff owner admin admin a b = ground arith
change_role_iff owner admin owner a b = ground arith
change_role_iff owner owner user a b = ground arith
change_role_iff owner owner admin a b = ground arith
change_role_iff owner owner owner a b = ground arith
change_role_iff admin target desired a b = ground arith
change_role_iff user target desired a b = ground arith
