-- ===== src/Hub/RolePolicy.antt =====
-- app/services/hub/RolePolicy.h: who may invite, kick and change roles.
pub mod Laws
mod Tests
use kergit_server.Base.{Bool, true, false, not, ◌&&◌, ◌||◌, ite, dec_eq, Key, if◌then◌else◌}
use kergit_server.Ids.{UserId, user_id_key}

-- `Role` of domains/Hub.h.
pub data Role : Type 0 where
  user admin owner : Role

unfoldable pub role_eq : Role → Role → Bool
role_eq user user = true
role_eq admin admin = true
role_eq owner owner = true
role_eq _ _ = false

abbrev pub same_user : UserId → UserId → Bool
same_user a b = ite (dec_eq a b) true false

unfoldable pub can_invite : Role → Bool
unfolding role_eq
can_invite actor = role_eq actor owner || role_eq actor admin

unfoldable pub can_kick_hub_member : Role → Role → UserId → UserId → Bool
unfolding role_eq
can_kick_hub_member actor target actor_id target_id =
    if same_user actor_id target_id
    then false
    else if role_eq target owner
    then false
    else if role_eq actor owner
    then role_eq target admin || role_eq target user
    else if role_eq actor admin
    then role_eq target user
    else false

unfoldable pub can_kick_voice_participant : Role → Role → UserId → UserId → Bool
unfolding can_kick_hub_member
can_kick_voice_participant = can_kick_hub_member

unfoldable pub can_change_member_role : Role → Role → Role → UserId → UserId → Bool
unfolding role_eq
can_change_member_role actor target desired actor_id target_id =
    if not (role_eq actor owner)
    then false
    else if same_user actor_id target_id
    then false
    else if role_eq target owner
    then false
    else if role_eq desired owner
    then false
    else if not (role_eq desired admin) && not (role_eq desired user)
    then false
    else if not (role_eq target admin) && not (role_eq target user)
    then false
    else if role_eq target desired
    then false
    else true
