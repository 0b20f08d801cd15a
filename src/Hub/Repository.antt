-- ===== src/Hub/Repository.antt =====
-- infra/persistence/repositories/HubRepository.cpp with the tables, constraints and triggers of
-- infra/persistence/sql/002_hubs.sql and 003_channels.sql. A table lists its rows in the order of
-- creation, which is the order of `created_at` and `joined_at`; no statement writes `position`, so
-- it is 0 in every row. Identifiers are in the spelling that PostgreSQL prints. The role of a
-- member stands by its name, which the joins with hub_roles give.
pub mod Queries
pub mod Sound
use kergit_server.Base.{
  ℕ, String, String_discrete, Bool, true, false, not, ◌||◌, ◌&&◌, Option, none, some, length, leb,
  is_some, Key, discrete_by₂, string_key, if◌then◌else◌,
}
use kergit_server.Base.Map.{Map, find, put, erase, contains, empty}
use kergit_server.Base.Map.Table.{keys_where, delete_where, delete_keys, holds, same}
use kergit_server.Persistence.Transaction.{Work}
use kergit_server.Ids.{
  HubId, ChannelId, UserId, HubId_discrete, UserId_discrete, hub_id_key, channel_id_key,
  user_id_key,
}
use kergit_server.Hub.RolePolicy.{Role, owner}
use kergit_server.Hub.Domain.{Hub, make_hub}
use kergit_server.Hub.Names.{normalize_db_role}

-- kergit_app.hubs, less the primary key.
pub record HubRow : Type 0 where
  pub name : String
  pub owner_id : UserId
  pub avatar_seed : String

-- kergit_app.channels, less the primary key.
pub record ChannelRow : Type 0 where
  pub hub_id : HubId
  pub name : String
  pub type : String

-- The primary key of kergit_app.hub_members.
pub record MemberKey : Type 0 where
  pub hub_id : HubId
  pub user_id : UserId

unfoldable pub MemberKey_discrete : Discrete MemberKey
unfolding HubId_discrete UserId_discrete String_discrete
MemberKey_discrete =
    discrete_by₂ (λ g. g.hub_id) (λ g. g.user_id)
      (λ a b e f. λ i. record { hub_id = e i; user_id = f i }) HubId_discrete UserId_discrete

instance abbrev pub member_key : Key MemberKey
member_key = record { dec = MemberKey_discrete }

abbrev pub member : HubId → UserId → MemberKey
member hub_id user_id = record { hub_id = hub_id; user_id = user_id }

pub record Database : Type 0 where
  pub hubs : Map HubId HubRow
  pub channels : Map ChannelId ChannelRow
  pub members : Map MemberKey String

abbrev pub in_hub : HubId → ChannelRow → Bool
in_hub hub_id row = same row.hub_id hub_id

abbrev pub owned_by : UserId → HubRow → Bool
owned_by user_id row = same row.owner_id user_id

-- The foreign key and prevent_invalid_owner_role, then `ON CONFLICT DO UPDATE`.
unfoldable pub upsert_member : HubId → UserId → String → Database → Option Database
upsert_member hub_id user_id role db = elim (find hub_id db.hubs) [
  | none ↦ none
  | some row ↦
      if same role "owner" && not (owned_by user_id row)
      then none
      else some (record db { members = put (member hub_id user_id) role db.members })
]

-- A write by a constraint's failure is `none`; otherwise the reply and the tables it leaves.
abbrev pub Write : Type 0 → Type 0
Write A = Work Database A

-- The trigger enforce_max_hubs_per_owner, then ensure_owner_membership. `fresh` is what
-- gen_random_uuid() gives.
unfoldable pub create_hub : HubId → String → UserId → Write Hub
unfolding keys_where make_hub upsert_member
create_hub fresh hub_name owner_uuid db =
    if leb 2 (length (keys_where (owned_by owner_uuid) db.hubs)) || contains fresh db.hubs
    then none
    else let row : HubRow = record {
      name = hub_name;
      owner_id = owner_uuid;
      avatar_seed = "Felix";
    } in
      elim (upsert_member fresh owner_uuid "owner" (record db { hubs = put fresh row db.hubs })) [
        | none ↦ none
        | some after ↦
            some (record (make_hub hub_name fresh owner_uuid) { avatar_seed = "Felix" }, after)
      ]

unfoldable pub add_member : HubId → UserId → String → Write Unit
unfolding upsert_member normalize_db_role
add_member hub_id user_uuid role db =
    elim (upsert_member hub_id user_uuid (normalize_db_role role) db) [
      | none ↦ none
      | some after ↦ some (tt, after)
    ]

unfoldable pub remove_member : HubId → UserId → Write Unit
remove_member hub_id user_uuid db =
    some (tt, record db { members = erase (member hub_id user_uuid) db.members })

unfoldable pub rename_hub : HubId → String → Write Bool
rename_hub hub_id name db = elim (find hub_id db.hubs) [
  | none ↦ some (false, db)
  | some row ↦ some (true, record db { hubs = put hub_id (record row { name = name }) db.hubs })
]

unfoldable pub update_hub_avatar_seed : HubId → String → Write Bool
update_hub_avatar_seed hub_id seed db = elim (find hub_id db.hubs) [
  | none ↦ some (false, db)
  | some row ↦
      some (true, record db { hubs = put hub_id (record row { avatar_seed = seed }) db.hubs })
]

-- `ON DELETE CASCADE` takes the channels and the members.
unfoldable pub delete_hub : HubId → UserId → Write Bool
unfolding delete_where delete_keys
delete_hub hub_id owner_uuid db =
    if holds (owned_by owner_uuid) (find hub_id db.hubs)
    then some (
      true,
      record {
        hubs = erase hub_id db.hubs;
        channels = delete_where (in_hub hub_id) db.channels;
        members = delete_keys (λ key. same key.hub_id hub_id) db.members;
      },
    )
    else some (false, db)

-- channels_type_check, the foreign key, the trigger enforce_max_channels_per_hub and the primary
-- key.
abbrev pub creation_refused : ChannelId → HubId → String → Database → Bool
creation_refused fresh hub_id type db =
    not (same type "text" || same type "voice")
    || not (contains hub_id db.hubs)
    || leb 3 (length (keys_where (in_hub hub_id) db.channels))
    || contains fresh db.channels

unfoldable pub create_channel : ChannelId → HubId → String → String → Write ChannelId
unfolding keys_where
create_channel fresh hub_id channel_name type db =
    if creation_refused fresh hub_id type db
    then none
    else let row : ChannelRow = record { hub_id = hub_id; name = channel_name; type = type } in
      some (fresh, record db { channels = put fresh row db.channels })

unfoldable pub rename_channel : ChannelId → String → Write Bool
rename_channel channel_id name db = elim (find channel_id db.channels) [
  | none ↦ some (false, db)
  | some row ↦
      some (true, record db { channels = put channel_id (record row { name = name }) db.channels })
]

unfoldable pub delete_channel : ChannelId → HubId → Write Bool
delete_channel channel_id hub_id db =
    if holds (in_hub hub_id) (find channel_id db.channels)
    then some (true, record db { channels = erase channel_id db.channels })
    else some (false, db)
