-- ===== src/Hub/Repository/Queries.antt =====
-- The reads of infra/persistence/repositories/HubRepository.cpp.
use kergit_server.Base.{String, Bool, Option, none, some, List, [], ◌∷◌, ◌++◌, if◌then◌else◌}
use kergit_server.Base.Map.{Map, find, elem, is_nil, empty, contains}
use kergit_server.Base.Map.Table.{select, keys_where, group, same}
use kergit_server.Ids.{HubId, ChannelId, UserId, hub_id_key, channel_id_key, user_id_key}
use kergit_server.Hub.RolePolicy.{Role}
use kergit_server.Hub.Domain.{Hub, make_hub, set_member_role, Channel}
use kergit_server.Hub.Names.{role_from_string, channel_type_from_string}
use kergit_server.Hub.Repository.{
  HubRow, ChannelRow, MemberKey, Database, member, member_key, in_hub,
}

pub record MemberRole : Type 0 where
  pub user_id : UserId
  pub role : Role

unfoldable pub parse_channel_row : ChannelId → ChannelRow → Channel
parse_channel_row id row = record {
  name = row.name;
  id = id;
  hub_id = row.hub_id;
  type = channel_type_from_string row.type;
}

unfoldable pub parse_hub_row : HubId → HubRow → Hub
unfolding make_hub
parse_hub_row id row = record (make_hub row.name id row.owner_id) { avatar_seed = row.avatar_seed }

abbrev pub parse_member_row : MemberKey → String → MemberRole
parse_member_row key role = record { user_id = key.user_id; role = role_from_string role }

abbrev pub member_of : HubId → MemberKey → String → Bool
member_of hub_id key role = same key.hub_id hub_id

unfoldable pub get_hub : HubId → Database → Option Hub
unfolding parse_hub_row
get_hub hub_id db = elim (find hub_id db.hubs) [
  | none ↦ none
  | some row ↦ some (parse_hub_row hub_id row)
]

unfoldable pub get_hubs_by_ids : List HubId → Database → List Hub
unfolding select parse_hub_row elem
get_hubs_by_ids hub_ids db =
    if is_nil hub_ids then [] else select (λ id row. elem id hub_ids) parse_hub_row db.hubs

unfoldable pub get_channel : ChannelId → Database → Option Channel
unfolding parse_channel_row
get_channel channel_id db = elim (find channel_id db.channels) [
  | none ↦ none
  | some row ↦ some (parse_channel_row channel_id row)
]

unfoldable pub get_channels_by_ids : List ChannelId → Database → List Channel
unfolding select parse_channel_row elem
get_channels_by_ids channel_ids db =
    if is_nil channel_ids
    then []
    else select (λ id row. elem id channel_ids) parse_channel_row db.channels

unfoldable pub get_hub_channels : HubId → Database → List Channel
unfolding select parse_channel_row
get_hub_channels hub_id db = select (λ id row. in_hub hub_id row) parse_channel_row db.channels

-- `ORDER BY hub_id` has no effect on the grouped result.
unfoldable pub get_hub_channels_by_hub_ids : List HubId → Database → Map HubId (List Channel)
unfolding select parse_channel_row group elem
get_hub_channels_by_hub_ids hub_ids db =
    if is_nil hub_ids
    then empty
    else group
        (select (λ id row. elem row.hub_id hub_ids)
          (λ id row. (row.hub_id, parse_channel_row id row)) db.channels)
        empty

unfoldable pub is_hub_member : HubId → UserId → Database → Bool
is_hub_member hub_id user_uuid db = contains (member hub_id user_uuid) db.members

unfoldable pub get_membership_role : HubId → UserId → Database → Option Role
get_membership_role hub_id user_uuid db = elim (find (member hub_id user_uuid) db.members) [
  | none ↦ none
  | some role ↦ some (role_from_string role)
]

unfoldable pub get_hub_member_roles : HubId → Database → List MemberRole
unfolding select
get_hub_member_roles hub_id db = select (member_of hub_id) parse_member_row db.members

unfoldable pub get_hub_member_roles_by_hub_ids : List HubId → Database → Map HubId (List MemberRole)
unfolding select group elem
get_hub_member_roles_by_hub_ids hub_ids db =
    if is_nil hub_ids
    then empty
    else group
        (select (λ key role. elem key.hub_id hub_ids)
          (λ key role. (key.hub_id, parse_member_row key role)) db.members)
        empty

abbrev set_member_roles : List MemberRole → Hub → Hub
set_member_roles [] hub = hub
set_member_roles (m ∷ ms) hub = set_member_roles ms (set_member_role m.user_id m.role hub)

unfoldable pub get_hub_with_members : HubId → Database → Option Hub
unfolding parse_hub_row select set_member_role
get_hub_with_members hub_id db = elim (find hub_id db.hubs) [
  | none ↦ none
  | some row ↦ some (
      set_member_roles (select (member_of hub_id) parse_member_row db.members)
        (parse_hub_row hub_id row))
]

abbrev pub joined_hubs : UserId → Map MemberKey String → List (HubId × HubRow) → List Hub
joined_hubs user_id members [] = []
joined_hubs user_id members ((id, row) ∷ rows) = elim (find (member id user_id) members) [
  | none ↦ joined_hubs user_id members rows
  | some role ↦
      joined_hubs user_id members rows
      ++ (set_member_role user_id (role_from_string role) (parse_hub_row id row) ∷ [])
]

-- ORDER BY created_at DESC
unfoldable pub get_user_hubs : UserId → Database → List Hub
unfolding parse_hub_row set_member_role
get_user_hubs user_uuid db = joined_hubs user_uuid db.members db.hubs.entries

unfoldable pub get_hub_channel_ids : HubId → Database → List ChannelId
unfolding keys_where
get_hub_channel_ids hub_id db = keys_where (in_hub hub_id) db.channels

unfoldable pub get_hub_channel_ids_by_hub_ids : List HubId → Database → Map HubId (List ChannelId)
unfolding select group elem
get_hub_channel_ids_by_hub_ids hub_ids db =
    if is_nil hub_ids
    then empty
    else group (select (λ id row. elem row.hub_id hub_ids) (λ id row. (row.hub_id, id)) db.channels)
        empty
