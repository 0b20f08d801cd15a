-- ===== src/Hub/Repository/Sound.antt =====
-- What the constraints and triggers keep true of the tables, whatever writes are made.
pub mod Keeps
use kergit_server.Base.{
  ℕ, ◌+◌, ◌≤◌, ◌<◌, String, Bool, true, false, not, ◌||◌, ◌&&◌, Option, none, some, List, [], ◌∷◌,
  ◌++◌, ◌≡◌, ◌≢◌, refl, sym, ap, ◌∙◌, arith, Option-cases, Bool-cases, inl, inr, ite, dec_eq,
  is_some, length, leb, leb→le, length-append, string_key, if◌then◌else◌,
}
use kergit_server.Base.Map.{
  Map, find, put, erase, contains, IsMap, find-put, find-erase, empty, find-empty, IsMap-empty,
  IsMap-put, IsMap-erase,
}
use kergit_server.Base.Map.Table.{
  same, holds, keys_where, keys_where-new, keys_where-old, keys_where-erase, keys_where-delete,
  remove, delete_where, delete_keys, find-delete_where, find-delete_keys,
}
use kergit_server.Ids.{HubId, ChannelId, UserId, hub_id_key, channel_id_key, user_id_key}
use kergit_server.Hub.Domain.{Hub}
use kergit_server.Hub.Names.{normalize_db_role}
use kergit_server.Hub.Repository.{
  Database, HubRow, ChannelRow, MemberKey, member, member_key, in_hub, owned_by, upsert_member,
  create_hub, add_member, remove_member, rename_hub, update_hub_avatar_seed, delete_hub,
  create_channel, rename_channel, delete_channel,
}

-- The writes of HubRepository, with the identifiers that the database generates.
pub data Statement : Type 0 where
  create_hub_of : HubId → String → UserId → Statement
  add_member_of : HubId → UserId → String → Statement
  remove_member_of : HubId → UserId → Statement
  rename_hub_of : HubId → String → Statement
  update_avatar_of : HubId → String → Statement
  delete_hub_of : HubId → UserId → Statement
  create_channel_of : ChannelId → HubId → String → String → Statement
  rename_channel_of : ChannelId → String → Statement
  delete_channel_of : ChannelId → HubId → Statement

-- The tables after a write; one that throws is rolled back.
abbrev pub settled : {A : Type 0} → Database → Option (A × Database) → Database
settled db none = db
settled db (some (a, after)) = after

unfoldable pub perform : Statement → Database → Database
unfolding create_hub add_member remove_member rename_hub update_hub_avatar_seed delete_hub
    create_channel rename_channel delete_channel
perform (create_hub_of fresh name owner) db = settled db (create_hub fresh name owner db)
perform (add_member_of hub_id user_id role) db = settled db (add_member hub_id user_id role db)
perform (remove_member_of hub_id user_id) db = settled db (remove_member hub_id user_id db)
perform (rename_hub_of hub_id name) db = settled db (rename_hub hub_id name db)
perform (update_avatar_of hub_id seed) db = settled db (update_hub_avatar_seed hub_id seed db)
perform (delete_hub_of hub_id owner) db = settled db (delete_hub hub_id owner db)
perform (create_channel_of fresh hub_id name type) db =
    settled db (create_channel fresh hub_id name type db)
perform (rename_channel_of channel_id name) db = settled db (rename_channel channel_id name db)
perform (delete_channel_of channel_id hub_id) db = settled db (delete_channel channel_id hub_id db)

unfoldable pub execute : List Statement → Database → Database
unfolding perform
execute [] db = db
execute (st ∷ sts) db = execute sts (perform st db)

unfoldable pub no_rows : Database
no_rows = record { hubs = empty; channels = empty; members = empty }

-- Channels have distinct keys, members and channels are of hubs that exist, only a hub's owner has the role of owner, and the
-- limits of two hubs for an owner and three channels for a hub hold.
pub record IsSound (db : Database) : Type 0 where
  pub member_hub :
      (h : HubId) (u : UserId) (role : String)
      → find (member h u) db.members ≡ some role
      → is_some (find h db.hubs) ≡ true
  pub channel_hub :
      (c : ChannelId) (row : ChannelRow)
      → find c db.channels ≡ some row
      → is_some (find row.hub_id db.hubs) ≡ true
  pub owner_role :
      (h : HubId) (u : UserId) (row : HubRow)
      → find h db.hubs ≡ some row
      → find (member h u) db.members ≡ some "owner"
      → u ≡ row.owner_id
  pub channel_limit : (h : HubId) → length (keys_where (in_hub h) db.channels) ≤ 3
  pub channel_keys : IsMap db.channels
  pub hub_limit : (u : UserId) → length (keys_where (owned_by u) db.hubs) ≤ 2

pub IsSound-no_rows : IsSound no_rows
unfolding no_rows keys_where find empty
IsSound-no_rows = record {
  member_hub = λ h u role e. absurd (ground (arith, e));
  channel_hub = λ c row e. absurd (ground (arith, e));
  owner_role = λ h u row e. absurd (ground (arith, e));
  channel_limit = λ h. ground arith;
  channel_keys = IsMap-empty;
  hub_limit = λ u. ground arith;
}

pub upsert_facts :
    (h : HubId) (u : UserId) (role : String) (db after : Database)
    → upsert_member h u role db ≡ some after
    → (row : HubRow) × (find h db.hubs ≡ some row)
      × (role ≡ "owner" → u ≡ row.owner_id)
      × (after ≡ record db { members = put (member h u) role db.members })
unfolding upsert_member
upsert_facts h u role db after e = elim (Option-cases (find h db.hubs)) [
  | inl f ↦ absurd (ground (arith, e, f))
  | inr (row, f) ↦
      let g : after ≡ record db { members = put (member h u) role db.members } =
        ground (arith, e, f) in
      (row, f, (λ k. ground (arith, e, f, k)), g)
]
