-- ===== src/Hub/Service.antt =====
-- app/services/hub/HubService.cpp: the hub service, its two caches over the repository. A handler
-- takes the state and gives its answer with the state after it. Reads of the repository answer; a
-- write goes through TransactionRunner, whose outside is an argument. The class holds no lock, so
-- that a call is one step leaves out what overlapping calls do to each other.
pub mod Cache
pub mod Batch
pub mod Reads
pub mod Writes
pub mod Coherent
pub mod Touches
pub mod Keeps
pub mod Edit
pub mod ChannelEffects
pub mod ChannelKeeps
pub mod DeleteHub
pub mod BatchKeeps
pub mod WarmKeeps
pub mod Answers
pub mod History
pub mod Refines
pub mod Membership
mod Tests
use kergit_server.Base.{ℕ, Option, none, some, List, [], ◌∷◌, inl, inr}
use kergit_server.Base.Map.{Map, put, empty}
use kergit_server.Ids.{HubId, UserId, user_id_key}
use kergit_server.Cache as OnMemory
use kergit_server.Hub.RolePolicy.{Role}
use kergit_server.Hub.Domain.{Hub, make_hub}
use kergit_server.Hub.Repository.{Database}
use kergit_server.Hub.Repository.Queries.{
  MemberRole, get_hub, get_hub_channel_ids, get_hub_member_roles,
}
use Cache
use Cache.{
  HubSnapshot, HubCache, ChannelCache, not_found, corrupted_entry, put_snapshot, invalidate,
}

pub record HubService : Type 0 where
  pub repo : Database
  pub cache : HubCache
  pub channel_cache : ChannelCache

unfoldable pub init : (HubId → ℕ) → Database → HubService
unfolding OnMemory.init
init hash db = record {
  repo = db;
  cache = record { hash = hash; cache_ = OnMemory.init };
  channel_cache = record { cache = empty };
}

unfoldable pub to_hub : HubSnapshot → Hub
unfolding make_hub
to_hub s = record (make_hub s.name s.hub_id s.owner_id) { avatar_seed = s.avatar_seed }

-- `insert_or_assign` of every member.
unfoldable pub assign_roles : List MemberRole → Map UserId Role → Map UserId Role
assign_roles [] roles = roles
assign_roles (m ∷ ms) roles = assign_roles ms (put m.user_id m.role roles)

-- The lookup that the handlers begin with: a corrupted entry is invalidated.
unfoldable pub cached : HubId → HubService → Option HubSnapshot × HubService
unfolding Cache.get invalidate
cached hub_id s =
    let found = Cache.get hub_id s.cache in
    elim found.0 [
      | inl snapshot ↦ (some snapshot, record s { cache = found.1 })
      | inr not_found ↦ (none, record s { cache = found.1 })
      | inr corrupted_entry ↦ (none, record s { cache = invalidate hub_id found.1 })
    ]

-- The last step of buildSnapshot. No lock is held from its reads to this.
abbrev pub finish_build : HubSnapshot → HubService → HubService
finish_build snapshot s = record s { cache = put_snapshot snapshot s.cache }

unfoldable pub build_snapshot : HubId → HubService → Option HubSnapshot × HubService
unfolding get_hub get_hub_channel_ids get_hub_member_roles assign_roles put_snapshot
build_snapshot hub_id s = elim (get_hub hub_id s.repo) [
  | none ↦ (none, s)
  | some hub ↦
      let snapshot : HubSnapshot = record {
        hub_id = hub.id;
        owner_id = hub.owner;
        name = hub.name;
        avatar_seed = hub.avatar_seed;
        channel_ids = get_hub_channel_ids hub_id s.repo;
        member_roles = assign_roles (get_hub_member_roles hub_id s.repo) empty;
      } in
      (some snapshot, record s { cache = put_snapshot snapshot s.cache })
]

unfoldable pub load_snapshot : HubId → HubService → Option HubSnapshot × HubService
unfolding cached build_snapshot
load_snapshot hub_id s =
    let found = cached hub_id s in
    elim found.0 [ some snapshot ↦ (some snapshot, found.1) | none ↦ build_snapshot hub_id found.1 ]

unfoldable pub invalidate_hub_caches : HubId → HubService → HubService
unfolding invalidate
invalidate_hub_caches hub_id s = record s { cache = invalidate hub_id s.cache }
