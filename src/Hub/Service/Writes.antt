-- ===== src/Hub/Service/Writes.antt =====
-- HubService.cpp: the operations that write to the repository and keep the caches up.
use kergit_server.Base.{
  Option, String, Bool, true, false, none, some, List, [], ◌∷◌, ◌++◌, if◌then◌else◌,
}
use kergit_server.Base.Map.{elem}
use kergit_server.Base.Map.Table.{remove}
use kergit_server.Ids.{HubId, ChannelId, UserId, hub_id_key, channel_id_key}
use kergit_server.Persistence.Transaction.{Outside, Result, ok, transient, failed, stuck, write}
use kergit_server.Hub.RolePolicy.{Role}
use kergit_server.Hub.Domain.{Hub, Channel}
use kergit_server.Hub.Names.{role_to_string, channel_type_from_storage}
use kergit_server.Hub.Repository as Repository
use kergit_server.Hub.Repository.{Database}
use kergit_server.Hub.Service.{HubService, cached, invalidate_hub_caches}
use kergit_server.Hub.Service.Cache.{
  HubSnapshot, ChannelCache, put_snapshot, put_channel, get_channel, invalidate_channel,
}
use kergit_server.Hub.Service.Reads.{get_hub_channel_ids}

-- What follows a write when it returned, with the database it leaves; an exception leaves the
-- caches alone.
abbrev pub after_write :
    {A B : Type 0}
    → Result A × Database
    → HubService
    → (A → HubService → B × HubService)
    → Result B × HubService
after_write (ok a, db) s next = let r = next a (record s { repo = db }) in (ok r.0, r.1)
after_write (transient, db) s next = (transient, record s { repo = db })
after_write (failed, db) s next = (failed, record s { repo = db })
after_write (stuck, db) s next = (stuck, record s { repo = db })

-- Change the cached snapshot of a hub, if there is one.
abbrev pub edit_snapshot : HubId → (HubSnapshot → HubSnapshot) → HubService → HubService
edit_snapshot hub_id edit s =
    let found = cached hub_id s in
    elim found.0 [
      | none ↦ found.1
      | some snapshot ↦ record found.1 { cache = put_snapshot (edit snapshot) found.1.cache }
    ]

abbrev pub hub_created : Hub → HubService → Hub × HubService
hub_created hub t = (hub, invalidate_hub_caches hub.id t)

abbrev pub members_changed : HubId → Unit {0} → HubService → Unit {0} × HubService
members_changed hub_id done t = (tt, invalidate_hub_caches hub_id t)

abbrev pub invalidate_if : HubId → Bool → HubService → Bool × HubService
invalidate_if hub_id result t = (result, if result then invalidate_hub_caches hub_id t else t)

-- A channel that is listed already leaves the snapshot as it is.
abbrev pub append_channel : ChannelId → HubSnapshot → HubSnapshot
append_channel id snapshot =
    if elem id snapshot.channel_ids
    then snapshot
    else record snapshot { channel_ids = snapshot.channel_ids ++ (id ∷ []) }

abbrev pub channel_created :
    HubId → String → String → ChannelId → HubService → ChannelId × HubService
channel_created hub_id name type id t =
    let channel : Channel = record {
      name = name;
      id = id;
      hub_id = hub_id;
      type = channel_type_from_storage type;
    } in
    (
      id,
      edit_snapshot hub_id (append_channel id)
          (record t { channel_cache = put_channel channel t.channel_cache }),
    )

-- Rename the cached channel in place; `found` is what the cache has under the identifier.
abbrev pub rename_cached : Option Channel → ChannelId → String → ChannelCache → ChannelCache
rename_cached (some channel) channel_id new_name c =
    put_channel (record channel { name = new_name }) c
rename_cached none channel_id new_name c = invalidate_channel channel_id c

abbrev pub channel_renamed : ChannelId → String → Bool → HubService → Bool × HubService
channel_renamed channel_id new_name false t = (false, t)
channel_renamed channel_id new_name true t = (
  true,
  record t {
    channel_cache =
        rename_cached (get_channel channel_id t.channel_cache) channel_id new_name t.channel_cache;
  },
)

abbrev pub drop_channel : ChannelId → HubSnapshot → HubSnapshot
drop_channel id snapshot = record snapshot { channel_ids = remove id snapshot.channel_ids }

abbrev pub channel_deleted : ChannelId → HubId → Bool → HubService → Bool × HubService
channel_deleted channel_id hub_id false t = (false, t)
channel_deleted channel_id hub_id true t = (
  true,
  edit_snapshot hub_id (drop_channel channel_id)
      (record t { channel_cache = invalidate_channel channel_id t.channel_cache }),
)

abbrev pub invalidate_channels : List ChannelId → ChannelCache → ChannelCache
invalidate_channels [] c = c
invalidate_channels (id ∷ ids) c = invalidate_channels ids (invalidate_channel id c)

abbrev pub hub_deleted : HubId → List ChannelId → Bool → HubService → Bool × HubService
hub_deleted hub_id ids false t = (false, t)
hub_deleted hub_id ids true t =
    let u = invalidate_hub_caches hub_id t in
    (true, record u { channel_cache = invalidate_channels ids u.channel_cache })

module _ (o : Outside) where
  unfoldable pub create_hub : HubId → String → UserId → HubService → Result Hub × HubService
  unfolding write Repository.create_hub invalidate_hub_caches
  create_hub fresh name owner s =
      after_write (write o (Repository.create_hub fresh name owner) s.repo) s hub_created

  unfoldable pub create_channel :
      ChannelId → HubId → String → String → HubService → Result ChannelId × HubService
  unfolding write Repository.create_channel channel_type_from_storage put_channel put_snapshot
      cached elem
  create_channel fresh hub_id name type s =
      after_write (write o (Repository.create_channel fresh hub_id name type) s.repo) s
        (channel_created hub_id name type)

  unfoldable pub rename_channel : ChannelId → String → HubService → Result Bool × HubService
  unfolding write Repository.rename_channel get_channel put_channel invalidate_channel
  rename_channel channel_id new_name s =
      after_write (write o (Repository.rename_channel channel_id new_name) s.repo) s
        (channel_renamed channel_id new_name)

  unfoldable pub delete_channel : ChannelId → HubId → HubService → Result Bool × HubService
  unfolding write Repository.delete_channel invalidate_channel put_snapshot cached remove
  delete_channel channel_id hub_id s =
      after_write (write o (Repository.delete_channel channel_id hub_id) s.repo) s
        (channel_deleted channel_id hub_id)

  unfoldable pub rename_hub : HubId → String → HubService → Result Bool × HubService
  unfolding write Repository.rename_hub invalidate_hub_caches
  rename_hub hub_id name s =
      after_write (write o (Repository.rename_hub hub_id name) s.repo) s (invalidate_if hub_id)

  unfoldable pub update_hub_avatar_seed : HubId → String → HubService → Result Bool × HubService
  unfolding write Repository.update_hub_avatar_seed invalidate_hub_caches
  update_hub_avatar_seed hub_id seed s =
      after_write (write o (Repository.update_hub_avatar_seed hub_id seed) s.repo) s
        (invalidate_if hub_id)

  unfoldable pub delete_hub : HubId → UserId → HubService → Result Bool × HubService
  unfolding get_hub_channel_ids write Repository.delete_hub invalidate_hub_caches invalidate_channel
  delete_hub hub_id owner s =
      let ids = get_hub_channel_ids hub_id s in
      after_write (write o (Repository.delete_hub hub_id owner) ids.1.repo) ids.1
        (hub_deleted hub_id ids.0)

  unfoldable pub add_member : HubId → UserId → Role → HubService → Result Unit × HubService
  unfolding write Repository.add_member role_to_string invalidate_hub_caches
  add_member hub_id user_id role s =
      after_write (write o (Repository.add_member hub_id user_id (role_to_string role)) s.repo) s
        (members_changed hub_id)

  unfoldable pub remove_member : HubId → UserId → HubService → Result Unit × HubService
  unfolding write Repository.remove_member invalidate_hub_caches
  remove_member hub_id user_id s =
      after_write (write o (Repository.remove_member hub_id user_id) s.repo) s
        (members_changed hub_id)
