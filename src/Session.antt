-- ===== src/Session.antt =====
-- app/managers/session/SessionManager: the logical sessions of authenticated users.
--
-- Each method is one function, which `mutex_` makes one step. `active_users` is the counter of
-- utils/Metrics.h that the manager keeps. Logging is not modelled.
pub mod Invariant
pub mod Attach
pub mod Remove
pub mod Lifecycle
mod Tests
use kergit_server.Base.{
  ℕ, ◌+◌, ◌-◌, ◌%◌, ◌^◌, Bool, true, false, not, ◌&&◌, Option, none, some, List, [], ◌∷◌, ◌++◌, ltb,
  leb, nat_key, inc64, is_some, if◌then◌else◌,
}
use kergit_server.Base.Map.{
  Map, Set, empty, is_empty, size, keys, find, contains, put, emplace, erase, insert,
}
use kergit_server.Base.Nested.{row, drop}
use kergit_server.Ids.{GlobalConnId, UserId, HubId, ChannelId, global_conn_id_key, user_id_key}

abbrev pub SessionId : Type 0
SessionId = ℕ

pub record SessionInfo : Type 0 where
  pub current_hub : Option HubId
  pub current_channel : Option ChannelId

abbrev pub new_info : SessionInfo
new_info = record { current_hub = none; current_channel = none }

pub record SessionManager : Type 0 where
  pub max_sessions_per_user_ : ℕ
  pub next_session_id_ : ℕ
  pub sessions_ : Map UserId SessionInfo
  pub conn_to_session_ : Map GlobalConnId UserId
  pub conn_to_session_id_ : Map GlobalConnId SessionId
  pub session_id_to_user_ : Map SessionId UserId
  pub session_id_to_conns_ : Map SessionId (Set GlobalConnId)
  pub user_to_session_ids_ : Map UserId (Set SessionId)
  pub active_users : ℕ

unfoldable pub init : ℕ → SessionManager
init limit = record {
  max_sessions_per_user_ = limit;
  next_session_id_ = 0;
  sessions_ = empty;
  conn_to_session_ = empty;
  conn_to_session_id_ = empty;
  session_id_to_user_ = empty;
  session_id_to_conns_ = empty;
  user_to_session_ids_ = empty;
  active_users = 0;
}

-- `userHasActiveSessionsLocked`
abbrev pub user_has_active_sessions : UserId → SessionManager → Bool
user_has_active_sessions user m = not (is_empty (row (find user m.user_to_session_ids_)))

-- The test for the limit; 0 is no limit.
abbrev pub at_limit : UserId → SessionManager → Bool
at_limit user m =
    ltb 0 m.max_sessions_per_user_
    && is_some (find user m.user_to_session_ids_)
    && leb m.max_sessions_per_user_ (size (row (find user m.user_to_session_ids_)))

pub data AttachResult : Type 0 where
  attached : SessionId → AttachResult
  session_limit_exceeded : AttachResult

-- The end of `attachConnection`, with the minted id.
unfoldable pub open_session : SessionId → GlobalConnId → UserId → SessionManager → SessionManager
open_session id conn user m = record m {
  next_session_id_ = id;
  sessions_ = emplace user new_info m.sessions_;
  conn_to_session_ = put conn user m.conn_to_session_;
  conn_to_session_id_ = put conn id m.conn_to_session_id_;
  session_id_to_user_ = put id user m.session_id_to_user_;
  session_id_to_conns_ =
      put id (insert conn (row (find id m.session_id_to_conns_))) m.session_id_to_conns_;
  user_to_session_ids_ =
      put user (insert id (row (find user m.user_to_session_ids_))) m.user_to_session_ids_;
  active_users = if user_has_active_sessions user m then m.active_users else inc64 m.active_users;
}

unfoldable pub attach_connection :
    GlobalConnId → UserId → SessionManager → SessionManager × AttachResult
unfolding open_session
attach_connection conn user m = elim (find conn m.conn_to_session_id_) [
  | some existing ↦ (m, attached existing)
  | none ↦
      if at_limit user m
      then (m, session_limit_exceeded)
      else (let id = inc64 m.next_session_id_ in (open_session id conn user m, attached id))
]

-- The last step of `removeConnection`: the user's own state goes with the last session.
unfoldable pub forget_idle_user : UserId → SessionManager → SessionManager
forget_idle_user user m = if user_has_active_sessions user m then m else (record m {
  sessions_ = erase user m.sessions_;
  active_users = (m.active_users + 2 ^ 64 - 1) % 2 ^ 64;
})

-- `removeConnection` once the session has no connection left.
unfoldable pub close_session : SessionId → UserId → SessionManager → SessionManager
unfolding forget_idle_user drop
close_session id user m = forget_idle_user user (record m {
  session_id_to_user_ = erase id m.session_id_to_user_;
  user_to_session_ids_ = elim (find user m.user_to_session_ids_) [
    | none ↦ m.user_to_session_ids_
    | some ids ↦ (drop user id ids m.user_to_session_ids_).0
  ];
})

-- `removeConnection` once the connection is out of the two transport maps.
unfoldable pub detach_session : GlobalConnId → SessionId → UserId → SessionManager → SessionManager
unfolding close_session
detach_session conn id user m = elim (find id m.session_id_to_conns_) [
  | none ↦ close_session id user m
  | some conns ↦
      let rest = erase conn conns in
      if is_empty rest
      then close_session id user
          (record m { session_id_to_conns_ = erase id m.session_id_to_conns_ })
      else (record m { session_id_to_conns_ = put id rest m.session_id_to_conns_ })
]

unfoldable pub remove_connection : GlobalConnId → SessionManager → SessionManager
unfolding detach_session
remove_connection conn m = elim (find conn m.conn_to_session_) [
  | none ↦ record m { conn_to_session_id_ = erase conn m.conn_to_session_id_ }
  | some user ↦ elim (find conn m.conn_to_session_id_) [
    | none ↦ record m { conn_to_session_ = erase conn m.conn_to_session_ }
    | some id ↦ detach_session conn id user (record m {
      conn_to_session_ = erase conn m.conn_to_session_;
      conn_to_session_id_ = erase conn m.conn_to_session_id_;
    })
  ]
]

unfoldable pub join_text_channel : UserId → HubId → ChannelId → SessionManager → SessionManager
join_text_channel user hub channel m = elim (find user m.sessions_) [
  | none ↦ m
  | some info ↦ record m {
    sessions_ =
        put user (record { current_hub = some hub; current_channel = some channel }) m.sessions_;
  }
]

-- Only the hub is reset.
unfoldable pub leave_text_channel : UserId → SessionManager → SessionManager
leave_text_channel user m = elim (find user m.sessions_) [
  | none ↦ m
  | some info ↦ record m { sessions_ = put user (record info { current_hub = none }) m.sessions_ }
]

abbrev pub has_session : UserId → SessionManager → Bool
has_session = user_has_active_sessions

abbrev pub session_of_connection : GlobalConnId → SessionManager → Option UserId
session_of_connection conn m = find conn m.conn_to_session_

abbrev pub session_id_of_connection : GlobalConnId → SessionManager → Option SessionId
session_id_of_connection conn m = find conn m.conn_to_session_id_

abbrev pub get_session : UserId → SessionManager → Option SessionInfo
get_session user m = find user m.sessions_

unfoldable pub get_session_id_connections : SessionId → SessionManager → List GlobalConnId
get_session_id_connections id m = keys (row (find id m.session_id_to_conns_))

unfoldable pub get_user_session_ids : UserId → SessionManager → List SessionId
get_user_session_ids user m = keys (row (find user m.user_to_session_ids_))

-- The loop of `collectUserConnectionsLocked`.
unfoldable pub collect : List SessionId → SessionManager → List GlobalConnId
collect [] m = []
collect (id ∷ ids) m = keys (row (find id m.session_id_to_conns_)) ++ collect ids m

-- `getSessionConnections`
unfoldable pub get_session_connections : UserId → SessionManager → List GlobalConnId
unfolding collect
get_session_connections user m = collect (keys (row (find user m.user_to_session_ids_))) m

unfoldable pub session_id_has_connections : SessionId → SessionManager → Bool
session_id_has_connections id m = not (is_empty (row (find id m.session_id_to_conns_)))

abbrev pub active_entries : List (UserId × Set SessionId) → List UserId
active_entries [] = []
active_entries ((user, ids) ∷ rest) =
    if is_empty ids then active_entries rest else user ∷ active_entries rest

unfoldable pub active_user_list : SessionManager → List UserId
active_user_list m = active_entries m.user_to_session_ids_.entries
