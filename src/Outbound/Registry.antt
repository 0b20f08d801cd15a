-- ===== src/Outbound/Registry.antt =====
-- net/connection/ConnectionRegistery.{h,cpp}: the contexts of the connections of one network thread.
use kergit_server.Base.{ℕ, Bool, false, Option, none, some, List, [], ◌∷◌, String}
use kergit_server.Base.Map.{Map, keys, find, put, emplace, erase}
use kergit_server.Ids.{ConnId, UserId, GlobalConnId, conn_id_key}
use kergit_server.Outbound.Msg.{AuthState, OutboundItem}

-- The address of a socket; a `WsHandle` with a null pointer is `none`.
abbrev pub WsHandle : Type 0
WsHandle = Option ℕ

pub record PerConnectionOutbox : Type 0 where
  pub q : List OutboundItem
  pub capacity : ℕ
  pub slow_hits : ℕ
  pub drop_pending : Bool

-- `ReliableOutbound::Pending`.
pub record Pending : Type 0 where
  pub seq : ℕ
  pub bytes : String
  pub last_sent_at : ℕ
  pub attempts : ℕ

pub record ReliableOutbound : Type 0 where
  pub next_seq : ℕ
  pub acked_seq : ℕ
  pub buffer : List Pending
  pub capacity : ℕ

pub record ConnectionContext : Type 0 where
  pub conn_id : ConnId
  pub handle : WsHandle
  pub port_index : ℕ
  pub connected_at : ℕ
  pub last_seen_at : ℕ
  pub auth_state : AuthState
  pub auth_expires_at : ℕ
  pub user_id : Option UserId
  pub outbox : PerConnectionOutbox
  pub reliable : ReliableOutbound

-- The constructor of a context, at the time `now`.
unfoldable pub connection_context : ConnId → WsHandle → ℕ → ℕ → ConnectionContext
connection_context conn h port_idx now = record {
  conn_id = conn;
  handle = h;
  port_index = port_idx;
  connected_at = now;
  last_seen_at = now;
  auth_state = AuthState.auth_pending;
  auth_expires_at = 0;
  user_id = none;
  outbox = record { q = []; capacity = 128; slow_hits = 0; drop_pending = false };
  reliable = record { next_seq = 0; acked_seq = 0; buffer = []; capacity = 256 };
}

pub record ConnectionView : Type 0 where
  pub conn_id : ConnId
  pub handle : WsHandle
  pub auth_state : AuthState
  pub auth_expires_at : ℕ
  pub connected_at : ℕ
  pub last_seen_at : ℕ
  pub user_id : Option UserId

abbrev pub ConnectionRegistery : Type 0
ConnectionRegistery = Map ConnId ConnectionContext

unfoldable pub attach : ConnId → ConnectionContext → ConnectionRegistery → ConnectionRegistery
attach conn_id context conns = emplace conn_id context conns

unfoldable pub detach : ConnId → ConnectionRegistery → ConnectionRegistery
detach conn_id conns = erase conn_id conns

-- `none` is the error.
unfoldable pub get : ConnId → ConnectionRegistery → Option ConnectionContext
get conn_id conns = find conn_id conns

unfoldable pub get_many : List GlobalConnId → ConnectionRegistery → List (Option ConnectionContext)
get_many [] conns = []
get_many (g ∷ gs) conns = find g.conn_id conns ∷ get_many gs conns

abbrev pub view_of : ConnectionContext → ConnectionView
view_of ctx = record {
  conn_id = ctx.conn_id;
  handle = ctx.handle;
  auth_state = ctx.auth_state;
  auth_expires_at = ctx.auth_expires_at;
  connected_at = ctx.connected_at;
  last_seen_at = ctx.last_seen_at;
  user_id = ctx.user_id;
}

unfoldable pub get_view : ConnId → ConnectionRegistery → Option ConnectionView
get_view conn_id conns = elim (find conn_id conns) [ none ↦ none | some ctx ↦ some (view_of ctx) ]

unfoldable pub get_ids : ConnectionRegistery → List ConnId
get_ids conns = keys conns

-- `none` is the error of a missing connection.
unfoldable pub mutate :
    ConnId
    → (ConnectionContext → ConnectionContext)
    → ConnectionRegistery
    → Option ConnectionRegistery
mutate conn_id mutator conns = elim (find conn_id conns) [
  | none ↦ none
  | some ctx ↦ some (put conn_id (mutator ctx) conns)
]
