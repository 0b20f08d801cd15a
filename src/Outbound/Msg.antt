-- ===== src/Outbound/Msg.antt =====
-- net/outbound/Msg.h: the actions that the application hands to the network threads.
use kergit_server.Base.{ℕ, Bool, true, false, Option, List, String}
use kergit_server.Ids.{GlobalConnId, UserId}

pub data OutboundPriority : Type 0 where
  high low : OutboundPriority

-- `data` is a shared pointer, which may be null.
pub record Payload : Type 0 where
  pub data_ : Option String
  pub is_binary : Bool

pub record SendPayload : Type 0 where
  pub payload : Payload
  pub reliable : Bool

-- `AuthState` of net/connection/ConnectionRegistery.h.
pub data AuthState : Type 0 where
  auth_pending authenticated auth_failed : AuthState

abbrev pub is_failed : AuthState → Bool
is_failed auth_failed = true
is_failed _ = false

-- Time points are numbers of clock ticks.
pub record UpdateAuthState : Type 0 where
  pub state : AuthState
  pub expires_at : ℕ
  pub user_id : Option UserId

pub record DropConnection : Type 0 where
  pub code : ℕ
  pub reason : String

pub data Action : Type 0 where
  send_action : SendPayload → Action
  auth_action : UpdateAuthState → Action
  drop_action : DropConnection → Action

pub record OutgoingMessage : Type 0 where
  pub priority : OutboundPriority
  pub conns : List GlobalConnId
  pub action : Action

pub record OutboundItem : Type 0 where
  pub priority : OutboundPriority
  pub action : Action

abbrev pub is_low : OutboundPriority → Bool
is_low low = true
is_low high = false
