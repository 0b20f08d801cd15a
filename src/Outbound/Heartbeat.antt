-- ===== src/Outbound/Heartbeat.antt =====
-- net/runtime/HeartbeatService.{h,cpp}: the sweep that closes silent and unauthenticated connections.
--
-- The timer is left out; `running_` is the flag that `start` sets and `stop` clears.
pub mod Verdict
mod Tests
use kergit_server.Base.{
  ℕ, ◌+◌, Bool, true, false, Option, none, some, List, [], ◌∷◌, String, ltb, leb, if◌then◌else◌,
  is_some,
}
use kergit_server.Base.Map.{put, find}
use kergit_server.Ids.{ConnId, conn_id_key}
use kergit_server.Outbound.Msg.{AuthState, auth_pending, authenticated, auth_failed, DropConnection}
use kergit_server.Outbound.Registry.{
  ConnectionContext, ConnectionView, ConnectionRegistery, get_ids, get_view, mutate,
}
use kergit_server.Outbound.Worker.{Transport, end_drop}

pub record HeartbeatConfig : Type 0 where
  pub timeout : ℕ
  pub auth_pending_timeout : ℕ
  pub close_code : ℕ
  pub close_reason : String

pub record HeartbeatService (W : Type 0) : Type 0 where
  pub conns_ : ConnectionRegistery
  pub running_ : Bool
  pub world : W

abbrev pub failed : ConnectionContext → ConnectionContext
failed ctx = record ctx { auth_state = auth_failed }

-- What the sweep does to a connection with an open socket: `none` leaves it; otherwise it is closed,
-- and before that marked as failed if the flag says so.
unfoldable pub verdict : HeartbeatConfig → ℕ → ConnectionView → Option (Bool × DropConnection)
verdict cfg now view = elim view.auth_state [
  | auth_failed ↦ some (false, record { code = 4401; reason = "auth_failed" })
  | auth_pending ↦
      if leb (view.connected_at + cfg.auth_pending_timeout) now
      then some (true, record { code = 4403; reason = "auth_timeout" })
      else none
  | authenticated ↦
      if leb view.auth_expires_at now
      then some (true, record { code = 4402; reason = "auth_token_expired" })
      else if ltb (view.last_seen_at + cfg.timeout) now
      then some (false, record { code = cfg.close_code; reason = cfg.close_reason })
      else none
]

-- `mutate`, whose error is ignored.
abbrev pub mutated :
    ConnId → (ConnectionContext → ConnectionContext) → ConnectionRegistery → ConnectionRegistery
mutated id f conns = elim (find id conns) [ none ↦ conns | some ctx ↦ put id (f ctx) conns ]

module _ {W : Type 0} (net : Transport W) where
  unfoldable pub on_open : ConnId → HeartbeatService W → HeartbeatService W
  on_open conn_id s = elim (find conn_id s.conns_) [
    | none ↦ s
    | some ctx ↦
        let time = net.now s.world in
        record s {
          conns_ =
              put conn_id (record ctx { connected_at = time.1; last_seen_at = time.1 }) s.conns_;
          world = time.0;
        }
  ]

  unfoldable pub note_seen : ConnId → HeartbeatService W → HeartbeatService W
  note_seen conn_id s =
      let time = net.now s.world in
      record s {
        conns_ = mutated conn_id (λ ctx. record ctx { last_seen_at = time.1 }) s.conns_;
        world = time.0;
      }

  unfoldable pub judge :
      ConnId
      → ConnectionView
      → Option (Bool × DropConnection)
      → ConnectionRegistery
      → W
      → ConnectionRegistery × W
  unfolding end_drop
  judge id view none conns w = (conns, w)
  judge id view (some (mark, d)) conns w =
      end_drop net view.handle d (if mark then mutated id failed conns else conns) w

  unfoldable pub sweep_one :
      HeartbeatConfig → ℕ → ConnId → ConnectionRegistery → W → ConnectionRegistery × W
  unfolding get_view verdict judge
  sweep_one cfg now id conns w = elim (get_view id conns) [
    | none ↦ (conns, w)
    | some view ↦
        if is_some view.handle then judge id view (verdict cfg now view) conns w else (conns, w)
  ]

  unfoldable pub sweep :
      HeartbeatConfig → ℕ → List ConnId → ConnectionRegistery → W → ConnectionRegistery × W
  unfolding sweep_one
  sweep cfg now [] conns w = (conns, w)
  sweep cfg now (id ∷ ids) conns w =
      let next = sweep_one cfg now id conns w in sweep cfg now ids next.0 next.1

  unfoldable pub tick : HeartbeatConfig → HeartbeatService W → HeartbeatService W
  unfolding get_ids sweep
  tick cfg s =
      let time = net.now s.world in
      let swept = sweep cfg time.1 (get_ids s.conns_) s.conns_ time.0 in
      if s.running_ then record s { conns_ = swept.0; world = swept.1 } else s
