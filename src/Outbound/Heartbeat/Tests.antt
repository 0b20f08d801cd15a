-- ===== src/Outbound/Heartbeat/Tests.antt =====
-- One authenticated connection, whose token has expired.
use kergit_server.Base.{ℕ, ◌+◌, ◌≡◌, refl, true, false, none, some, [], ◌∷◌}
use kergit_server.Base.Map.{empty, put, find, erase, keys}
use kergit_server.Ids.{ConnId, ConnId_discrete, conn_id_key}
use kergit_server.Outbound.Msg.{AuthState}
use kergit_server.Outbound.Registry.{
  ConnectionContext, connection_context, get_ids, get_view, detach,
}
use kergit_server.Outbound.Worker.{Transport, end_drop, detach_all}
use kergit_server.Outbound.Heartbeat.{
  HeartbeatConfig, HeartbeatService, verdict, judge, sweep_one, sweep, tick,
}
use kergit_server.Outbound.Heartbeat.Verdict.{Remains, tick-Remains}

abbrev net : Transport ℕ
net = record {
  now = λ w. (w + 1, w);
  is_backpressured = λ h w. false;
  send = λ h data_ b w. (w, true);
  end = λ h code reason w. (w, record { value = "a" } ∷ []);
  stamp_envelope_seq = λ base seq. base;
}

abbrev cfg : HeartbeatConfig
cfg = record {
  timeout = 75;
  auth_pending_timeout = 5;
  close_code = 4000;
  close_reason = "client_heartbeat_timeout";
}

abbrev conn : ConnId
conn = record { value = "a" }

abbrev expired : ConnectionContext
expired = record (connection_context conn (some 7) 0 0) {
  auth_state = AuthState.authenticated;
  auth_expires_at = 9;
}

abbrev service : HeartbeatService ℕ
service = record { conns_ = put conn expired empty; running_ = true; world = 20 }

closed : find conn (tick net cfg service).conns_ ≡ none
unfolding tick sweep sweep_one judge verdict get_ids get_view end_drop detach_all detach find put
    erase empty keys ConnId_discrete connection_context
closed = refl

tick-Remains_example : Remains cfg 20 service.conns_ (tick net cfg service).conns_
tick-Remains_example = tick-Remains net cfg service
