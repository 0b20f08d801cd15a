-- ===== src/Outbound/Worker/Tests.antt =====
-- One connection, whose socket takes every frame, with two frames to acknowledge.
use kergit_server.Base.{
  ℕ, ◌+◌, ◌≡◌, refl, true, false, none, some, List, [], ◌∷◌, arith, length, keep_if,
}
use kergit_server.Base.Map.{empty}
use kergit_server.Ids.{ConnId}
use kergit_server.Outbound.Msg.{
  OutboundPriority, Action, AuthState, SendPayload, OutboundItem, OutgoingMessage,
}
use kergit_server.Outbound.Registry.{Pending, ReliableOutbound, ConnectionContext}
use kergit_server.Outbound.Worker.{
  Transport, OutgoingWorkerConfig, Work, acknowledge, send_reliable, send_payload, flush_items,
}
use kergit_server.Outbound.Worker.Reliable.{above, acknowledge-buffer}
use kergit_server.Outbound.Worker.Payload.{reliables}
use kergit_server.Outbound.Worker.Flush.{flush_items-reliables}
use kergit_server.Outbound.Worker.Sound.{AllSound}
use kergit_server.Outbound.Worker.Lifecycle.{Call, init, run, AllSound-run}

abbrev net : Transport ℕ
net = record {
  now = λ w. (w + 1, w);
  is_backpressured = λ h w. false;
  send = λ h data_ b w. (w, true);
  end = λ h code reason w. (w, []);
  stamp_envelope_seq = λ base seq. base;
}

abbrev cfg : OutgoingWorkerConfig
cfg = record { time_budget = 0; max_per_tick = 4; retransmit_timeout = 500; max_retransmits = 8 }

abbrev conn : ConnId
conn = record { value = "a" }

abbrev frame_no : ℕ → Pending
frame_no n = record { seq = n; bytes = "x"; last_sent_at = 0; attempts = 1 }

abbrev two_frames : ReliableOutbound
two_frames = record {
  next_seq = 2;
  acked_seq = 0;
  buffer = frame_no 1 ∷ frame_no 2 ∷ [];
  capacity = 256;
}

acknowledge-buffer_example : (acknowledge 1 two_frames).buffer ≡ keep_if (above 1) two_frames.buffer
acknowledge-buffer_example = acknowledge-buffer 1 0 two_frames (refl, (refl, refl)) (omega arith)

abbrev hello : SendPayload
hello = record { payload = record { data_ = some "x"; is_binary = true }; reliable = true }

abbrev queue : List OutboundItem
queue = record { priority = OutboundPriority.high; action = Action.send_action hello } ∷ []

abbrev open_ctx : ConnectionContext
open_ctx = record {
  conn_id = conn;
  handle = some 7;
  port_index = 0;
  connected_at = 0;
  last_seen_at = 0;
  auth_state = AuthState.authenticated;
  auth_expires_at = 0;
  user_id = none;
  outbox = record { q = queue; capacity = 128; slow_hits = 0; drop_pending = false };
  reliable = two_frames;
}

abbrev work : Work ℕ
work = record { ctx = open_ctx; pending_unacked = empty; world = 0 }

no_drop : (flush_items net conn queue work).2 ≡ none
unfolding flush_items send_payload send_reliable
no_drop = refl

flush_items-reliables_example :
    reliables (flush_items net conn queue work).1
      + length (flush_items net conn queue work).0.ctx.reliable.buffer
    ≡ reliables queue + length open_ctx.reliable.buffer
flush_items-reliables_example = flush_items-reliables net conn queue work refl no_drop

abbrev message : OutgoingMessage
message = record {
  priority = OutboundPriority.high;
  conns = record { netstack_id = record { value = "ns" }; conn_id = conn } ∷ [];
  action = Action.send_action hello;
}

abbrev calls : List Call
calls = Call.opens conn (some 7) 0 ∷ Call.pushes message ∷ Call.ticks ∷ []

AllSound-run_example : AllSound cfg.max_retransmits (run net cfg calls (init 100 0)).conns_
AllSound-run_example = AllSound-run net cfg calls 100 0 (omega arith) (omega arith)
