-- ===== src/Outbound/Worker/Lifecycle.antt =====
-- Every history of a network thread keeps all its connections sound.
use kergit_server.Base.{
  ℕ, ltb, ◌+◌, ◌^◌, ◌≤◌, ◌<◌, refl, List, [], ◌∷◌, Bool-cases, Option-cases, inl, inr,
}
use kergit_server.Base.Map.{find, empty, is_empty, keys}
use kergit_server.Ids.{ConnId, conn_id_key}
use kergit_server.Outbound.Msg.{OutgoingMessage}
use kergit_server.Outbound.Registry.{WsHandle, connection_context, attach, detach}
use kergit_server.Outbound.Queue
use kergit_server.Outbound.Queue.{OutgoingQueue, push_impl, try_pop}
use kergit_server.Outbound.Worker.{
  Transport, OutgoingWorkerConfig, OutgoingWorker, acknowledge, on_ack,
}
use kergit_server.Outbound.Worker.Sweep.{sweep_all, retransmit_sweep}
use kergit_server.Outbound.Worker.Tick.{drain_loop, flush_loop, tick}
use kergit_server.Outbound.Worker.Sound.{
  AllSound, AllSound-empty, AllSound-put, AllSound-detach, IsSound-connection, AllSound-attach,
  IsSound-acknowledge,
}
use kergit_server.Outbound.Worker.Passes.{
  AllSound-flush_loop, AllSound-drain, AllSound-sweep_all, AllSound-end_all,
}

-- What happens to a network thread: a connection opens or closes, the application pushes a
-- message, a client acknowledges, or the timer fires.
pub data Call : Type 0 where
  opens : ConnId → WsHandle → ℕ → Call
  closes : ConnId → Call
  pushes : OutgoingMessage → Call
  acks : ConnId → ℕ → Call
  ticks : Call

unfoldable pub init : {W : Type 0} → ℕ → W → OutgoingWorker W
unfolding Queue.init
init capacity w = record {
  conns_ = empty;
  out_q_ = Queue.init capacity;
  pending_unacked_conns_ = empty;
  world = w;
}

module _ {W : Type 0} (net : Transport W) (cfg : OutgoingWorkerConfig) where
  unfoldable pub step : Call → OutgoingWorker W → OutgoingWorker W
  unfolding attach detach push_impl on_ack tick connection_context
  step (Call.opens c h port) s =
      let time = net.now s.world in
      record s { conns_ = attach c (connection_context c h port time.1) s.conns_; world = time.0 }
  step (Call.closes c) s = record s { conns_ = detach c s.conns_ }
  step (Call.pushes msg) s = record s { out_q_ = (push_impl msg s.out_q_).0 }
  step (Call.acks c ack) s = on_ack c ack s
  step Call.ticks s = tick net cfg s

  unfoldable pub run : List Call → OutgoingWorker W → OutgoingWorker W
  unfolding step
  run [] s = s
  run (c ∷ cs) s = run cs (step c s)

module _ {W : Type 0} (net : Transport W) (cfg : OutgoingWorkerConfig) where
  AllSound-retransmit :
      (s : OutgoingWorker W)
      → cfg.max_retransmits < 2 ^ 16
      → AllSound cfg.max_retransmits s.conns_
      → AllSound cfg.max_retransmits (retransmit_sweep net cfg s).conns_
  unfolding retransmit_sweep
  AllSound-retransmit s m all =
      let time = net.now s.world in
      let swept = sweep_all net time.1 cfg (keys s.pending_unacked_conns_) (s.conns_, time.0) in
      elim (Bool-cases (is_empty s.pending_unacked_conns_)) [
        | inl e ↦ rw (e) all
        | inr e ↦ rw (e) (
            AllSound-end_all net cfg.max_retransmits swept.2 swept.0.0 swept.0.1 (
              AllSound-sweep_all net cfg.max_retransmits time.1 cfg refl m
                (keys s.pending_unacked_conns_) (s.conns_, time.0) all))
      ]

  AllSound-ack :
      (c : ConnId) (ack : ℕ) (s : OutgoingWorker W)
      → AllSound cfg.max_retransmits s.conns_
      → AllSound cfg.max_retransmits (on_ack c ack s).conns_
  unfolding on_ack
  AllSound-ack c ack s all = elim (Option-cases (find c s.conns_)) [
    | inl e ↦ rw (on_ack, e) all
    | inr (ctx, e) ↦
        rw (on_ack, e)
          (AllSound-put cfg.max_retransmits c
            (record ctx { reliable = acknowledge ack ctx.reliable }) s.conns_
            (IsSound-acknowledge cfg.max_retransmits ack ctx (all.sound c ctx e)) all)
  ]

  AllSound-tick :
      (s : OutgoingWorker W)
      → 1 ≤ cfg.max_retransmits
      → cfg.max_retransmits < 2 ^ 16
      → AllSound cfg.max_retransmits s.conns_
      → AllSound cfg.max_retransmits (tick net cfg s).conns_
  unfolding tick
  AllSound-tick s one m all =
      let max = cfg.max_retransmits in
      let start = net.now s.world in
      let enabled = ltb 0 cfg.time_budget in
      let deadline = start.1 + cfg.time_budget in
      let s' : OutgoingWorker W = record s { world = start.0 } in
      let drained = drain_loop net cfg.max_per_tick enabled deadline s' empty in
      AllSound-retransmit (flush_loop net (keys drained.1) enabled deadline drained.0) m (
        AllSound-flush_loop net max (keys drained.1) enabled deadline drained.0 one
          (AllSound-drain net max cfg.max_per_tick enabled deadline s' empty all))

  AllSound-step :
      (c : Call) (s : OutgoingWorker W)
      → 1 ≤ cfg.max_retransmits
      → cfg.max_retransmits < 2 ^ 16
      → AllSound cfg.max_retransmits s.conns_
      → AllSound cfg.max_retransmits (step net cfg c s).conns_
  unfolding step
  AllSound-step (Call.opens c h port) s one m all =
      let now = (net.now s.world).1 in
      AllSound-attach cfg.max_retransmits c (connection_context c h port now) s.conns_
        (IsSound-connection cfg.max_retransmits c h port now) all
  AllSound-step (Call.closes c) s one m all = AllSound-detach cfg.max_retransmits c s.conns_ all
  AllSound-step (Call.pushes msg) s one m all = all
  AllSound-step (Call.acks c ack) s one m all = AllSound-ack c ack s all
  AllSound-step Call.ticks s one m all = AllSound-tick s one m all

  AllSound-run_from :
      (cs : List Call) (s : OutgoingWorker W)
      → 1 ≤ cfg.max_retransmits
      → cfg.max_retransmits < 2 ^ 16
      → AllSound cfg.max_retransmits s.conns_
      → AllSound cfg.max_retransmits (run net cfg cs s).conns_
  unfolding run
  AllSound-run_from [] s one m all = all
  AllSound-run_from (c ∷ cs) s one m all =
      AllSound-run_from cs (step net cfg c s) one m (AllSound-step c s one m all)

  -- Whatever the sockets and the clock do, after any history of a network thread whose
  -- configuration allows at least one transmission and a count that 16 bits hold, every connection
  -- has an outbox within its capacity, frames awaiting acknowledgement that are numbered without a
  -- gap up to the last number given, and no frame sent more often than the configuration allows.
  pub AllSound-run :
      (cs : List Call) (capacity : ℕ) (w : W)
      → 1 ≤ cfg.max_retransmits
      → cfg.max_retransmits < 2 ^ 16
      → AllSound cfg.max_retransmits (run net cfg cs (init capacity w)).conns_
  unfolding init
  AllSound-run cs capacity w one m =
      AllSound-run_from cs (init capacity w) one m (AllSound-empty cfg.max_retransmits)
