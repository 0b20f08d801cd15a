-- ===== src/Outbound/Worker/Tick.antt =====
-- net/outbound/OutgoingWorker.cpp, tick: drain the shared queue, flush, resend.
use kergit_server.Base.{
  ℕ, zero, suc, ◌+◌, Bool, false, none, some, List, [], ◌∷◌, ltb, leb, if◌then◌else◌,
}
use kergit_server.Base.Map.{Set, empty, keys}
use kergit_server.Ids.{ConnId, conn_id_key}
use kergit_server.Outbound.Queue.{try_pop}
use kergit_server.Outbound.Outbox.{distribute}
use kergit_server.Outbound.Worker.{
  Transport, OutgoingWorkerConfig, OutgoingWorker, flush_connection_outbox,
}
use kergit_server.Outbound.Worker.Sweep.{retransmit_sweep}

module _ {W : Type 0} (net : Transport W) where
  -- Whether the time budget of the tick is spent.
  unfoldable pub spent : Bool → ℕ → W → W × Bool
  spent enabled deadline w =
      if enabled then (let time = net.now w in (time.0, leb deadline time.1)) else (w, false)

  -- The loop of `drain_queue` with the number of messages that may still be processed.
  unfoldable pub drain_loop :
      ℕ → Bool → ℕ → OutgoingWorker W → Set ConnId → OutgoingWorker W × Set ConnId
  unfolding spent
  drain_loop zero enabled deadline s touched = (s, touched)
  drain_loop (suc n) enabled deadline s touched =
      let late = spent enabled deadline s.world in
      if late.1
      then (record s { world = late.0 }, touched)
      else (let popped = try_pop s.out_q_ in
          elim popped.1 [
            | none ↦ (record s { out_q_ = popped.0; world = late.0 }, touched)
            | some msg ↦
                let fan = distribute msg s.conns_ touched in
                drain_loop n enabled deadline
                  (record s { conns_ = fan.0; out_q_ = popped.0; world = late.0 }) fan.1
          ])

  unfoldable pub flush_loop : List ConnId → Bool → ℕ → OutgoingWorker W → OutgoingWorker W
  unfolding spent flush_connection_outbox
  flush_loop [] enabled deadline s = s
  flush_loop (c ∷ cs) enabled deadline s =
      let late = spent enabled deadline s.world in
      if late.1
      then record s { world = late.0 }
      else flush_loop cs enabled deadline
          (flush_connection_outbox net c (record s { world = late.0 }))

  unfoldable pub tick : OutgoingWorkerConfig → OutgoingWorker W → OutgoingWorker W
  unfolding drain_loop flush_loop retransmit_sweep
  tick cfg s =
      let start = net.now s.world in
      let enabled = ltb 0 cfg.time_budget in
      let deadline = start.1 + cfg.time_budget in
      let drained =
        drain_loop cfg.max_per_tick enabled deadline (record s { world = start.0 }) empty in
      retransmit_sweep net cfg (flush_loop (keys drained.1) enabled deadline drained.0)
