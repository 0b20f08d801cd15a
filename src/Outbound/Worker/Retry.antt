-- ===== src/Outbound/Worker/Retry.antt =====
-- What the retransmission sweep does to the frames of one connection.
use kergit_server.Base.{
  ℕ, ◌^◌, ◌≤◌, ◌<◌, ◌≡◌, refl, ◌∙◌, sym, subst, true, none, List, [], ◌∷◌, String, leb, length,
  arith, Bool-cases, inl, inr, All,
}
use kergit_server.Outbound.Registry.{WsHandle, Pending, ConnectionContext}
use kergit_server.Outbound.Worker.{pop_acked, Transport, OutgoingWorkerConfig}
use kergit_server.Outbound.Worker.Reliable.{Consecutive}
use kergit_server.Outbound.Worker.Sweep.{resend, sweep_buffer}

-- What a client sees of the frames: their numbers and their bytes.
abbrev pub frame : Pending → ℕ × String
frame p = (p.seq, p.bytes)

abbrev pub frames : List Pending → List (ℕ × String)
frames [] = []
frames (p ∷ ps) = frame p ∷ frames ps

abbrev pub TriedAtMost : ℕ → Pending → Type 0
TriedAtMost n p = p.attempts ≤ n

pub Consecutive-frames :
    (s last : ℕ) (ps qs : List Pending)
    → frames qs ≡ frames ps
    → Consecutive s ps last
    → Consecutive s qs last
Consecutive-frames s last [] [] e h = h
Consecutive-frames s last [] (q ∷ qs) e h = absurd (ground (arith, e))
Consecutive-frames s last (p ∷ ps) [] e h = absurd (ground (arith, e))
Consecutive-frames s last (p ∷ ps) (q ∷ qs) e h =
    let num : q.seq ≡ p.seq = ground (arith, e) in
    let rest : frames qs ≡ frames ps = ground (arith, e) in
    (
      num ∙ h.0,
      subst (λ t. Consecutive t qs last) (sym num) (Consecutive-frames p.seq last ps qs rest h.1),
    )

-- An acknowledgement keeps the end of the frames.
pub All-pop_acked :
    (ack n : ℕ) (ps : List Pending)
    → All (TriedAtMost n) ps
    → All (TriedAtMost n) (pop_acked ack ps)
unfolding pop_acked
All-pop_acked ack n [] h = h
All-pop_acked ack n (p ∷ ps) h = elim (Bool-cases (leb p.seq ack)) [
  | inl e ↦ rw (e) (All-pop_acked ack n ps h.1)
  | inr e ↦ rw (e) h
]

module _ {W : Type 0} (net : Transport W) (now : ℕ) (handle : WsHandle)
    (cfg : OutgoingWorkerConfig) where
  -- The frames keep their numbers, bytes and order.
  pub resend-frames :
      (ps : List Pending) (w : W) → frames (resend net now handle cfg ps w).0 ≡ frames ps
  unfolding resend
  resend-frames [] w = refl
  resend-frames (p ∷ ps) w =
      ground (arith, resend-frames ps w, resend-frames ps (net.send handle p.bytes true w).0)

  pub resend-attempts :
      (ps : List Pending) (w : W)
      → cfg.max_retransmits < 2 ^ 16
      → All (TriedAtMost cfg.max_retransmits) ps
      → All (TriedAtMost cfg.max_retransmits) (resend net now handle cfg ps w).0
  unfolding resend
  resend-attempts [] w m h = h
  resend-attempts (p ∷ ps) w m h = ground (
    arith,
    m,
    h.0,
    h.1,
    resend-attempts ps w m h.1,
    resend-attempts ps (net.send handle p.bytes true w).0 m h.1,
  )

  resend-quiet :
      (ps : List Pending) (w : W)
      → All (λ p. p.attempts < cfg.max_retransmits) ps
      → (resend net now handle cfg ps w).2 ≡ none
  unfolding resend
  resend-quiet [] w h = refl
  resend-quiet (p ∷ ps) w h =
      ground
        (arith, h.0, resend-quiet ps w h.1, resend-quiet ps (net.send handle p.bytes true w).0 h.1)

-- The sweep gives up a connection only when more frames wait than its buffer may hold or a frame
-- has been sent as often as the configuration allows.
pub sweep_buffer-quiet :
    {W : Type 0} (net : Transport W) (now : ℕ) (cfg : OutgoingWorkerConfig)
    (ctx : ConnectionContext) (w : W)
    → length ctx.reliable.buffer ≤ ctx.reliable.capacity
    → All (λ p. p.attempts < cfg.max_retransmits) ctx.reliable.buffer
    → (sweep_buffer net now cfg ctx w).2 ≡ none
unfolding sweep_buffer
sweep_buffer-quiet net now cfg ctx w room h =
    ground (arith, room, resend-quiet net now ctx.handle cfg ctx.reliable.buffer w h)
