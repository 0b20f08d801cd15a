-- ===== src/Outbound/Worker/Reliable.antt =====
-- The sequence numbers of the frames that wait for an acknowledgement.
use kergit_server.Base.{
  ℕ, suc, ◌+◌, ◌^◌, ◌≤◌, ◌<◌, ◌≡◌, refl, Bool, List, [], ◌∷◌, ◌++◌, String, ltb, leb, length, inc64,
  keep_if, arith, Bool-cases, inl, inr,
}
use kergit_server.Outbound.Registry.{Pending, ReliableOutbound}
use kergit_server.Outbound.Worker.{retain, pop_acked, acknowledge}

-- The frames are numbered from the one after `start` to `last`, each the successor on 64 bits of
-- the one before.
abbrev pub Consecutive : ℕ → List Pending → ℕ → Type 0
Consecutive start [] last = start ≡ last
Consecutive start (p ∷ ps) last = (p.seq ≡ inc64 start) × Consecutive p.seq ps last

pub Consecutive-append :
    (s last : ℕ) (ps : List Pending) (p : Pending)
    → p.seq ≡ inc64 last
    → Consecutive s ps last
    → Consecutive s (ps ++ p ∷ []) p.seq
Consecutive-append s last [] p e h = ground (arith, e, h)
Consecutive-append s last (q ∷ qs) p e h = (h.0, Consecutive-append q.seq last qs p e h.1)

pub retain-Consecutive :
    (s : ℕ) (wire : String) (now : ℕ) (r : ReliableOutbound)
    → Consecutive s r.buffer r.next_seq
    → Consecutive s
        (retain (inc64 r.next_seq) wire now r).buffer
        (retain (inc64 r.next_seq) wire now r).next_seq
unfolding retain
retain-Consecutive s wire now r h =
    Consecutive-append s r.next_seq r.buffer
      (record { seq = inc64 r.next_seq; bytes = wire; last_sent_at = now; attempts = 1 }) refl h

-- The frames that stay after an acknowledgement are still consecutive, up to the same number.
pub pop_acked-Consecutive :
    (ack s last : ℕ) (ps : List Pending)
    → Consecutive s ps last
    → (t : ℕ) × Consecutive t (pop_acked ack ps) last
unfolding pop_acked
pop_acked-Consecutive ack s last [] h = (s, h)
pop_acked-Consecutive ack s last (p ∷ ps) h = elim (Bool-cases (leb p.seq ack)) [
  | inl e ↦ rw (e) (pop_acked-Consecutive ack p.seq last ps h.1)
  | inr e ↦ rw (e) (s, h)
]

abbrev pub above : ℕ → Pending → Bool
above ack p = ltb ack p.seq

all_above :
    (ack s last : ℕ) (ps : List Pending)
    → ack ≤ s
    → Consecutive s ps last
    → s + length ps < 2 ^ 64
    → keep_if (above ack) ps ≡ ps
all_above ack s last [] le h small = refl
all_above ack s last (p ∷ ps) le h small =
    let next : p.seq ≡ suc s = ground (arith, h.0, small) in
    ground (
      arith,
      next,
      le,
      all_above ack p.seq last ps (ground (arith, next, le)) h.1 (ground (arith, next, small)),
    )

pop_acked_lem :
    (ack s last : ℕ) (ps : List Pending)
    → Consecutive s ps last
    → s + length ps < 2 ^ 64
    → pop_acked ack ps ≡ keep_if (above ack) ps
unfolding pop_acked
pop_acked_lem ack s last [] h small = refl
pop_acked_lem ack s last (p ∷ ps) h small =
    let next : p.seq ≡ suc s = ground (arith, h.0, small) in
    let room : p.seq + length ps < 2 ^ 64 = ground (arith, next, small) in
    elim (Bool-cases (leb p.seq ack)) [
      | inl e ↦ ground (arith, e, pop_acked_lem ack p.seq last ps h.1 room)
      | inr e ↦ ground (arith, e, all_above ack p.seq last ps (ground (arith, e)) h.1 room)
    ]

-- A cumulative acknowledgement removes from consecutive frames, as long as their numbers have not
-- wrapped around, exactly those numbered at most `ack`; stopping at the first other one loses none.
pub acknowledge-buffer :
    (ack s : ℕ) (r : ReliableOutbound)
    → Consecutive s r.buffer r.next_seq
    → s + length r.buffer < 2 ^ 64
    → (acknowledge ack r).buffer ≡ keep_if (above ack) r.buffer
unfolding acknowledge
acknowledge-buffer ack s r h small = pop_acked_lem ack s r.next_seq r.buffer h small
