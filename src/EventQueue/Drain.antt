-- ===== src/EventQueue/Drain.antt =====
-- Shutdown: workers that wait on a stopped queue empty it, and are not parked.
use kergit_server.Base.{
  suc, ◌≡◌, refl, ap₂, subst, ◌∙◌, true, none, some, List, [], ◌∷◌, ◌++◌, map, arith, length,
  replicate, length-append,
}
use kergit_server.EventQueue.{
  Event, EventQueue, pop_front_locked, try_pop, wait_pop, waits, Reply, popped, step, run, of_wait,
}
use kergit_server.EventQueue.Invariant.{IsValid, step-IsValid}

abbrev pub handed_out : {P : Type 0} → Event P → Reply P
handed_out e = popped (some e)

module _ {P : Type 0} where
  -- What the workers see from a stopped queue with these bands.
  abbrev DrainsFrom : List (Event P) → List (Event P) → Type 0
  DrainsFrom hs ls =
      (q : EventQueue P)
      → IsValid q
      → q.stopped_ ≡ true
      → q.high_ ≡ hs
      → q.low_ ≡ ls
      → (run (replicate (suc (length (hs ++ ls))) waits) q).1
        ≡ map handed_out (hs ++ ls) ++ popped none ∷ []

  drained :
      (q : EventQueue P)
      → IsValid q
      → q.stopped_ ≡ true
      → q.high_ ≡ []
      → q.low_ ≡ []
      → (run (waits ∷ []) q).1 ≡ popped none ∷ []
  unfolding run step wait_pop of_wait try_pop
  drained q v s eh el = ground arith

  record Next (e : Event P) (hs ls : List (Event P)) (q : EventQueue P) : Type 0 where
    reply : (step waits q).1 ≡ popped (some e)
    highs : (step waits q).0.high_ ≡ hs
    lows : (step waits q).0.low_ ≡ ls
    stopped : (step waits q).0.stopped_ ≡ q.stopped_

  Next-high :
      (q : EventQueue P) (h : Event P) (hs ls : List (Event P))
      → IsValid q
      → q.high_ ≡ h ∷ hs
      → q.low_ ≡ ls
      → Next h hs ls q
  unfolding step wait_pop of_wait try_pop pop_front_locked
  Next-high q h hs ls v eh el = ground arith

  Next-low :
      (q : EventQueue P) (l : Event P) (ls : List (Event P))
      → IsValid q
      → q.high_ ≡ []
      → q.low_ ≡ l ∷ ls
      → Next l [] ls q
  unfolding step wait_pop of_wait try_pop pop_front_locked
  Next-low q l ls v eh el = ground arith

  drain_low : (ls : List (Event P)) → DrainsFrom [] ls
  unfolding run
  drain_low [] = drained
  drain_low (l ∷ ls) = λ q v s eh el.
      let n = Next-low q l ls v eh el in
      ap₂ ◌∷◌ n.reply
        (drain_low ls (step waits q).0 (step-IsValid waits q v) (n.stopped ∙ s) n.highs n.lows)

  drain_high : (hs ls : List (Event P)) → DrainsFrom hs ls
  unfolding run
  drain_high [] ls = drain_low ls
  drain_high (h ∷ hs) ls = λ q v s eh el.
      let n = Next-high q h hs ls v eh el in
      ap₂ ◌∷◌ n.reply
        (drain_high hs ls (step waits q).0 (step-IsValid waits q v) (n.stopped ∙ s) n.highs n.lows)

  -- Workers that wait on a valid queue after `stop` are handed all that is queued, the events of
  -- high priority first and each band in order, and the next wait returns false: none is parked.
  pub stopped_drains :
      (q : EventQueue P)
      → IsValid q
      → q.stopped_ ≡ true
      → (run (replicate (suc q.size_) waits) q).1
        ≡ map handed_out (q.high_ ++ q.low_) ++ popped none ∷ []
  stopped_drains q v s =
      subst
        (λ n.
          (run (replicate (suc n) waits) q).1
          ≡ map handed_out (q.high_ ++ q.low_) ++ popped none ∷ [])
        (omega (arith, v.counted, length-append q.high_ q.low_))
        (drain_high q.high_ q.low_ q v s refl refl)
