-- ===== src/EventQueue/Invariant.antt =====
-- The queue's bookkeeping: the count, the bound and the two bands.
use kergit_server.Base.{
  ℕ, ◌+◌, ◌≤◌, ◌<◌, ◌≡◌, refl, ap, ◌↔◌, inl, inr, List, [], ◌∷◌, ◌++◌, arith, ltb, Bool-cases,
  length, All, All-append, pop_back, length-append, length-pop_back,
}
use kergit_server.EventQueue.{
  Event, EventPriority, high, low, classify_event, EventQueue, dropped_high, init, enqueue,
  push_full, push, pop_front_locked, try_pop, wait_pop, stop, is_full, Call, pushes, tries, waits,
  stops, step, run, of_wait,
}

abbrev pub InBand : {P : Type 0} → EventPriority → List (Event P) → Type 0
InBand b = All (λ e. classify_event e ≡ b)

pub record IsValid {P : Type 0} (q : EventQueue P) : Type 0 where
  pub counted : q.size_ ≡ length q.high_ + length q.low_
  pub bounded : 0 < q.capacity_ → q.size_ ≤ q.capacity_
  pub highs : InBand high q.high_
  pub lows : InBand low q.low_

module _ {P : Type 0} where
  InBand-pop_back : (b : EventPriority) (xs : List (Event P)) → InBand b xs → InBand b (pop_back xs)
  InBand-pop_back b [] h = tt
  InBand-pop_back b (x ∷ []) h = tt
  InBand-pop_back b (x ∷ y ∷ ys) h = (h.0, InBand-pop_back b (y ∷ ys) h.1)

  InBand-push_back :
      (b : EventPriority) (xs : List (Event P)) (e : Event P)
      → InBand b xs
      → classify_event e ≡ b
      → InBand b (xs ++ e ∷ [])
  InBand-push_back b xs e h c = All-append _ xs (e ∷ []) h (c, tt)

  enqueue-IsValid :
      (b : EventPriority) (e : Event P) (q : EventQueue P)
      → classify_event e ≡ b
      → IsValid q
      → (0 < q.capacity_ → q.size_ < q.capacity_)
      → IsValid (enqueue b e q)
  unfolding enqueue
  enqueue-IsValid high e q c v room = record {
    counted = omega (arith, v.counted, length-append q.high_ (e ∷ []));
    bounded = λ p. omega (arith, room p);
    highs = InBand-push_back high q.high_ e v.highs c;
    lows = v.lows;
  }
  enqueue-IsValid low e q c v room = record {
    counted = omega (arith, v.counted, length-append q.low_ (e ∷ []));
    bounded = λ p. omega (arith, room p);
    highs = v.highs;
    lows = InBand-push_back low q.low_ e v.lows c;
  }

  push_full-IsValid :
      (b : EventPriority) (e : Event P) (q : EventQueue P) (lows : List (Event P))
      → classify_event e ≡ b
      → q.low_ ≡ lows
      → IsValid q
      → IsValid (push_full b lows e q).0
  unfolding push_full
  push_full-IsValid low e q lows c s v = ground arith
  push_full-IsValid high e q [] c s v = ground arith
  push_full-IsValid high e q (l ∷ ls) c s v =
      let lows : InBand low (l ∷ ls) = ground arith in
      record {
        counted =
            omega
              (arith, v.counted, ap length s, length-append q.high_ (e ∷ []), length-pop_back l ls);
        bounded = λ p. omega (arith, v.bounded p, v.counted, ap length s);
        highs = InBand-push_back high q.high_ e v.highs c;
        lows = InBand-pop_back low (l ∷ ls) lows;
      }

  push-IsValid : (e : Event P) (q : EventQueue P) → IsValid q → IsValid (push e q).0
  unfolding push
  push-IsValid e q v = elim (Bool-cases (is_full q)) [
    | inl f ↦ rw f (push_full-IsValid (classify_event e) e q q.low_ refl refl v)
    | inr n ↦ rw n (enqueue-IsValid (classify_event e) e q refl v (ground arith))
  ]

  pop_front_locked-IsValid :
      (hs ls : List (Event P)) (q : EventQueue P)
      → q.high_ ≡ hs
      → q.low_ ≡ ls
      → IsValid q
      → IsValid (pop_front_locked hs ls q).0
  unfolding pop_front_locked
  pop_front_locked-IsValid (h ∷ hs) ls q eh el v = ground arith
  pop_front_locked-IsValid [] (l ∷ ls) q eh el v = ground arith
  pop_front_locked-IsValid [] [] q eh el v = v

  pub try_pop-IsValid : (q : EventQueue P) → IsValid q → IsValid (try_pop q).0
  unfolding try_pop
  try_pop-IsValid q v = elim (Bool-cases (ltb 0 q.size_)) [
    | inl n ↦ rw n (pop_front_locked-IsValid q.high_ q.low_ q refl refl v)
    | inr z ↦ rw z v
  ]

  pub step-IsValid : (c : Call P) (q : EventQueue P) → IsValid q → IsValid (step c q).0
  unfolding step wait_pop of_wait stop
  step-IsValid (pushes e) q v = push-IsValid e q v
  step-IsValid tries q v = try_pop-IsValid q v
  step-IsValid waits q v = ground (arith, try_pop-IsValid q v)
  step-IsValid stops q v = ground arith

  pub init-IsValid : (capacity : ℕ) → IsValid (init {P = P} capacity)
  unfolding init
  init-IsValid capacity = omega arith

  -- After any calls on a valid queue, `size_` counts the two bands, a bounded queue is within its
  -- capacity, and each band holds only events of its priority.
  pub run-IsValid : (cs : List (Call P)) (q : EventQueue P) → IsValid q → IsValid (run cs q).0
  unfolding run
  run-IsValid [] q v = v
  run-IsValid (c ∷ cs) q v = run-IsValid cs (step c q).0 (step-IsValid c q v)

  push_full_dropped :
      (b : EventPriority) (lows : List (Event P)) (e : Event P) (q : EventQueue P)
      → ((push_full b lows e q).1 ≡ dropped_high) ↔ ((b ≡ high) × (lows ≡ []))
  unfolding push_full
  push_full_dropped low lows e q = ground arith
  push_full_dropped high [] e q = ground arith
  push_full_dropped high (l ∷ ls) e q = ground arith

  -- A push answers DroppedHigh exactly if the event is of high priority and a bounded queue is
  -- full of events of high priority.
  pub dropped_high_iff :
      (e : Event P) (q : EventQueue P)
      → IsValid q
      → ((push e q).1 ≡ dropped_high)
        ↔ ((classify_event e ≡ high) × (0 < q.capacity_) × (length q.high_ ≡ q.capacity_))
  unfolding push
  dropped_high_iff e q v = ground (arith, push_full_dropped (classify_event e) q.low_ e q)
