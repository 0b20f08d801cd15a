-- ===== src/EventQueue/Order.antt =====
-- What becomes of the events that a queue takes: order of delivery, and the accounts.
use mathlib.Core.List.{append_assoc, append-nil, Sublist}
use mathlib.Core.List.Sublist
use kergit_server.Base.{
  ◌≡◌, refl, sym, ap, subst, ◌∙◌, ◌⊎◌, inl, inr, some, List, [], ◌∷◌, ◌++◌, arith, pop_back,
}
use kergit_server.EventQueue.{
  Event, EventPriority, high, low, classify_event, EventQueue, ok, push, pop_front_locked, try_pop,
  wait_pop, stop, Call, pushes, tries, waits, stops, Reply, pushed, popped, step, run, of_wait,
}
use kergit_server.EventQueue.Invariant.{InBand, IsValid, step-IsValid}

module _ {P : Type 0} where
  abbrev only : EventPriority → EventPriority → Event P → List (Event P)
  only high high e = e ∷ []
  only low low e = e ∷ []
  only high low e = []
  only low high e = []

  -- The events of one priority that a reply shows to have been taken in, or handed out.
  abbrev pub taken : EventPriority → Reply P → List (Event P)
  taken b (pushed e ok) = only b (classify_event e) e
  taken b _ = []

  abbrev pub delivered : EventPriority → Reply P → List (Event P)
  delivered b (popped (some e)) = only b (classify_event e) e
  delivered b _ = []

  abbrev pub collect : (Reply P → List (Event P)) → List (Reply P) → List (Event P)
  collect f [] = []
  collect f (r ∷ rs) = f r ++ collect f rs

  push-high :
      (e : Event P) (q : EventQueue P)
      → (push e q).0.high_ ≡ q.high_ ++ taken high (pushed e (push e q).1)
  unfolding push
  push-high e q = ground (arith, append-nil q.high_)

  pop-high :
      (hs ls : List (Event P)) (q : EventQueue P)
      → q.high_ ≡ hs
      → InBand high hs
      → InBand low ls
      → q.high_
        ≡ delivered high (popped (pop_front_locked hs ls q).1) ++ (pop_front_locked hs ls q).0.high_
  unfolding pop_front_locked
  pop-high (h ∷ hs) ls q eh bh bl = ground arith
  pop-high [] (l ∷ ls) q eh bh bl = ground arith
  pop-high [] [] q eh bh bl = refl

  step-high :
      (c : Call P) (q : EventQueue P)
      → IsValid q
      → q.high_ ++ taken high (step c q).1 ≡ delivered high (step c q).1 ++ (step c q).0.high_
  unfolding step try_pop wait_pop of_wait stop
  step-high (pushes e) q v = sym (push-high e q)
  step-high tries q v =
      ground (arith, append-nil q.high_, pop-high q.high_ q.low_ q refl v.highs v.lows)
  step-high waits q v =
      ground (arith, append-nil q.high_, pop-high q.high_ q.low_ q refl v.highs v.lows)
  step-high stops q v = append-nil q.high_

  -- One step of a band that keeps order, followed by a run that does.
  chain :
      (before a mid d rest ds after : List (Event P))
      → before ++ a ≡ d ++ mid
      → mid ++ rest ≡ ds ++ after
      → before ++ (a ++ rest) ≡ (d ++ ds) ++ after
  chain before a mid d rest ds after e f =
      sym (append_assoc before a rest)
      ∙ ap (λ l. l ++ rest) e
      ∙ append_assoc d mid rest
      ∙ ap (◌++◌ d) f
      ∙ sym (append_assoc d ds after)

  -- On a valid queue no event of high priority that was accepted is lost, doubled or overtaken by
  -- another of high priority: those queued at first, then those accepted, are those handed out,
  -- then those still queued, in the same order.
  pub high_fifo :
      (cs : List (Call P)) (q : EventQueue P)
      → IsValid q
      → q.high_ ++ collect (taken high) (run cs q).1
        ≡ collect (delivered high) (run cs q).1 ++ (run cs q).0.high_
  unfolding run
  high_fifo [] q v = append-nil q.high_
  high_fifo (c ∷ cs) q v =
      chain q.high_ _ (step c q).0.high_ (delivered high (step c q).1) _ _ _ (step-high c q v)
        (high_fifo cs (step c q).0 (step-IsValid c q v))

  pop_back-sublist : (xs : List (Event P)) → Sublist (pop_back xs) xs
  pop_back-sublist [] = Sublist.refl []
  pop_back-sublist (x ∷ []) = Sublist.cons x (Sublist.refl [])
  pop_back-sublist (x ∷ y ∷ ys) = Sublist.cons-cons x (pop_back-sublist (y ∷ ys))

  push-low_cases :
      (e : Event P) (q : EventQueue P)
      → ((push e q).0.low_ ≡ q.low_ ++ taken low (pushed e (push e q).1))
        ⊎ (((push e q).0.low_ ≡ pop_back q.low_)
            × (q.low_ ≡ q.low_ ++ taken low (pushed e (push e q).1)))
  unfolding push
  push-low_cases e q = ground (arith, append-nil q.low_)

  of_eq : {xs ys : List (Event P)} → xs ≡ ys → Sublist xs ys
  of_eq {xs} e = subst (Sublist xs) e (Sublist.refl xs)

  push-low :
      (e : Event P) (q : EventQueue P)
      → Sublist (push e q).0.low_ (q.low_ ++ taken low (pushed e (push e q).1))
  push-low e q = elim (push-low_cases e q) [
    | inl h ↦ of_eq h
    | inr (h, k) ↦ Sublist.trans (of_eq h) (Sublist.trans (pop_back-sublist q.low_) (of_eq k))
  ]

  pop-low :
      (hs ls : List (Event P)) (q : EventQueue P)
      → q.low_ ≡ ls
      → InBand high hs
      → InBand low ls
      → q.low_
        ≡ delivered low (popped (pop_front_locked hs ls q).1) ++ (pop_front_locked hs ls q).0.low_
  unfolding pop_front_locked
  pop-low (h ∷ hs) ls q el bh bl = ground arith
  pop-low [] (l ∷ ls) q el bh bl = ground arith
  pop-low [] [] q el bh bl = refl

  pop_step-low :
      (q : EventQueue P)
      → IsValid q
      → delivered low (popped (try_pop q).1) ++ (try_pop q).0.low_ ≡ q.low_
  unfolding try_pop
  pop_step-low q v = ground (arith, pop-low q.high_ q.low_ q refl v.highs v.lows)

  wait_step-low :
      (q : EventQueue P)
      → IsValid q
      → delivered low (step waits q).1 ++ (step waits q).0.low_ ≡ q.low_
  unfolding step wait_pop of_wait
  wait_step-low q v = ground (arith, pop_step-low q v)

  wait_takes : (q : EventQueue P) → taken low (step waits q).1 ≡ []
  unfolding step wait_pop of_wait
  wait_takes q = ground arith

  step-low :
      (c : Call P) (q : EventQueue P)
      → IsValid q
      → Sublist (delivered low (step c q).1 ++ (step c q).0.low_) (q.low_ ++ taken low (step c q).1)
  unfolding step stop
  step-low (pushes e) q v = push-low e q
  step-low tries q v = of_eq (pop_step-low q v ∙ sym (append-nil q.low_))
  step-low waits q v =
      of_eq (wait_step-low q v ∙ sym (append-nil q.low_) ∙ ap (◌++◌ q.low_) (sym (wait_takes q)))
  step-low stops q v = of_eq (sym (append-nil q.low_))

  -- On a valid queue the events of low priority that are handed out, then those still queued, are
  -- among those queued at first and those accepted, in the same order: some may be evicted, and
  -- none is doubled or overtaken by another of low priority.
  pub low_order :
      (cs : List (Call P)) (q : EventQueue P)
      → IsValid q
      → Sublist
          (collect (delivered low) (run cs q).1 ++ (run cs q).0.low_)
          (q.low_ ++ collect (taken low) (run cs q).1)
  unfolding run
  low_order [] q v = of_eq (sym (append-nil q.low_))
  low_order (c ∷ cs) q v =
      let d = delivered low (step c q).1 in
      let t = taken low (step c q).1 in
      let q' = (step c q).0 in
      let rs = (run cs q').1 in
      Sublist.trans (of_eq (append_assoc d _ _)) (
        Sublist.trans (Sublist.append (Sublist.refl d) (low_order cs q' (step-IsValid c q v))) (
          Sublist.trans (of_eq (sym (append_assoc d q'.low_ (collect (taken low) rs)))) (
            Sublist.trans (Sublist.append (step-low c q v) (Sublist.refl (collect (taken low) rs)))
              (of_eq (append_assoc q.low_ t (collect (taken low) rs))))))
