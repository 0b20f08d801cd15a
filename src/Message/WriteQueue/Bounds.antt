-- ===== src/Message/WriteQueue/Bounds.antt =====
-- The bound and the order of the write queue, under every interleaving.
use mathlib.Core.List.{append_assoc}
use kergit_server.Base.{
  ℕ, zero, suc, ◌+◌, ◌^◌, ◌≤◌, ◌<◌, ◌≡◌, refl, ap, ◌∙◌, sym, some, List, [], ◌∷◌, ◌++◌, length,
  length-append, arith, Option-cases, inl, inr,
}
use kergit_server.Message.WriteQueue.{
  Threads, Step, push, try_pop, settle, stop, reserve_slot, nth, without, step, run, start, init,
}

module _ {A : Type 0} where
  -- The size counts the queue and the threads between their two steps, and stays within the capacity.
  pub record IsBounded (capacity : ℕ) (t : Threads A) : Type 0 where
    pub same_capacity : t.q.capacity_ ≡ capacity
    pub counted : t.q.size_ ≡ length t.q.base.queue + length t.writing + t.taken
    pub bounded : t.q.size_ ≤ capacity
    pub in_order : t.delivered ++ t.q.base.queue ≡ t.written

  length-without :
      (n : ℕ) (xs : List A) (v : A) → nth n xs ≡ some v → length (without n xs) + 1 ≡ length xs
  unfolding nth without
  length-without n [] v h = absurd (ground (arith, h))
  length-without zero (x ∷ xs) v h = omega arith
  length-without (suc n) (x ∷ xs) v h = ground (arith, length-without n xs v h)

  module _ (n : ℕ) (pos : 1 ≤ n) (small : n < 2 ^ 64) where
    IsBounded-reserve :
        (v : A) (t : Threads A) → IsBounded n t → IsBounded n (step (Step.reserves v) t)
    unfolding step reserve_slot
    IsBounded-reserve v t h = record {
      same_capacity = ground (arith, h.same_capacity);
      counted = ground (
        arith,
        pos,
        small,
        h.same_capacity,
        h.counted,
        h.bounded,
        length-append t.writing (v ∷ []),
      );
      bounded = ground (arith, pos, small, h.same_capacity, h.bounded);
      in_order = ground (arith, h.in_order);
    }

    IsBounded-push : (i : ℕ) (t : Threads A) → IsBounded n t → IsBounded n (step (Step.pushes i) t)
    unfolding step push
    IsBounded-push i t h = elim (Option-cases (nth i t.writing)) [
      | inl e ↦ rw (step, e) h
      | inr (v, e) ↦
          rw (step, e)
            record {
              same_capacity = h.same_capacity;
              counted = ground (
                arith,
                h.counted,
                length-without i t.writing v e,
                length-append t.q.base.queue (v ∷ []),
              );
              bounded = h.bounded;
              in_order =
                  sym (append_assoc t.delivered t.q.base.queue (v ∷ []))
                  ∙ ap (λ l. l ++ v ∷ []) h.in_order;
            }
    ]

    removed :
        (t : Threads A) (xs : List A)
        → t.q.base.queue ≡ xs
        → IsBounded n t
        → IsBounded n (step Step.removes t)
    unfolding step try_pop
    removed t [] e h = rw (step, try_pop, e) h
    removed t (x ∷ xs) e h =
        let rest : (try_pop t.q.base).0.queue ≡ xs = ground (arith, e) in
        rw (step, try_pop, e)
          record {
            same_capacity = h.same_capacity;
            counted = ground (arith, e, rest, h.counted);
            bounded = h.bounded;
            in_order =
                ap (λ l. (t.delivered ++ x ∷ []) ++ l) rest
                ∙ append_assoc t.delivered (x ∷ []) xs
                ∙ ap (λ l. t.delivered ++ l) (sym e)
                ∙ h.in_order;
          }

    settled :
        (t : Threads A) (k : ℕ) → t.taken ≡ k → IsBounded n t → IsBounded n (step Step.settles t)
    unfolding step settle
    settled t zero e h = rw (step, e) h
    settled t (suc k) e h =
        rw (step, e)
          record {
            same_capacity = h.same_capacity;
            counted = ground (arith, e, small, h.counted, h.bounded);
            bounded = ground (arith, e, small, h.counted, h.bounded);
            in_order = h.in_order;
          }

    IsBounded-step : (s : Step A) (t : Threads A) → IsBounded n t → IsBounded n (step s t)
    unfolding step stop
    IsBounded-step (Step.reserves v) t h = IsBounded-reserve v t h
    IsBounded-step (Step.pushes i) t h = IsBounded-push i t h
    IsBounded-step Step.removes t h = removed t t.q.base.queue refl h
    IsBounded-step Step.settles t h = settled t t.taken refl h
    IsBounded-step Step.stops t h = record {
      same_capacity = h.same_capacity;
      counted = h.counted;
      bounded = h.bounded;
      in_order = h.in_order;
    }

    IsBounded-run_from :
        (ss : List (Step A)) (t : Threads A) → IsBounded n t → IsBounded n (run ss t)
    unfolding run
    IsBounded-run_from [] t h = h
    IsBounded-run_from (s ∷ ss) t h = IsBounded-run_from ss (step s t) (IsBounded-step s t h)

    -- Under every interleaving of the threads, with a capacity other than 0 that 64 bits hold, the
    -- messages in the queue, those that have a slot and those just taken are together no more than
    -- the capacity and as many as the size says; and what was taken, followed by what is queued, is
    -- what was pushed, in order.
    pub interleaved-IsBounded : (ss : List (Step A)) → IsBounded n (run ss (start n))
    unfolding start init
    interleaved-IsBounded ss =
        IsBounded-run_from ss (start n)
          (record { same_capacity = refl; counted = refl; bounded = omega arith; in_order = refl })
