-- ===== src/Outbound/Queue/Laws.antt =====
-- The shared queue counts what it holds, and hands it out in order.
use kergit_server.Base.{
  ℕ, suc, zero, ◌+◌, ◌≤◌, ◌<◌, ◌≡◌, ◌⊎◌, refl, none, some, List, [], ◌∷◌, ◌++◌, length,
  length-append, length-pop_back, arith, inl, inr, pop_back,
}
use kergit_server.Outbound.Msg.{OutgoingMessage}
use kergit_server.Outbound.Queue.{OutgoingQueue, init, append, push_impl, take_front, try_pop}

pub record IsCounted (capacity : ℕ) (q : OutgoingQueue) : Type 0 where
  pub same_capacity : q.capacity_ ≡ capacity
  pub counted : q.size_ ≡ length q.high_ + length q.low_
  pub bounded : 0 < capacity → q.size_ ≤ capacity

-- A producer pushes or the network thread pops.
pub data Call : Type 0 where
  pushes : OutgoingMessage → Call
  pops : Call

unfoldable pub step : Call → OutgoingQueue → OutgoingQueue
step (Call.pushes msg) q = (push_impl msg q).0
step Call.pops q = (try_pop q).0

unfoldable pub run : List Call → OutgoingQueue → OutgoingQueue
unfolding step
run [] q = q
run (c ∷ cs) q = run cs (step c q)

length-drop_back : (xs : List OutgoingMessage) → xs ≡ [] ⊎ (length (pop_back xs) + 1 ≡ length xs)
length-drop_back [] = inl refl
length-drop_back (x ∷ xs) = inr (ground (arith, length-pop_back x xs))

IsCounted-push :
    (n : ℕ) (msg : OutgoingMessage) (q : OutgoingQueue)
    → IsCounted n q
    → IsCounted n (push_impl msg q).0
unfolding push_impl append
IsCounted-push n msg q h = record {
  same_capacity = ground (arith, h.same_capacity);
  counted = ground (
    arith,
    h.counted,
    length-append q.high_ (msg ∷ []),
    length-append q.low_ (msg ∷ []),
    length-drop_back q.low_,
    length-append (pop_back q.low_) (msg ∷ []),
  );
  bounded = λ pos.
      ground (arith, pos, h.same_capacity, h.counted, h.bounded pos, length-drop_back q.low_);
}

-- What the queue holds, in the order in which it is handed out.
abbrev pub waiting : OutgoingQueue → List OutgoingMessage
waiting q = q.high_ ++ q.low_

-- The pop on a queue of these parts.
Pops : (n : ℕ) → OutgoingQueue → Type 0
Pops n q =
    IsCounted n (try_pop q).0
    × (((try_pop q).1 ≡ none) × (waiting q ≡ []) × ((try_pop q).0 ≡ q)
        ⊎ (m : OutgoingMessage) × ((try_pop q).1 ≡ some m)
          × (waiting q ≡ m ∷ waiting (try_pop q).0))

pop_parts :
    (n size cap : ℕ) (hs ls : List OutgoingMessage)
    → (let q : OutgoingQueue = record { high_ = hs; low_ = ls; capacity_ = cap; size_ = size } in
        IsCounted n q → Pops n q)
unfolding try_pop take_front Pops
pop_parts n zero cap [] [] h = (h, inl (refl, refl, refl))
pop_parts n zero cap (m ∷ hs) ls h = absurd (ground (arith, h.counted))
pop_parts n zero cap [] (m ∷ ls) h = absurd (ground (arith, h.counted))
pop_parts n (suc size) cap [] [] h = absurd (ground (arith, h.counted))
pop_parts n (suc size) cap (m ∷ hs) ls h = (
  record {
    same_capacity = h.same_capacity;
    counted = ground (arith, h.counted);
    bounded = λ pos. ground (arith, h.bounded pos);
  },
  inr (m, refl, refl),
)
pop_parts n (suc size) cap [] (m ∷ ls) h = (
  record {
    same_capacity = h.same_capacity;
    counted = ground (arith, h.counted);
    bounded = λ pos. ground (arith, h.bounded pos);
  },
  inr (m, refl, refl),
)

-- A pop takes the first of the messages that wait, the high ones before the low ones, each kind in
-- the order in which it was pushed; it returns nothing exactly when none waits.
pub try_pop-first :
    (n : ℕ) (q : OutgoingQueue)
    → IsCounted n q
    → (((try_pop q).1 ≡ none) × (waiting q ≡ []) × ((try_pop q).0 ≡ q))
      ⊎ (m : OutgoingMessage) × ((try_pop q).1 ≡ some m) × (waiting q ≡ m ∷ waiting (try_pop q).0)
unfolding Pops
try_pop-first n q h = (pop_parts n q.size_ q.capacity_ q.high_ q.low_ h).1

IsCounted-step : (n : ℕ) (c : Call) (q : OutgoingQueue) → IsCounted n q → IsCounted n (step c q)
unfolding step Pops
IsCounted-step n (Call.pushes msg) q h = IsCounted-push n msg q h
IsCounted-step n Call.pops q h = (pop_parts n q.size_ q.capacity_ q.high_ q.low_ h).0

IsCounted-run_from :
    (n : ℕ) (cs : List Call) (q : OutgoingQueue) → IsCounted n q → IsCounted n (run cs q)
unfolding run
IsCounted-run_from n [] q h = h
IsCounted-run_from n (c ∷ cs) q h = IsCounted-run_from n cs (step c q) (IsCounted-step n c q h)

-- After any history of pushes and pops the shared queue counts exactly the messages that it holds,
-- and a capacity other than 0 is never exceeded.
pub IsCounted-run : (n : ℕ) (cs : List Call) → IsCounted n (run cs (init n))
unfolding init
IsCounted-run n cs =
    IsCounted-run_from n cs (init n)
      (record { same_capacity = refl; counted = omega arith; bounded = λ pos. omega arith })
