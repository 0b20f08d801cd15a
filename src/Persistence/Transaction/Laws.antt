-- ===== src/Persistence/Transaction/Laws.antt =====
-- What a caller of `read` and `write` can rely on.
use kergit_server.Base.{
  ℕ, suc, Bool, true, false, Option, none, some, ◌≡◌, refl, ◌⊎◌, inl, inr, arith, Bool-cases, ltb,
}
use kergit_server.Persistence.Transaction.{
  Work, Attempt, done, throws, breaks, breaks_in_commit, in_doubt, Outside, Result, ok, transient,
  failed, stuck, attempts, run, read, write, max_attempts, round, on_broken,
}

-- The mark of a model run that ran out of fuel.
abbrev pub is_stuck : {A : Type 0} → Result A → Bool
is_stuck stuck = true
is_stuck _ = false

-- The three fates of a write.
pub data Fate : Type 0 where
  committed refused lost : Fate

-- The reply is an exception in the last two; the change is made in the first and the last.
abbrev pub Settles : {W A : Type 0} → Fate → Option (A × W) → W → Result A × W → Type 0
Settles {W} {A} committed x w r = (y : A × W) × (x ≡ some y) × (r ≡ (ok y.0, y.1))
Settles refused x w r = (r ≡ (transient, w)) ⊎ (r ≡ (failed, w))
Settles {W} {A} lost x w r =
    (y : A × W) × (x ≡ some y) × ((r ≡ (transient, y.1)) ⊎ (r ≡ (failed, y.1)))

module _ {W A : Type 0} (o : Outside) (fn : Work W A) where
  Settles-round :
      (a : Attempt) (x : Option (A × W)) (n : ℕ) (next : W → Result A × W) (w : W)
      → (ltb n max_attempts ≡ true → (fate : Fate) × Settles fate x w (next w))
      → (fate : Fate) × Settles fate x w (round o false fn a x n next w)
  Settles-round throws x n next w h = (refused, inr refl)
  Settles-round done none n next w h = (refused, inr refl)
  Settles-round (breaks_in_commit _) none n next w h = (refused, inr refl)
  Settles-round (in_doubt _) none n next w h = (refused, inr refl)
  Settles-round (in_doubt true) (some y) n next w h = (lost, (y, refl, inr refl))
  Settles-round (in_doubt false) (some y) n next w h = (refused, inr refl)
  Settles-round done (some y) n next w h = (committed, (y, refl, refl))
  Settles-round (breaks_in_commit true) (some y) n next w h = (lost, (y, refl, inl refl))
  Settles-round (breaks_in_commit false) (some y) n next w h = (refused, inl refl)
  Settles-round breaks x n next w h = elim (Bool-cases (ltb n max_attempts)) [
    | inl e ↦ elim (Bool-cases (o.reconnect n)) [
      | inl c ↦ rw (e, c) (h e)
      | inr c ↦ rw (e, c) (refused, inl refl)
    ]
    | inr e ↦ rw e (refused, inl refl)
  ]

  -- However the connection behaves, a write is carried out at most once: it is done and its result
  -- returned, or refused with an exception and nothing changed, or done with its reply lost, which
  -- is a TransientPersistenceError or the in_doubt_error of the library.
  pub write_once : (w : W) → (fate : Fate) × Settles fate (fn w) w (write o fn w)
  unfolding write run attempts
  write_once w = elim (Bool-cases o.lease) [
    | inl l ↦ rw l (
        Settles-round (o.attempt 1) (fn w) 1 _ w
          (λ _. Settles-round (o.attempt 2) (fn w) 2 _ w (λ h. absurd (ground arith))))
    | inr l ↦ rw l (refused, inl refl)
  ]

  more_fuel-on_broken :
      (idempotent commit_attempted : Bool) (n : ℕ) (w : W) (x y : Result A × W)
      → (ltb n max_attempts ≡ true → x ≡ y)
      → on_broken o idempotent fn commit_attempted n x w
        ≡ on_broken o idempotent fn commit_attempted n y w
  more_fuel-on_broken idempotent commit_attempted n w x y h = ground (arith, h)

  Ends-on_broken :
      (idempotent commit_attempted : Bool) (n : ℕ) (w : W) (x : Result A × W)
      → (ltb n max_attempts ≡ true → is_stuck x.0 ≡ false)
      → is_stuck (on_broken o idempotent fn commit_attempted n x w).0 ≡ false
  Ends-on_broken idempotent commit_attempted n w x h = ground (arith, h)

  more_fuel-round :
      (idempotent : Bool) (a : Attempt) (x : Option (A × W)) (n : ℕ) (next other : W → Result A × W)
      (w : W)
      → (ltb n max_attempts ≡ true → (v : W) → next v ≡ other v)
      → round o idempotent fn a x n next w ≡ round o idempotent fn a x n other w
  more_fuel-round idempotent throws x n next other w h = refl
  more_fuel-round idempotent breaks x n next other w h =
      more_fuel-on_broken idempotent false n w _ _ (λ e. h e w)
  more_fuel-round idempotent done none n next other w h = refl
  more_fuel-round idempotent (breaks_in_commit _) none n next other w h = refl
  more_fuel-round idempotent (in_doubt _) none n next other w h = refl
  more_fuel-round idempotent (in_doubt true) (some y) n next other w h = refl
  more_fuel-round idempotent (in_doubt false) (some y) n next other w h = refl
  more_fuel-round idempotent done (some y) n next other w h = refl
  more_fuel-round idempotent (breaks_in_commit true) (some y) n next other w h =
      more_fuel-on_broken idempotent true n _ _ _ (λ e. h e _)
  more_fuel-round idempotent (breaks_in_commit false) (some y) n next other w h =
      more_fuel-on_broken idempotent true n _ _ _ (λ e. h e _)

  -- A round ends if the one after it does, which is asked of the first round only.
  Ends-round :
      (idempotent : Bool) (a : Attempt) (x : Option (A × W)) (n : ℕ) (next : W → Result A × W)
      (w : W)
      → (ltb n max_attempts ≡ true → (v : W) → is_stuck (next v).0 ≡ false)
      → is_stuck (round o idempotent fn a x n next w).0 ≡ false
  Ends-round idempotent throws x n next w h = refl
  Ends-round idempotent breaks x n next w h = Ends-on_broken idempotent false n w _ (λ e. h e w)
  Ends-round idempotent done none n next w h = refl
  Ends-round idempotent (breaks_in_commit _) none n next w h = refl
  Ends-round idempotent (in_doubt _) none n next w h = refl
  Ends-round idempotent (in_doubt true) (some y) n next w h = refl
  Ends-round idempotent (in_doubt false) (some y) n next w h = refl
  Ends-round idempotent done (some y) n next w h = refl
  Ends-round idempotent (breaks_in_commit true) (some y) n next w h =
      Ends-on_broken idempotent true n _ _ (λ e. h e _)
  Ends-round idempotent (breaks_in_commit false) (some y) n next w h =
      Ends-on_broken idempotent true n _ _ (λ e. h e _)

  -- The loop ends within two rounds, whatever happens in them: it does not run out of the fuel for
  -- two, and with more fuel it gives the same.
  pub two_rounds :
      (idempotent : Bool) (extra : ℕ) (w : W)
      → (is_stuck (attempts o idempotent fn 2 1 w).0 ≡ false)
        × (attempts o idempotent fn (suc (suc extra)) 1 w ≡ attempts o idempotent fn 2 1 w)
  unfolding attempts
  two_rounds idempotent extra w = (
    Ends-round idempotent (o.attempt 1) (fn w) 1 _ w
        (λ _ v. Ends-round idempotent (o.attempt 2) (fn v) 2 _ v (λ h. absurd (ground arith))),
    more_fuel-round idempotent (o.attempt 1) (fn w) 1 _ _ w (λ _ v.
        more_fuel-round idempotent (o.attempt 2) (fn v) 2 _ _ v (λ h. absurd (ground arith))),
  )

-- A read, whose work changes nothing, leaves the database as it was, and returns its answer if its
-- first connection works, or if that one drops but the connection can be made again and works then.
pub reads_survive :
    {W A : Type 0} (o : Outside) (f : W → A) (w : W)
    → o.lease ≡ true
    → (o.attempt 1 ≡ done)
      ⊎ (((o.attempt 1 ≡ breaks) ⊎ (o.attempt 1 ≡ breaks_in_commit true))
          × (o.reconnect 1 ≡ true)
          × (o.attempt 2 ≡ done))
    → read o (λ v. some (f v, v)) w ≡ (ok (f w), w)
unfolding read run attempts
reads_survive o f w l (inl a) = rw (l, a) refl
reads_survive o f w l (inr (inl a, c, b)) = rw (l, a, c, b) refl
reads_survive o f w l (inr (inr a, c, b)) = rw (l, a, c, b) refl

-- The reply to a commit that is carried out arrives.
abbrev pub is_lost : Attempt → Bool
is_lost (breaks_in_commit true) = true
is_lost (in_doubt true) = true
is_lost _ = false

abbrev pub RepliesArrive : Outside → Type 0
RepliesArrive o = (n : ℕ) → is_lost (o.attempt n) ≡ false

module _ {W A : Type 0} (o : Outside) (fn : Work W A) where
  -- A write without lost replies: done, or an exception and nothing changed.
  abbrev pub Answered : Option (A × W) → W → Result A × W → Type 0
  Answered x w r =
      ((y : A × W) × (x ≡ some y) × (r ≡ (ok y.0, y.1)))
      ⊎ ((r ≡ (transient, w)) ⊎ (r ≡ (failed, w)))

  Answered-round :
      (a : Attempt) (x : Option (A × W)) (n : ℕ) (next : W → Result A × W) (w : W)
      → is_lost a ≡ false
      → (ltb n max_attempts ≡ true → Answered x w (next w))
      → Answered x w (round o false fn a x n next w)
  Answered-round throws x n next w c h = inr (inr refl)
  Answered-round done none n next w c h = inr (inr refl)
  Answered-round (breaks_in_commit _) none n next w c h = inr (inr refl)
  Answered-round (in_doubt _) none n next w c h = inr (inr refl)
  Answered-round (in_doubt true) (some y) n next w c h = absurd (ground (arith, c))
  Answered-round (in_doubt false) (some y) n next w c h = inr (inr refl)
  Answered-round done (some y) n next w c h = inl (y, refl, refl)
  Answered-round (breaks_in_commit true) (some y) n next w c h = absurd (ground (arith, c))
  Answered-round (breaks_in_commit false) (some y) n next w c h = inr (inl refl)
  Answered-round breaks x n next w c h = elim (Bool-cases (ltb n max_attempts)) [
    | inl e ↦ elim (Bool-cases (o.reconnect n)) [
      | inl d ↦ rw (e, d) (h e)
      | inr d ↦ rw (e, d) (inr (inl refl))
    ]
    | inr e ↦ rw e (inr (inl refl))
  ]

  pub Answered-write : RepliesArrive o → (w : W) → Answered (fn w) w (write o fn w)
  unfolding write run attempts
  Answered-write c w = elim (Bool-cases o.lease) [
    | inl l ↦ rw l (
        Answered-round (o.attempt 1) (fn w) 1 _ w (c 1)
          (λ _. Answered-round (o.attempt 2) (fn w) 2 _ w (c 2) (λ h. absurd (ground arith))))
    | inr l ↦ rw l (inr (inl refl))
  ]
