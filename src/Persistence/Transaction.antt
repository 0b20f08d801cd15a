-- ===== src/Persistence/Transaction.antt =====
-- infra/persistence/TransactionRunner.h: `run` with its retries. The outside is a parameter: whether
-- a connection can be had, and what becomes of each attempt.
pub mod Laws
mod Tests
use kergit_server.Base.{
  ℕ, zero, suc, ◌+◌, Bool, true, false, not, ◌&&◌, ◌||◌, Option, none, some, ltb, if◌then◌else◌,
}

-- What the database and the connection make of one attempt: it goes through unless `fn` throws, it
-- is turned down by an exception of another kind, or the connection breaks in `fn`. In `commit`, the
-- connection breaks, or is lost while the database commits, of which libpqxx does not know the
-- outcome and throws in_doubt_error: that is no broken_connection. The Boolean tells whether the
-- database committed.
pub data Attempt : Type 0 where
  done throws breaks : Attempt
  breaks_in_commit in_doubt : Bool → Attempt

pub record Outside : Type 0 where
  pub lease : Bool
  pub attempt : ℕ → Attempt
  pub reconnect : ℕ → Bool

-- A value, the TransientPersistenceError, or any other exception; `stuck` is a model run that ran
-- out of fuel.
pub data Result (A : Type 0) : Type 0 where
  ok : A → Result A
  transient failed stuck : Result A

abbrev pub max_attempts : ℕ
max_attempts = 2

-- The function of a unit of work: `none` if it throws, else its result and the database it leaves.
abbrev pub Work : Type 0 → Type 0 → Type 0
Work W A = W → Option (A × W)

module _ {W A : Type 0} (o : Outside) (idempotent : Bool) (fn : Work W A) where
  -- The `catch` of a broken connection.
  abbrev pub on_broken : Bool → ℕ → Result A × W → W → Result A × W
  on_broken commit_attempted n next w =
      if (idempotent || not commit_attempted) && ltb n max_attempts
      then (if o.reconnect n then next else (transient, w))
      else (transient, w)

  -- One round of the loop once `fn` has run, with the rounds after it.
  abbrev pub round : Attempt → Option (A × W) → ℕ → (W → Result A × W) → W → Result A × W
  round throws result n next w = (failed, w)
  round breaks result n next w = on_broken false n (next w) w
  round _ none n next w = (failed, w)
  round done (some (a, after)) n next w = (ok a, after)
  round (breaks_in_commit true) (some (a, after)) n next w = on_broken true n (next after) after
  round (breaks_in_commit false) (some (a, after)) n next w = on_broken true n (next w) w
  round (in_doubt true) (some (a, after)) n next w = (failed, after)
  round (in_doubt false) (some (a, after)) n next w = (failed, w)

  unfoldable pub attempts : ℕ → ℕ → W → Result A × W
  attempts zero n w = (stuck, w)
  attempts (suc fuel) n w = round (o.attempt n) (fn w) n (attempts fuel (n + 1)) w

  unfoldable pub run : W → Result A × W
  unfolding attempts
  run w = if o.lease then attempts max_attempts 1 w else (transient, w)

unfoldable pub read : {W A : Type 0} → Outside → Work W A → W → Result A × W
unfolding run
read o fn w = run o true fn w

unfoldable pub write : {W A : Type 0} → Outside → Work W A → W → Result A × W
unfolding run
write o fn w = run o false fn w
