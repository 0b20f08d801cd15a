-- ===== src/Persistence/Transaction/Tests.antt =====
-- Tests of infra/persistence/TransactionRunner.h with a counter for the database.
use kergit_server.Base.{ℕ, ◌+◌, true, false, Option, some, ◌≡◌, refl, ltb, if◌then◌else◌}
use kergit_server.Persistence.Transaction.{
  Outside, done, breaks, breaks_in_commit, in_doubt, ok, transient, failed, attempts, write,
}
use kergit_server.Persistence.Transaction.Laws.{Fate, is_stuck, Settles, write_once, two_rounds}

-- The first connection is dropped before the commit, the second works.
abbrev dropped_once : Outside
dropped_once = record {
  lease = true;
  attempt = λ n. if ltb 1 n then done else breaks;
  reconnect = λ n. true;
}

abbrev lost_commit : Outside
lost_commit = record { lease = true; attempt = λ n. breaks_in_commit true; reconnect = λ n. true }

abbrev count : ℕ → Option (ℕ × ℕ)
count n = some (n, n + 1)

retried : write dropped_once count 7 ≡ (ok 7, 8)
unfolding write
retried = refl

-- The outcome of the commit is not known.
abbrev unknown : Outside
unknown = record { lease = true; attempt = λ n. in_doubt true; reconnect = λ n. true }

not_caught : write unknown count 7 ≡ (failed, 8)
unfolding write
not_caught = refl

not_retried : write lost_commit count 7 ≡ (transient, 8)
unfolding write
not_retried = refl

write_once_example : (fate : Fate) × Settles fate (some (7, 8)) 7 (write dropped_once count 7)
write_once_example = write_once dropped_once count 7

two_rounds_example :
    (is_stuck (attempts dropped_once false count 2 1 7).0 ≡ false)
    × (attempts dropped_once false count 5 1 7 ≡ attempts dropped_once false count 2 1 7)
two_rounds_example = two_rounds dropped_once count false 3 7
