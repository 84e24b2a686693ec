-- ===== src/Server/Stores/Transactions.antt =====
-- internal/store/store.go: `Transaction`. Its body is a function of the attempt, which may fail where
-- another does not.
pub mod Attempts
use xyncra_server.Common.{ℕ, zero, suc, Bool, if◌then◌else◌}
use xyncra_server.Fault.{Fault, database_deadlock, unclassified, Result, ok, err}

-- An attempt that deadlocks is followed by another, unless the context ends in the back-off.
unfoldable pub retried : {A : Type 0} → Bool → Result Fault A → Result Fault A → Result Fault A
retried done rest (ok a) = ok a
retried done rest (err database_deadlock) = if done then err unclassified else rest
retried done rest (err e) = err e

unfoldable pub attempts : {A : Type 0} → (ℕ → Bool) → (ℕ → Result Fault A) → ℕ → ℕ → Result Fault A
unfolding retried
attempts is_done body zero n = err database_deadlock
attempts is_done body (suc left) n =
    retried (is_done n) (attempts is_done body left (suc n)) (body n)

-- `is_done 0` tells whether the context has ended before the first of the three attempts.
unfoldable pub transaction : {A : Type 0} → (ℕ → Bool) → (ℕ → Result Fault A) → Result Fault A
unfolding attempts
transaction is_done body = if is_done 0 then err unclassified else attempts is_done body 3 1
