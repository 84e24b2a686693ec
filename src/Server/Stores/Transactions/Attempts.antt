-- ===== src/Server/Stores/Transactions/Attempts.antt =====
-- internal/store/store.go: the attempts of `Transaction`.
use xyncra_server.Common.{ℕ, zero, suc, ◌≡◌, refl, ◌∙◌, Bool, inl, inr, Bool-cases}
use xyncra_server.Fault.{Fault, database_deadlock, Result, ok, err}
use xyncra_server.Server.Stores.Transactions.{retried, attempts, transaction}

-- The result of a transaction is that of one of its attempts.
module _ {A : Type 0} where
  attempts-ok :
      (is_done : ℕ → Bool) (body : ℕ → Result Fault A) (left n : ℕ) (a : A)
      → attempts is_done body left n ≡ ok a
      → (k : ℕ) × (body k ≡ ok a)
  unfolding attempts
  attempts-ok is_done body zero n a e = cc
  attempts-ok is_done body (suc left) n a e =
      go (body n) refl e (attempts-ok is_done body left (suc n) a)
    where
      go :
          (r : Result Fault A)
          → body n ≡ r
          → retried (is_done n) (attempts is_done body left (suc n)) r ≡ ok a
          → (attempts is_done body left (suc n) ≡ ok a → (k : ℕ) × (body k ≡ ok a))
          → (k : ℕ) × (body k ≡ ok a)
      go (ok b) same e h = (n, same ∙ e)
      go (err database_deadlock) same e h = elim (Bool-cases (is_done n)) [
        | inl over ↦ cc (rw over at e)
        | inr on ↦ h (rw on at e)
      ]
      go (err _) same e h = cc

  pub transaction-ok :
      (is_done : ℕ → Bool) (body : ℕ → Result Fault A) (a : A)
      → transaction is_done body ≡ ok a
      → (k : ℕ) × (body k ≡ ok a)
  unfolding transaction
  transaction-ok is_done body a e = elim (Bool-cases (is_done 0)) [
    | inl over ↦ cc (rw over at e)
    | inr on ↦ attempts-ok is_done body 3 1 a (rw on at e)
  ]
