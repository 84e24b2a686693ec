-- ===== src/Fault.antt =====
-- The errors of the two store packages (internal/store/errors.go, pkg/store/errors.go), and a
-- Go function's result: a value or an error.
use xyncra_server.Common.{◌≡◌, refl, ◌⊎◌, inl, inr}

-- The sentinel errors that `classifyError` can answer; `unclassified` is any other error. `waiting` is
-- none: it stands for a call that waits and does not return.
pub data Fault : Type 0 where
  not_found duplicate_key foreign_key_violation connection_failed : Fault
  deadline_exceeded conflict database_deadlock database_locked unclassified waiting : Fault

pub data Result {ℓ} (E A : Type ℓ) : Type ℓ where
  ok : A → Result E A
  err : E → Result E A

infixl 5 ◌>>=◌ ◌>>◌
abbrev pub ◌>>=◌ {ℓ} : {E A B : Type ℓ} → Result E A → (A → Result E B) → Result E B
ok a >>= f = f a
err e >>= f = err e

abbrev pub ◌>>◌ {ℓ} : {E A B : Type ℓ} → Result E A → Result E B → Result E B
m >> k = m >>= λ _. k

pub Result-cases {ℓ} :
    {E A : Type ℓ} (r : Result E A) → ((a : A) × (r ≡ ok a)) ⊎ ((e : E) × (r ≡ err e))
Result-cases (ok a) = inl (a, refl)
Result-cases (err e) = inr (e, refl)

-- A chain that succeeds has a first part that does.
pub bind-ok :
    {E A B : Type 0} (m : Result E A) (f : A → Result E B) (b : B)
    → (m >>= f) ≡ ok b
    → (a : A) × (m ≡ ok a) × (f a ≡ ok b)
bind-ok (ok a) f b e = (a, refl, e)
bind-ok (err x) f b e = cc
