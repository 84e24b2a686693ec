-- ===== src/Client/Sync/Batch.antt =====
-- pkg/client/sync.go: `ApplyUpdates` on a batch without gaps.
use xyncra_server.Common.{ℕ, suc, ◌+◌, ◌^◌, ◌<◌, ◌≡◌, refl, List, [], ◌∷◌, arith, length}
use xyncra_server.Fault.{Fault, Result, ok, err}
use xyncra_server.Sql.{IsSql}
use xyncra_server.Protocol.{PackageDataUpdate, IsContiguous}
use xyncra_server.Client.Sync.Env.{Env, Failure, sync_error, Manager}
use xyncra_server.Client.Sync.Apply.{apply_update, continued, apply_updates}
use xyncra_server.Client.Sync.Sequence.{
  IsLocalMax, Outcome, skipped, applied, gap, failed, apply_update-Outcome,
}

-- What a batch of `k` updates after a local maximum of `n` leaves: all are applied, or the first few
-- are and an error other than a gap stops the batch.
pub data Batch (env : Env) (n k : ℕ) (m' : Manager) (r : Result Failure (Unit {0})) : Type 0 where
  complete : IsLocalMax env m'.tables (n + k) → r ≡ ok tt → Batch env n k m' r
  stopped :
      (f : Fault) (j : ℕ)
      → j < k
      → IsLocalMax env m'.tables (n + j)
      → r ≡ err (sync_error f)
      → Batch env n k m' r

module _ (env : Env) (legal : IsSql env.sql) where
  Batch-suc :
      (n k : ℕ) (m' : Manager) (r : Result Failure (Unit {0}))
      → Batch env (suc n) k m' r
      → Batch env n (suc k) m' r
  Batch-suc n k m' r (complete h e) = complete (rw (move n k) at h) e
    where
      move : (a b : ℕ) → suc a + b ≡ a + suc b
      move a b = omega arith
  Batch-suc n k m' r (stopped f j lt h e) = stopped f (suc j) (omega arith) (rw (move n j) at h) e
    where
      move : (a b : ℕ) → suc a + b ≡ a + suc b
      move a b = omega arith

  continued-Batch :
      (u : PackageDataUpdate) (n k : ℕ) (m : Manager) (x : Manager × Result Failure (Unit {0}))
      (rest : Manager → Manager × Result Failure (Unit {0}))
      → u.seq ≡ suc n
      → IsLocalMax env m.tables n
      → Outcome env u n m x.0 x.1
      → ((m' : Manager)
          → IsLocalMax env m'.tables (suc n)
          → Batch env (suc n) k (rest m').0 (rest m').1)
      → Batch env n (suc k) (continued env rest x).0 (continued env rest x).1
  unfolding continued
  continued-Batch u n k m (m', ok tt) rest next r (applied _ local _ _) h =
      Batch-suc n k _ _ (h m' (rw (to_suc n) at local))
    where
      to_suc : (a : ℕ) → a + 1 ≡ suc a
      to_suc a = omega arith
  continued-Batch u n k m (m', err (sync_error f)) rest next r (failed _ _ same _) h =
      stopped f 0 (omega arith) (rw same (rw (zero_add n) r)) refl
    where
      zero_add : (a : ℕ) → a + 0 ≡ a
      zero_add a = omega arith
  continued-Batch u n k m x rest next r (skipped old _ _) h = absurd (omega arith)
  continued-Batch u n k m x rest next r (gap far _ _) h = absurd (omega arith)
  continued-Batch u n k m x rest next r (applied _ _ _ e) h = cc
  continued-Batch u n k m x rest next r (failed _ _ _ e) h = cc

  -- A batch that goes on from the local maximum without a gap is never refused as a gap: either all
  -- of it is applied and the local maximum is the last sequence number, or an error of the store or
  -- of a payload stops it after some updates. The numbers stay within uint32.
  pub apply_updates-Batch :
      (us : List PackageDataUpdate) (n : ℕ) (m : Manager)
      → IsLocalMax env m.tables n
      → IsContiguous n us
      → n + length us < 2 ^ 32
      → Batch env n (length us) (apply_updates env us m).0 (apply_updates env us m).1
  unfolding apply_updates
  apply_updates-Batch [] n m r c small = complete (rw (zero_add n) r) refl
    where
      zero_add : (a : ℕ) → a + 0 ≡ a
      zero_add a = omega arith
  apply_updates-Batch (u ∷ us) n m r c small =
      continued-Batch u n (length us) m (apply_update env u m) (apply_updates env us) c.0 r
        (apply_update-Outcome env legal u n m r (omega arith) (omega arith))
        (λ m' local. apply_updates-Batch us (suc n) m' local c.1 (omega arith))
