-- ===== src/Protocol.antt =====
-- pkg/protocol: the updates of a user's event stream.
use xyncra_server.Common.{ℕ, suc, String, ◌≡◌, List, [], ◌∷◌}

pub record PackageDataUpdate : Type 0 where
  pub seq : ℕ
  pub kind : String
  pub payload : String
  pub created_at : ℕ

-- The sequence numbers go on from `n` without a gap.
abbrev pub IsContiguous : ℕ → List PackageDataUpdate → Type 0
IsContiguous n [] = Unit
IsContiguous n (u ∷ us) = (u.seq ≡ suc n) × IsContiguous (suc n) us
