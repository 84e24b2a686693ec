-- ===== src/Server/Stores/Fanout/Fanned.antt =====
-- The members' streams of updates after a fan-out.
use xyncra_server.Common.{ℕ, suc, ◌+◌, ◌%◌, ◌^◌, ◌≡◌, refl, String, List, [], ◌∷◌, inl, inr, str_eq}
use xyncra_server.Fault.{Fault, Result, ok, Result-cases}
use xyncra_server.Sql.{Sql, IsSql, IsMax}
use xyncra_server.Server.Model.{UserUpdate, Tables}
use xyncra_server.Server.Stores.UserUpdates.{get_latest_seq}
use xyncra_server.Server.Stores.Fanout.{allocate}

abbrev pub IsLatest : String → List UserUpdate → ℕ → Type 0
IsLatest user_id t n = IsMax (λ (u : UserUpdate). u.seq) (λ u. str_eq u.user_id user_id) t n

-- One update for each member, in order, each at the seq after the member's latest in the table.
abbrev pub Fanned : List UserUpdate → List String → List UserUpdate → Type 0
Fanned t [] [] = Unit
Fanned t [] (u ∷ us) = ⊥
Fanned t (m ∷ ms) [] = ⊥
Fanned t (m ∷ ms) (u ∷ us) =
    (u.user_id ≡ m)
    × ((latest : ℕ) × IsLatest m t latest × (u.seq ≡ (latest + 1) % 2 ^ 32))
    × Fanned t ms us

module _ (now : ℕ) (new_id : ℕ → String) (kind : String) (sql : Sql) (legal : IsSql sql) where
  pub allocate-Fanned :
      (ms : List String) (i : ℕ) (payload : String) (db : Tables) (us : List UserUpdate)
      → allocate now new_id kind sql i payload ms db ≡ ok us
      → Fanned db.user_updates ms us
  unfolding allocate get_latest_seq
  allocate-Fanned [] i payload db us e = let back : us ≡ [] = cc e in rw back tt
  allocate-Fanned (m ∷ ms) i payload db us e = elim (Result-cases (get_latest_seq sql m db)) [
    | inl (latest, got) ↦ elim (Result-cases (allocate now new_id kind sql (suc i) payload ms db)) [
      | inl (rest, allocated) ↦
          fanned_lem us rest (allocate-Fanned ms (suc i) payload db rest allocated)
            (legal.max_answer UserUpdate (λ u. u.seq) (λ u. str_eq u.user_id m) db.user_updates
              latest got)
            (rw (got, allocated) at e)
      | inr (f, failed) ↦ cc (rw (got, failed) at e)
    ]
    | inr (f, failed) ↦ cc (rw failed at e)
  ]
    where
      the_updates : List UserUpdate → Result Fault (List UserUpdate)
      the_updates us = ok us

      fanned_lem :
          {latest : ℕ} (us rest : List UserUpdate)
          → Fanned db.user_updates ms rest
          → IsLatest m db.user_updates latest
          → the_updates (
              record {
                id = new_id i;
                user_id = m;
                seq = (latest + 1) % 2 ^ 32;
                kind = kind;
                payload = payload;
                created_at = now;
              }
              ∷ rest)
            ≡ ok us
          → Fanned db.user_updates (m ∷ ms) us
      fanned_lem {latest = latest} us rest h top same =
          let back : us
              ≡ record {
                id = new_id i;
                user_id = m;
                seq = (latest + 1) % 2 ^ 32;
                kind = kind;
                payload = payload;
                created_at = now;
              }
                ∷ rest =
            cc same in
          rw back (refl, (latest, top, refl), h)
