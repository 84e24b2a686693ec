-- ===== src/Server/Handlers/SyncUpdates/Entry.antt =====
-- internal/handler/sync_updates.go: what stands at each place of a page.
use xyncra_server.Common.{
  ℕ, zero, suc, ◌+◌, ◌≤◌, ◌<◌, ◌≡◌, refl, ◌≢◌, ◌↔◌, ◌⊎◌, inl, inr, String, true, Option, none, some,
  List, [], ◌∷◌, arith, In, Bool-cases, Option-cases, eq_iff, ◌==◌,
}
use xyncra_server.Protocol.{PackageDataUpdate, IsContiguous}
use xyncra_server.Server.Model.{UserUpdate}
use xyncra_server.Server.Stores.UserUpdates.{in_range}
use xyncra_server.Server.Handlers.SyncUpdates.{lookup_last, entry}
use xyncra_server.Server.Handlers.SyncUpdates.Fill.{run}

-- What stands at a seq: an update of the user that the table holds, or a gap where it holds none.
abbrev pub IsEntry : String → List UserUpdate → PackageDataUpdate → Type 0
IsEntry user_id rows u =
    ((r : UserUpdate) × In r rows
      × (r.user_id ≡ user_id)
      × (r.seq ≡ u.seq)
      × (r.kind ≡ u.kind)
      × (r.payload ≡ u.payload))
    ⊎ ((u.kind ≡ "gap") × ((r : UserUpdate) → In r rows → r.user_id ≡ user_id → r.seq ≢ u.seq))

lookup_last-some :
    (seq : ℕ) (us : List UserUpdate) (found : Option UserUpdate) (u : UserUpdate)
    → lookup_last seq us found ≡ some u
    → (found ≡ some u) ⊎ (In u us × (u.seq ≡ seq))
unfolding lookup_last
lookup_last-some seq [] found u e = inl e
lookup_last-some seq (x ∷ us) found u e =
    ground (arith, lookup_last-some seq us (some x) u, lookup_last-some seq us found u)

lookup_last_found :
    (seq : ℕ) (us : List UserUpdate) (u : UserUpdate) → lookup_last seq us (some u) ≢ none
unfolding lookup_last
lookup_last_found seq [] u e = cc
lookup_last_found seq (x ∷ us) u e =
    ground (arith, lookup_last_found seq us x, lookup_last_found seq us u)

lookup_last-none :
    (seq : ℕ) (us : List UserUpdate)
    → lookup_last seq us none ≡ none
    → (u : UserUpdate) → In u us
    → u.seq ≢ seq
unfolding lookup_last
lookup_last-none seq [] e u m = absurd m
lookup_last-none seq (x ∷ us) e u (inl p) = ground (arith, lookup_last_found seq us x)
lookup_last-none seq (x ∷ us) e u (inr m) = elim (Bool-cases (x.seq == seq)) [
  | inl same ↦ absurd (lookup_last_found seq us x (rw same at e))
  | inr other ↦ lookup_last-none seq us (rw other at e) u m
]

entry-seq : (now : ℕ → ℕ) (rows : List UserUpdate) (seq : ℕ) → (entry now rows seq).seq ≡ seq
unfolding entry
entry-seq now rows seq = elim (Option-cases (lookup_last seq rows none)) [
  | inl e ↦ rw (e, entry)
  | inr (u, e) ↦ ground (arith, lookup_last-some seq rows none u)
]

pub run-IsContiguous :
    (now : ℕ → ℕ) (n seq : ℕ) (rows : List UserUpdate)
    → IsContiguous seq (run n (suc seq) (entry now rows))
run-IsContiguous now zero seq rows = tt
run-IsContiguous now (suc n) seq rows =
    (entry-seq now rows (suc seq), run-IsContiguous now n (suc seq) rows)

-- Every entry of a run is the entry of a place in it.
pub run-entries :
    (P : PackageDataUpdate → Type 0) (n seq : ℕ) (at : ℕ → PackageDataUpdate)
    → ((k : ℕ) → seq ≤ k → k < seq + n → P (at k))
    → (u : PackageDataUpdate) → In u (run n seq at)
    → P u
run-entries P zero seq at h u m = absurd m
run-entries P (suc n) seq at h u (inl e) = rw e (h seq (omega arith) (omega arith))
run-entries P (suc n) seq at h u (inr m) =
    run-entries P n (suc seq) at (λ k lo hi. h k (omega arith) (omega arith)) u m

-- The rows that the query lists, seen through the table.
abbrev pub IsListed : String → ℕ → ℕ → List UserUpdate → List UserUpdate → Type 0
IsListed user_id after_seq last table rows =
    (r : UserUpdate) → In r rows ↔ (In r table × (in_range user_id after_seq last r ≡ true))

pub entry-IsEntry :
    (user_id : String) (now : ℕ → ℕ) (after_seq last : ℕ) (table rows : List UserUpdate) (k : ℕ)
    → IsListed user_id after_seq last table rows
    → after_seq < k
    → k ≤ last
    → IsEntry user_id table (entry now rows k)
unfolding entry in_range
entry-IsEntry user_id now after_seq last table rows k h lo hi =
    elim (Option-cases (lookup_last k rows none)) [
      | inl e ↦
          rw (e, entry)
            (inr (
              refl,
              λ r m same_user same_seq.
                  lookup_last-none k rows e r
                    ((h r).1 (m, ground (arith, eq_iff r.user_id user_id))) same_seq,
            ))
      | inr (u, e) ↦ elim (lookup_last-some k rows none u e) [
        | inl absent ↦ cc
        | inr (m, same) ↦
            let listed = (h u).0 m in
            rw (e, entry)
              (inl (u, listed.0, ground (arith, eq_iff u.user_id user_id), refl, refl, refl))
      ]
    ]
