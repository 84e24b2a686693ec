-- ===== src/Server/Handlers/SyncUpdates/Fill.antt =====
-- The loop of internal/handler/sync_updates.go that fills the missing places.
use xyncra_server.Common.{
  ℕ, zero, suc, ◌+◌, ◌%◌, ◌^◌, ◌≤◌, ◌<◌, ◌≡◌, refl, none, some, List, [], ◌∷◌, arith, length,
}
use xyncra_server.Protocol.{PackageDataUpdate}
use xyncra_server.Server.Handlers.SyncUpdates.{fill}

-- The entries at `n` places from `seq` on.
abbrev pub run : ℕ → ℕ → (ℕ → PackageDataUpdate) → List PackageDataUpdate
run zero seq at = []
run (suc n) seq at = at seq ∷ run n (suc seq) at

pub fill-run :
    (fuel n seq last : ℕ) (at : ℕ → PackageDataUpdate)
    → seq + n ≡ last + 1
    → last + 1 < 2 ^ 32
    → n < fuel
    → fill fuel seq last at ≡ some (run n seq at)
unfolding fill
fill-run zero n seq last at e b h = elim h [ ]
fill-run (suc fuel) zero seq last at e b h = ground arith
fill-run (suc fuel) (suc n) seq last at e b h = ground (arith, fill-run fuel n (suc seq) last at)

-- Where the end is the largest uint32, the loop does not end from any seq up to it, whatever the fuel:
-- the counter wraps round before it passes the end.
pub fill-none :
    (fuel seq last : ℕ) (at : ℕ → PackageDataUpdate)
    → last + 1 ≡ 2 ^ 32
    → seq ≤ last
    → fill fuel seq last at ≡ none
unfolding fill
fill-none zero seq last at e h = refl
fill-none (suc fuel) seq last at e h = ground (arith, fill-none fuel ((seq + 1) % 2 ^ 32) last at)

pub length-run : (n seq : ℕ) (at : ℕ → PackageDataUpdate) → length (run n seq at) ≡ n
length-run zero seq at = refl
length-run (suc n) seq at = omega (arith, length-run n (suc seq) at)

pub fill_empty :
    (fuel seq last : ℕ) (at : ℕ → PackageDataUpdate)
    → last < seq
    → fill (fuel + 1) seq last at ≡ some []
unfolding fill
fill_empty fuel seq last at h = ground arith
