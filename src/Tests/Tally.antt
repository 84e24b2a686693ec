-- ===== src/Tests/Tally.antt =====
-- Numbers as texts, for the sync state.
use Prim.Native.String.{[], ◌∷◌}
use xyncra_server.Common.{ℕ, zero, suc, ◌≡◌, refl, ap, String, some}
use xyncra_server.Client.Stores.SyncStates.{Strconv}

-- A number as that many strokes.
abbrev pub tally : ℕ → String
tally zero = ""
tally (suc n) = "|" ∷ tally n

abbrev pub strokes : String → ℕ
strokes [] = 0
strokes (c ∷ s) = suc (strokes s)

pub strokes-tally : (n : ℕ) → strokes (tally n) ≡ n
strokes-tally zero = refl
strokes-tally (suc n) = ap suc (strokes-tally n)

abbrev pub strconv : Strconv
strconv = record {
  format_uint = tally;
  parse_uint = λ s. some (strokes s);
  parse_uint-format_uint = λ n small. ap some (strokes-tally n);
}
