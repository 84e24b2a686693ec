-- ===== src/Common/Keys.antt =====
-- Lists of texts without repetition: the keys of a map, and the values of a container/list.
use Prim.Native.Nat.{ℕ, zero, suc, ◌+◌, ◌≤◌}
use Prim.Native.String.{String}
use mathlib.Core.Path.{◌≡◌, refl, sym, ap, ◌∙◌}
use mathlib.Core.Logic.{inl, inr}
use mathlib.Core.Bool.{Bool, true, false}
use mathlib.Core.Option.{Option, none, some}
use mathlib.Core.List.{List, [], ◌∷◌}
use native.Mathlib.Omega.{arith}
use text.Mathlib.Text.{◌==◌ as str_eq}
use text.Mathlib.TextEquality.{eq_iff}
use xyncra_server.Common.Tests.{if◌then◌else◌, Bool-cases}
use xyncra_server.Common.Lists.{length, take}

abbrev pub has : String → List String → Bool
has k [] = false
has k (x ∷ l) = if str_eq k x then true else has k l

abbrev pub remove : String → List String → List String
remove k [] = []
remove k (x ∷ l) = let rest = remove k l in if str_eq k x then rest else x ∷ rest

abbrev pub NoDup : List String → Type 0
NoDup [] = Unit
NoDup (x ∷ l) = (has x l ≡ false) × NoDup l

pub remove_absent : (k : String) (l : List String) → has k l ≡ false → remove k l ≡ l
remove_absent k [] h = refl
remove_absent k (x ∷ l) h = ground (arith, remove_absent k l)

pub length-remove :
    (k : String) (l : List String) → NoDup l → has k l ≡ true → length (remove k l) + 1 ≡ length l
length-remove k [] d h = cc
length-remove k (x ∷ l) d h = ground (arith, eq_iff k x, remove_absent k l, length-remove k l d.1)

pub has-remove_other :
    (j k : String) (l : List String) → str_eq j k ≡ false → has j (remove k l) ≡ has j l
has-remove_other j k [] h = refl
has-remove_other j k (x ∷ l) h =
    ground (arith, eq_iff j k, eq_iff k x, eq_iff j x, has-remove_other j k l h)

pub has-remove : (k : String) (l : List String) → has k (remove k l) ≡ false
has-remove k [] = refl
has-remove k (x ∷ l) = ground (arith, has-remove k l)

pub has-remove-le : (j k : String) (l : List String) → has j l ≡ false → has j (remove k l) ≡ false
has-remove-le j k [] h = refl
has-remove-le j k (x ∷ l) h = ground (arith, has-remove-le j k l)

pub NoDup-remove : (k : String) (l : List String) → NoDup l → NoDup (remove k l)
NoDup-remove k [] d = tt
NoDup-remove k (x ∷ l) d = ground (arith, NoDup-remove k l d.1, has-remove-le x k l d.0)

-- `container/list`: Back, and Remove of it.
abbrev pub back : List String → Option String
back [] = none
back (x ∷ []) = some x
back (x ∷ y ∷ l) = back (y ∷ l)

abbrev pub drop_back : List String → List String
drop_back [] = []
drop_back (x ∷ []) = []
drop_back (x ∷ y ∷ l) = x ∷ drop_back (y ∷ l)

pub take_all : (n : ℕ) (l : List String) → length l ≤ n → take n l ≡ l
take_all zero [] h = refl
take_all zero (x ∷ l) h = absurd (omega arith)
take_all (suc n) [] h = refl
take_all (suc n) (x ∷ l) h = ap (◌∷◌ x) (take_all n l (omega arith))

pub take-drop_back : (n : ℕ) (l : List String) → length l ≡ suc n → take n l ≡ drop_back l
take-drop_back zero [] h = refl
take-drop_back zero (x ∷ []) h = refl
take-drop_back zero (x ∷ y ∷ l) h = absurd (omega arith)
take-drop_back (suc n) [] h = absurd (omega arith)
take-drop_back (suc n) (x ∷ []) h = absurd (omega arith)
take-drop_back (suc n) (x ∷ y ∷ l) h = ap (◌∷◌ x) (take-drop_back n (y ∷ l) (omega arith))

pub length-take-le : (n : ℕ) (l : List String) → length (take n l) ≤ n
length-take-le zero l = omega arith
length-take-le (suc n) [] = omega arith
length-take-le (suc n) (x ∷ l) = omega (arith, length-take-le n l)

pub has-take : (k : String) (n : ℕ) (l : List String) → has k (take n l) ≡ true → has k l ≡ true
has-take k zero l h = cc
has-take k (suc n) [] h = cc
has-take k (suc n) (x ∷ l) h = ground (arith, has-take k n l)

pub has-take_absent :
    (k : String) (n : ℕ) (l : List String) → has k l ≡ false → has k (take n l) ≡ false
has-take_absent k n l h = elim (Bool-cases (has k (take n l))) [
  | inl found ↦ cc (has-take k n l found, h)
  | inr missing ↦ missing
]

pub NoDup-take : (n : ℕ) (l : List String) → NoDup l → NoDup (take n l)
NoDup-take zero l d = tt
NoDup-take (suc n) [] d = tt
NoDup-take (suc n) (x ∷ l) d = (has-take_absent x n l d.0, NoDup-take n l d.1)

pub take_le :
    (k : String) (m n : ℕ) (l : List String)
    → m ≤ n
    → has k (take m l) ≡ true
    → has k (take n l) ≡ true
take_le k zero n l h e = cc
take_le k (suc m) zero l h e = absurd (omega arith)
take_le k (suc m) (suc n) [] h e = cc
take_le k (suc m) (suc n) (x ∷ l) h e = ground (arith, take_le k m n l)

-- A key among the first `n` stays among them when another is taken out.
pub has-take-remove :
    (j k : String) (n : ℕ) (l : List String)
    → str_eq j k ≡ false
    → has j (take n l) ≡ true
    → has j (take n (remove k l)) ≡ true
has-take-remove j k zero l ne h = cc
has-take-remove j k (suc n) [] ne h = cc
has-take-remove j k (suc n) (x ∷ l) ne h = elim (Bool-cases (str_eq k x)) [
  | inl same ↦ rw same (
      take_le j n (suc n) (remove k l) (omega arith)
        (has-take-remove j k n l ne (ground (arith, eq_iff j k, eq_iff k x, eq_iff j x))))
  | inr other ↦ rw other (ground (arith, has-take-remove j k n l ne))
]

has-back : (b : String) (l : List String) → back l ≡ some b → has b l ≡ true
has-back b [] e = cc
has-back b (x ∷ []) e = ground (arith, eq_iff b x, some-injective x b e)
  where
    some-injective : (x b : String) → some x ≡ some b → b ≡ x
    some-injective x b e = cc
has-back b (x ∷ y ∷ l) e = ground (arith, has-back b (y ∷ l) e)

pub has-drop_back :
    (b : String) (l : List String)
    → NoDup l
    → back l ≡ some b
    → (k : String) → has k (drop_back l) ≡ has k (remove b l)
has-drop_back b [] d e k = cc
has-drop_back b (x ∷ []) d e k = ground (arith, eq_iff b x, has-back b (x ∷ []) e)
has-drop_back b (x ∷ y ∷ l) d e k =
    ground (arith, eq_iff b x, has-back b (y ∷ l) e, has-drop_back b (y ∷ l) d.1 e k)

pub has-remove_same :
    (j k : String) (l m : List String)
    → ((i : String) → has i l ≡ has i m)
    → has k (remove j l) ≡ has k (remove j m)
has-remove_same j k l m h = elim (Bool-cases (str_eq k j)) [
  | inl same ↦ rw ((eq_iff k j).0 same) (has-remove j l ∙ sym (has-remove j m))
  | inr other ↦ has-remove_other k j l other ∙ h k ∙ sym (has-remove_other k j m other)
]

pub take-take : (m n : ℕ) (l : List String) → m ≤ n → take m (take n l) ≡ take m l
take-take zero n l h = refl
take-take (suc m) zero l h = absurd (omega arith)
take-take (suc m) (suc n) [] h = refl
take-take (suc m) (suc n) (x ∷ l) h = ap (◌∷◌ x) (take-take m n l (omega arith))
