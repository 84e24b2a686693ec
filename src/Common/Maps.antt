-- ===== src/Common/Maps.antt =====
-- Go's maps with text keys, as association lists, and its sets of texts.
use Prim.Native.String.{String}
use mathlib.Core.Path.{◌≡◌, refl, sym}
use mathlib.Core.Logic.{inl, inr}
use mathlib.Core.Bool.{false, not, ◌&&◌, ◌||◌}
use mathlib.Core.Option.{Option, none, some}
use mathlib.Core.List.{List, [], ◌∷◌}
use native.Mathlib.Omega.{arith}
use text.Mathlib.Text.{◌==◌ as str_eq}
use text.Mathlib.TextEquality.{eq_iff}
use xyncra_server.Common.Tests.{if◌then◌else◌, Bool-cases}
use xyncra_server.Common.Keys.{has, remove, NoDup, has-remove, has-remove_other}

module _ {A : Type 0} where
  abbrev pub get_key : String → List (String × A) → Option A
  get_key k [] = none
  get_key k ((x, a) ∷ m) = let rest = get_key k m in if str_eq k x then some a else rest

  abbrev pub delete_key : String → List (String × A) → List (String × A)
  delete_key k [] = []
  delete_key k ((x, a) ∷ m) =
      let rest = delete_key k m in if str_eq k x then rest else (x, a) ∷ rest

  abbrev pub set_key : String → A → List (String × A) → List (String × A)
  set_key k a m = (k, a) ∷ delete_key k m

  pub get_key-delete_key : (k : String) (m : List (String × A)) → get_key k (delete_key k m) ≡ none
  get_key-delete_key k [] = refl
  get_key-delete_key k ((x, a) ∷ m) = elim (Bool-cases (str_eq k x)) [
    | inl same ↦ rw same (get_key-delete_key k m)
    | inr other ↦ rw (other, other) (get_key-delete_key k m)
  ]

  pub get_key-delete_key_other :
      (j k : String) (m : List (String × A))
      → str_eq j k ≡ false
      → get_key j (delete_key k m) ≡ get_key j m
  get_key-delete_key_other j k [] h = refl
  get_key-delete_key_other j k ((x, a) ∷ m) h = elim (Bool-cases (str_eq k x)) [
    | inl same ↦
        let apart : str_eq j x ≡ false = rw (sym ((eq_iff k x).0 same)) h in
        rw (same, apart) (get_key-delete_key_other j k m h)
    | inr other ↦ rw (other, get_key-delete_key_other j k m h) refl
  ]

  pub get_key-set_key :
      (k : String) (a : A) (m : List (String × A)) → get_key k (set_key k a m) ≡ some a
  get_key-set_key k a m = rw ((eq_iff k k).1 refl) refl

  pub get_key-set_key_other :
      (j k : String) (a : A) (m : List (String × A))
      → str_eq j k ≡ false
      → get_key j (set_key k a m) ≡ get_key j m
  get_key-set_key_other j k a m h = rw h (get_key-delete_key_other j k m h)

  pub get_key-set_key_all :
      (j k : String) (a : A) (m : List (String × A))
      → get_key j (set_key k a m) ≡ (if str_eq j k then some a else get_key j m)
  get_key-set_key_all j k a m = elim (Bool-cases (str_eq j k)) [
    | inl same ↦ rw same refl
    | inr other ↦ rw other (get_key-delete_key_other j k m other)
  ]

  pub get_key-delete_key_all :
      (j k : String) (m : List (String × A))
      → get_key j (delete_key k m) ≡ (if str_eq j k then none else get_key j m)
  get_key-delete_key_all j k m = elim (Bool-cases (str_eq j k)) [
    | inl same ↦ rw ((eq_iff j k).0 same, (eq_iff k k).1 refl) (get_key-delete_key k m)
    | inr other ↦ rw other (get_key-delete_key_other j k m other)
  ]

-- A set of texts: a list without repetitions.
abbrev pub insert_key : String → List String → List String
insert_key k l = if has k l then l else k ∷ l

pub has-insert_key :
    (j k : String) (l : List String) → has j (insert_key k l) ≡ (str_eq j k || has j l)
has-insert_key j k l = ground (arith, eq_iff j k)

pub NoDup-insert_key : (k : String) (l : List String) → NoDup l → NoDup (insert_key k l)
NoDup-insert_key k l d = elim (Bool-cases (has k l)) [
  | inl there ↦ rw there d
  | inr absent ↦ rw absent (absent, d)
]

pub has-remove_all :
    (j k : String) (l : List String) → has j (remove k l) ≡ (not (str_eq j k) && has j l)
has-remove_all j k l = elim (Bool-cases (str_eq j k)) [
  | inl same ↦ rw ((eq_iff j k).0 same, (eq_iff k k).1 refl) (has-remove k l)
  | inr other ↦ rw other (has-remove_other j k l other)
]
