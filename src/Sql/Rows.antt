-- ===== src/Sql/Rows.antt =====
-- Tables in which at most one row passes a test, such as a test of a primary key.
use xyncra_server.Common.{
  ℕ, ◌≤◌, ◌≡◌, refl, ap, sym, ◌∙◌, Bool, true, false, Option, none, some, List, [], ◌∷◌, inl, inr,
  arith, All, All-In, In, find_first, Bool-cases, if◌then◌else◌, keep, length, ◌==◌, suc,
}
use xyncra_server.Sql.{IsFirst, IsMax, update_rows}

module _ {Row : Type 0} where
  abbrev pub AtMostOne : (Row → Bool) → List Row → Type 0
  AtMostOne p [] = Unit
  AtMostOne p (x ∷ t) = (p x ≡ true → All (λ y. p y ≡ false) t) × AtMostOne p t

  find_first-All :
      (p : Row → Bool) (t : List Row) → All (λ y. p y ≡ false) t → find_first p t ≡ none
  find_first-All p [] h = refl
  find_first-All p (x ∷ t) h = ground (arith, find_first-All p t)

  -- Two rows that pass are one.
  pub AtMostOne-same :
      (p : Row → Bool) (t : List Row)
      → AtMostOne p t
      → (a b : Row) → In a t
      → In b t
      → p a ≡ true
      → p b ≡ true
      → a ≡ b
  AtMostOne-same p [] u a b ma mb pa pb = absurd ma
  AtMostOne-same p (x ∷ t) u a b (inl e) (inl e') pa pb = e ∙ sym e'
  AtMostOne-same p (x ∷ t) u a b (inl e) (inr m) pa pb =
      absurd (cc (All-In (λ y. p y ≡ false) t (u.0 (ap p (sym e) ∙ pa)) b m, pb))
  AtMostOne-same p (x ∷ t) u a b (inr m) (inl e) pa pb =
      absurd (cc (All-In (λ y. p y ≡ false) t (u.0 (ap p (sym e) ∙ pb)) a m, pa))
  AtMostOne-same p (x ∷ t) u a b (inr m) (inr m') pa pb = AtMostOne-same p t u.1 a b m m' pa pb

  -- Then the answer of `First` is determined.
  pub IsFirst-find_first :
      (p : Row → Bool) (t : List Row) (r : Option Row)
      → AtMostOne p t
      → IsFirst p t r
      → r ≡ find_first p t
  IsFirst-find_first p t none u h = rw (find_first-All p t h)
  IsFirst-find_first p [] (some r) u h = absurd h.0
  IsFirst-find_first p (x ∷ t) (some r) u (inl e, h) = rw (sym_true e h) (ap some e)
    where
      sym_true : r ≡ x → p r ≡ true → p x ≡ true
      sym_true e h = cc
  IsFirst-find_first p (x ∷ t) (some r) u (inr m, h) = elim (Bool-cases (p x)) [
    | inl top ↦ cc (All-In (λ y. p y ≡ false) t (u.0 top) r m)
    | inr other ↦ rw other (IsFirst-find_first p t (some r) u.1 (m, h))
  ]

-- The rows of an updated table are those of the table, each updated if it passes.
module _ {Row : Type 0} (p : Row → Bool) (f : Row → Row) where
  pub update_rows-In :
      (t : List Row) (a : Row) → In a t → In (if p a then f a else a) (update_rows p f t)
  update_rows-In [] a m = absurd m
  update_rows-In (x ∷ t) a (inl same) = inl (ap (λ (y : Row). if p y then f y else y) same)
  update_rows-In (x ∷ t) a (inr m) = inr (update_rows-In t a m)

  pub In-update_rows :
      (t : List Row) (b : Row)
      → In b (update_rows p f t)
      → (a : Row) × In a t × (b ≡ (if p a then f a else a))
  In-update_rows [] b m = absurd m
  In-update_rows (x ∷ t) b (inl same) = (x, inl refl, same)
  In-update_rows (x ∷ t) b (inr m) = let (a, ma, e) = In-update_rows t b m in (a, inr ma, e)

-- A count of the rows that pass.
module _ {Row : Type 0} (p : Row → Bool) where
  pub count-none : (t : List Row) → ((a : Row) → In a t → p a ≡ false) → length (keep p t) ≡ 0
  count-none [] h = refl
  count-none (x ∷ t) h = rw (h x (inl refl)) (count-none t (λ a m. h a (inr m)))

  pub count-some :
      (t : List Row) (n : ℕ)
      → n ≡ length (keep p t)
      → (n == 0) ≡ false
      → (a : Row) × In a t × (p a ≡ true)
  count-some [] n e h = absurd (ground arith)
  count-some (x ∷ t) n e h = elim (Bool-cases (p x)) [
    | inl passes ↦ (x, inl refl, passes)
    | inr fails ↦ let (a, m, passes) = count-some t n (rw fails at e) h in (a, inr m, passes)
  ]

module _ {Row : Type 0} (p : Row → Bool) where
  positive : (n : ℕ) → suc n ≡ 0 → ⊥
  positive n h = omega arith

  pub none_counted : (t : List Row) → length (keep p t) ≡ 0 → (a : Row) → In a t → p a ≡ false
  none_counted [] h a m = absurd m
  none_counted (x ∷ t) h a (inl same) = elim (Bool-cases (p x)) [
    | inl passes ↦ absurd (positive (length (keep p t)) (rw passes at h))
    | inr fails ↦ rw same fails
  ]
  none_counted (x ∷ t) h a (inr m) = elim (Bool-cases (p x)) [
    | inl passes ↦ absurd (positive (length (keep p t)) (rw passes at h))
    | inr fails ↦ none_counted t (rw fails at h) a m
  ]

-- Two answers of MAX are the same.
pub IsMax-le :
    {Row : Type 0} (key : Row → ℕ) (p : Row → Bool) (t : List Row) (a b : ℕ)
    → IsMax key p t a
    → IsMax key p t b
    → a ≤ b
IsMax-le key p t a b h k = elim h.reached [
  | inl zero ↦ omega arith
  | inr (r, m, passes, same) ↦ omega (arith, k.above r m passes)
]

-- An update that leaves a test as it is: the first row that passes is the one updated.
module _ {Row : Type 0} (p : Row → Bool) (f : Row → Row) (keeps : (r : Row) → p (f r) ≡ p r) where
  pub find_first-update_rows :
      (t : List Row) (r : Row)
      → find_first p t ≡ some r
      → find_first p (update_rows p f t) ≡ some (f r)
  find_first-update_rows [] r e = cc
  find_first-update_rows (x ∷ t) r e = elim (Bool-cases (p x)) [
    | inl top ↦
        let same : x ≡ r = cc (rw top at e) in
        rw (top, keeps x, top) (ap (λ (y : Row). some (f y)) same)
    | inr other ↦ rw (other, other) (find_first-update_rows t r (rw other at e))
  ]

  All-update_rows :
      (t : List Row) → All (λ y. p y ≡ false) t → All (λ y. p y ≡ false) (update_rows p f t)
  All-update_rows [] h = tt
  All-update_rows (x ∷ t) h = ground (arith, All-update_rows t h.1)

  pub AtMostOne-update_rows : (t : List Row) → AtMostOne p t → AtMostOne p (update_rows p f t)
  AtMostOne-update_rows [] u = tt
  AtMostOne-update_rows (x ∷ t) u = (
    λ top.
        All-update_rows t (
          u.0 (elim (Bool-cases (p x)) [ inl passes ↦ passes | inr fails ↦ cc (rw fails at top) ])),
    AtMostOne-update_rows t u.1,
  )
