-- ===== src/Tests/Sorting.antt =====
-- Insertion sort, for the ordered query of the list engine.
use xyncra_server.Common.{
  ℕ, ◌≤◌, ◌≡◌, ◌↔◌, ◌⊎◌, inl, inr, List, [], ◌∷◌, arith, In, All, leb, if◌then◌else◌, Bool-cases,
}
use xyncra_server.Sql.{IsSorted}

module _ {Row : Type 0} (key : Row → ℕ) where
  unfoldable pub insert : Row → List Row → List Row
  insert r [] = r ∷ []
  insert r (x ∷ t) = let rest = insert r t in if leb (key r) (key x) then r ∷ x ∷ t else x ∷ rest

  unfoldable pub sort : List Row → List Row
  unfolding insert
  sort [] = []
  sort (r ∷ t) = insert r (sort t)

  In-below :
      (a r x : Row) (t u : List Row)
      → (In a u ↔ ((a ≡ r) ⊎ In a t))
      → (In a (x ∷ u) ↔ ((a ≡ r) ⊎ In a (x ∷ t)))
  In-below a r x t u ih = (there, back)
    where
      there : In a (x ∷ u) → (a ≡ r) ⊎ In a (x ∷ t)
      there (inl e) = inr (inl e)
      there (inr m) = elim (ih.0 m) [ inl e ↦ inl e | inr m' ↦ inr (inr m') ]

      back : (a ≡ r) ⊎ In a (x ∷ t) → In a (x ∷ u)
      back (inl e) = inr (ih.1 (inl e))
      back (inr (inl e)) = inl e
      back (inr (inr m)) = inr (ih.1 (inr m))

  In-insert : (a r : Row) (t : List Row) → In a (insert r t) ↔ ((a ≡ r) ⊎ In a t)
  unfolding insert
  In-insert a r [] = (λ h. h, λ h. h)
  In-insert a r (x ∷ t) = elim (Bool-cases (leb (key r) (key x))) [
    | inl le ↦ simp le (λ h. h, λ h. h)
    | inr gt ↦ simp gt (In-below a r x t (insert r t) (In-insert a r t))
  ]

  All-insert :
      (n : ℕ) (r : Row) (t : List Row)
      → n ≤ key r
      → All (λ x. n ≤ key x) t
      → All (λ x. n ≤ key x) (insert r t)
  unfolding insert
  All-insert n r [] h k = (h, tt)
  All-insert n r (x ∷ t) h k = ground (arith, All-insert n r t)

  All-le : (n m : ℕ) (t : List Row) → n ≤ m → All (λ x. m ≤ key x) t → All (λ x. n ≤ key x) t
  All-le n m [] h k = tt
  All-le n m (x ∷ t) h k = (omega arith, All-le n m t h k.1)

  insert-IsSorted : (r : Row) (t : List Row) → IsSorted key t → IsSorted key (insert r t)
  unfolding insert
  insert-IsSorted r [] h = (tt, tt)
  insert-IsSorted r (x ∷ t) h = elim (Bool-cases (leb (key r) (key x))) [
    | inl le ↦ simp le ((ground arith, All-le (key r) (key x) t (ground arith) h.0), h)
    | inr gt ↦ simp gt (All-insert (key x) r t (ground arith) h.0, insert-IsSorted r t h.1)
  ]

  pub sort-IsSorted : (t : List Row) → IsSorted key (sort t)
  unfolding sort
  sort-IsSorted [] = tt
  sort-IsSorted (r ∷ t) = insert-IsSorted r (sort t) (sort-IsSorted t)

  pub In-sort : (a : Row) (t : List Row) → In a (sort t) ↔ In a t
  unfolding sort
  In-sort a [] = (λ h. h, λ h. h)
  In-sort a (r ∷ t) = In-both (In-insert a r (sort t)) (In-sort a t)
    where
      In-both :
          (In a (insert r (sort t)) ↔ ((a ≡ r) ⊎ In a (sort t)))
          → (In a (sort t) ↔ In a t)
          → In a (insert r (sort t)) ↔ ((a ≡ r) ⊎ In a t)
      In-both h ih = (
        λ m. elim (h.0 m) [ inl e ↦ inl e | inr m' ↦ inr (ih.0 m') ],
        λ m. h.1 (elim m [ inl e ↦ inl e | inr m' ↦ inr (ih.1 m') ]),
      )
