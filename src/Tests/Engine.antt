-- ===== src/Tests/Engine.antt =====
-- An engine over lists, with what `Sql.IsSql` asks of one.
use xyncra_server.Common.{
  ℕ, ◌≤◌, ◌≡◌, refl, ◌↔◌, ◌⊎◌, inl, inr, Bool, true, false, Option, none, some, List, [], ◌∷◌, ◌++◌,
  arith, keep, length, In, All, All-In, find_first, ltb, if◌then◌else◌, Bool-cases,
}
use xyncra_server.Fault.{Fault, duplicate_key, Result, ok, err}
use xyncra_server.Sql.{Sql, IsSql, IsUp, IsFirst, IsLast, IsMax, IsSorted, update_rows, upsert_rows}
use xyncra_server.Tests.Sorting.{sort, sort-IsSorted, In-sort}

module _ {Row : Type 0} where
  abbrev max_key : (Row → ℕ) → (Row → Bool) → List Row → ℕ
  max_key key p [] = 0
  max_key key p (r ∷ t) =
      let rest = max_key key p t in if p r then (if ltb rest (key r) then key r else rest) else rest

  abbrev later_of : (Row → ℕ) → Row → Option Row → Option Row
  later_of key x none = some x
  later_of key x (some y) = if ltb (key y) (key x) then some x else some y

  abbrev find_last : (Row → ℕ) → (Row → Bool) → List Row → Option Row
  find_last key p [] = none
  find_last key p (r ∷ t) =
      let rest = find_last key p t in if p r then later_of key r rest else rest

  later_of-IsLast :
      (key : Row → ℕ) (p : Row → Bool) (x : Row) (t : List Row) (r : Option Row)
      → p x ≡ true
      → IsLast key p t r
      → IsLast key p (x ∷ t) (later_of key x r)
  later_of-IsLast key p x t none passes h = (
    inl refl,
    passes,
    λ y my h_y. elim my [
      | inl same ↦ rw same (omega arith)
      | inr m ↦ cc (All-In (λ z. p z ≡ false) t h y m, h_y)
    ],
  )
  later_of-IsLast key p x t (some y) passes (my, h_y, above) =
      elim (Bool-cases (ltb (key y) (key x))) [
        | inl more ↦ rw more (
          inl refl,
          passes,
          λ z mz h_z. elim mz [
            | inl same ↦ rw same (omega arith)
            | inr m ↦ ground (arith, above z m h_z)
          ],
        )
        | inr less ↦ rw less (
          inr my,
          h_y,
          λ z mz h_z. elim mz [ inl same ↦ rw same (ground arith) | inr m ↦ above z m h_z ],
        )
      ]

  find_last-IsLast :
      (key : Row → ℕ) (p : Row → Bool) (t : List Row) → IsLast key p t (find_last key p t)
  find_last-IsLast key p [] = tt
  find_last-IsLast key p (x ∷ t) = elim (Bool-cases (p x)) [
    | inl passes ↦
        rw passes (later_of-IsLast key p x t (find_last key p t) passes (find_last-IsLast key p t))
    | inr fails ↦ rw fails (skipped (find_last key p t) fails (find_last-IsLast key p t))
  ]
    where
      skipped : (r : Option Row) → p x ≡ false → IsLast key p t r → IsLast key p (x ∷ t) r
      skipped none fails h = (fails, h)
      skipped (some m) fails (there, h, above) = (
        inr there,
        h,
        λ z mz h_z. elim mz [ inl same ↦ cc (same, fails, h_z) | inr later ↦ above z later h_z ],
      )

  abbrev any_clash : (Row → Row → Bool) → Row → List Row → Bool
  any_clash clash r [] = false
  any_clash clash r (x ∷ t) = let rest = any_clash clash r t in if clash r x then true else rest

  abbrev inserted : (Row → Row → Bool) → Row → List Row → Result Fault (List Row)
  inserted clash r t = if any_clash clash r t then err duplicate_key else ok (t ++ r ∷ [])

  IsFirst-find_first_lem : (p : Row → Bool) (t : List Row) → IsFirst p t (find_first p t)
  IsFirst-find_first_lem p [] = tt
  IsFirst-find_first_lem p (x ∷ t) = elim (Bool-cases (p x)) [
    | inl yes_x ↦ simp yes_x (inl refl, refl)
    | inr no_x ↦ simp no_x (later (find_first p t) no_x (IsFirst-find_first_lem p t))
  ]
    where
      later : (o : Option Row) → p x ≡ false → IsFirst p t o → IsFirst p (x ∷ t) o
      later none no_x h = (no_x, h)
      later (some r) no_x h = (inr h.0, h.1)

  In-keep : (p : Row → Bool) (t : List Row) (r : Row) → In r (keep p t) ↔ (In r t × (p r ≡ true))
  In-keep p [] r = (λ m. absurd m, λ m. absurd m.0)
  In-keep p (x ∷ t) r = elim (Bool-cases (p x)) [
    | inl passes ↦ simp passes (kept passes (In-keep p t r))
    | inr fails ↦ simp fails (dropped fails (In-keep p t r))
  ]
    where
      kept :
          p x ≡ true
          → (In r (keep p t) ↔ (In r t × (p r ≡ true)))
          → In r (x ∷ keep p t) ↔ (In r (x ∷ t) × (p r ≡ true))
      kept h ih = (
        elim [ inl e ↦ (inl e, cc (h, e)) | inr m ↦ (inr (ih.0 m).0, (ih.0 m).1) ],
        λ m. elim m.0 [ inl e ↦ inl e | inr k ↦ inr (ih.1 (k, m.1)) ],
      )

      dropped :
          p x ≡ false
          → (In r (keep p t) ↔ (In r t × (p r ≡ true)))
          → In r (keep p t) ↔ (In r (x ∷ t) × (p r ≡ true))
      dropped h ih = (
        λ m. (inr (ih.0 m).0, (ih.0 m).1),
        λ m. elim m.0 [ inl e ↦ cc (h, e, m.1) | inr k ↦ ih.1 (k, m.1) ],
      )

  max_key-above :
      (key : Row → ℕ) (p : Row → Bool) (t : List Row) (r : Row)
      → In r t
      → p r ≡ true
      → key r ≤ max_key key p t
  max_key-above key p [] r m h = absurd m
  max_key-above key p (x ∷ t) r (inl e) h =
      let passes : p x ≡ true = cc in let same : key r ≡ key x = cc in rw passes (ground arith)
  max_key-above key p (x ∷ t) r (inr m) h = ground (arith, max_key-above key p t r m h)

  Reached : (Row → ℕ) → (Row → Bool) → List Row → ℕ → Type 0
  Reached key p t m = (m ≡ 0) ⊎ ((r : Row) × In r t × (p r ≡ true) × (key r ≡ m))

  max_key-Reached :
      (key : Row → ℕ) (p : Row → Bool) (t : List Row) → Reached key p t (max_key key p t)
  unfolding Reached
  max_key-Reached key p [] = inl refl
  max_key-Reached key p (x ∷ t) = elim (Bool-cases (p x)) [
    | inl passes ↦ elim (Bool-cases (ltb (max_key key p t) (key x))) [
      | inl more ↦ rw (passes, more) (inr (x, inl refl, passes, refl))
      | inr less ↦ rw (passes, less) (later (max_key-Reached key p t))
    ]
    | inr fails ↦ rw fails (later (max_key-Reached key p t))
  ]
    where
      later : Reached key p t (max_key key p t) → Reached key p (x ∷ t) (max_key key p t)
      later (inl e) = inl e
      later (inr (r, m, h, e)) = inr (r, inr m, h, e)

  any_clash-All :
      (clash : Row → Row → Bool) (r : Row) (t : List Row)
      → any_clash clash r t ≡ false
      → All (λ x. clash r x ≡ false) t
  any_clash-All clash r [] e = tt
  any_clash-All clash r (x ∷ t) e = ground (arith, any_clash-All clash r t)

abbrev pub list_engine : Sql
list_engine = record {
  first = λ Row p t. ok (find_first p t);
  last = λ Row key p t. ok (find_last key p t);
  find = λ Row key p t. ok (sort key (keep p t));
  count = λ Row p t. ok (length (keep p t));
  max = λ Row key p t. ok (max_key key p t);
  update = λ Row p f t. ok (update_rows p f t, length (keep p t));
  insert = λ Row clash r t. inserted clash r t;
  upsert = λ Row same merge r t. ok (upsert_rows same merge r t);
}

ok-injective : {A : Type 0} (a b : A) (r : Result Fault A) → r ≡ ok a → r ≡ ok b → b ≡ a
ok-injective a b r e f = cc

first_lem :
    {Row : Type 0} (p : Row → Bool) (t : List Row) (r : Option Row)
    → list_engine.first Row p t ≡ ok r
    → IsFirst p t r
first_lem p t r e =
    rw (ok-injective (find_first p t) r (list_engine.first _ p t) refl e)
      (IsFirst-find_first_lem p t)

last_lem :
    {Row : Type 0} (key : Row → ℕ) (p : Row → Bool) (t : List Row) (r : Option Row)
    → list_engine.last Row key p t ≡ ok r
    → IsLast key p t r
last_lem key p t r e =
    rw (ok-injective (find_last key p t) r (list_engine.last _ key p t) refl e)
      (find_last-IsLast key p t)

find_lem :
    {Row : Type 0} (key : Row → ℕ) (p : Row → Bool) (t rs : List Row)
    → list_engine.find Row key p t ≡ ok rs
    → IsSorted key rs × ((r : Row) → In r rs ↔ (In r t × (p r ≡ true)))
find_lem key p t rs e =
    rw (ok-injective (sort key (keep p t)) rs (list_engine.find _ key p t) refl e)
      (sort-IsSorted key (keep p t), λ r. ↔-trans (In-sort key r (keep p t)) (In-keep p t r))
  where
    ↔-trans : {A B C : Type 0} → (A ↔ B) → (B ↔ C) → (A ↔ C)
    ↔-trans h k = (λ a. k.0 (h.0 a), λ c. h.1 (k.1 c))

max_lem :
    {Row : Type 0} (key : Row → ℕ) (p : Row → Bool) (t : List Row) (m : ℕ)
    → list_engine.max Row key p t ≡ ok m
    → IsMax key p t m
unfolding Reached
max_lem key p t m e =
    rw (ok-injective (max_key key p t) m (list_engine.max _ key p t) refl e)
      (record { above = max_key-above key p t; reached = max_key-Reached key p t })

insert_lem :
    {Row : Type 0} (clash : Row → Row → Bool) (r : Row) (t t' : List Row)
    → list_engine.insert Row clash r t ≡ ok t'
    → (t' ≡ t ++ r ∷ []) × All (λ x. clash r x ≡ false) t
insert_lem clash r t t' e = elim (Bool-cases (any_clash clash r t)) [
  | inl some_clash ↦ cc (rw some_clash at e)
  | inr none_clash ↦ (cc (rw none_clash at e), any_clash-All clash r t none_clash)
]

pub list_engine-IsSql : IsSql list_engine
list_engine-IsSql = record {
  first_answer = λ Row p t r e. first_lem p t r e;
  first_failure = λ Row p t f e. cc;
  last_answer = λ Row key p t r e. last_lem key p t r e;
  find_answer = λ Row key p t rs e. find_lem key p t rs e;
  count_answer = λ Row p t n e. cc;
  max_answer = λ Row key p t m e. max_lem key p t m e;
  update_answer = λ Row p f t t' n e. (cc, cc);
  insert_answer = λ Row clash r t t' e. insert_lem clash r t t' e;
  upsert_answer = λ Row same merge r t t' e. cc;
}

pub list_engine-IsUp : IsUp list_engine
list_engine-IsUp = record {
  first_ok = λ Row p t. (find_first p t, refl);
  find_ok = λ Row key p t. (sort key (keep p t), refl);
  count_ok = λ Row p t. (length (keep p t), refl);
  update_ok = λ Row p f t. (update_rows p f t, length (keep p t), refl);
}
