-- ===== src/Sql.antt =====
-- The SQL statements that the stores run through GORM. The engine is third-party code: it is a
-- record of the calls that the stores make, with what SQL and GORM document of a call that
-- succeeds. A call may also fail, for any reason. A table is the list of its rows.
pub mod Rows
use xyncra_server.Common.{
  ℕ, ◌≤◌, ◌≡◌, ◌≢◌, ◌⊎◌, ◌↔◌, Bool, true, false, Option, none, some, List, [], ◌∷◌, ◌++◌, keep,
  length, In, All, if◌then◌else◌,
}
use xyncra_server.Fault.{Fault, not_found, Result, ok, err}

pub record Sql : Type 1 where
  -- `First`: a row that matches, if there is one.
  pub first : (Row : Type 0) → (Row → Bool) → List Row → Result Fault (Option Row)
  -- `Order(key DESC).First`: one with the largest key.
  pub last : (Row : Type 0) → (Row → ℕ) → (Row → Bool) → List Row → Result Fault (Option Row)
  -- `Order(key ASC).Find`.
  pub find : (Row : Type 0) → (Row → ℕ) → (Row → Bool) → List Row → Result Fault (List Row)
  pub count : (Row : Type 0) → (Row → Bool) → List Row → Result Fault ℕ
  -- `SELECT COALESCE(MAX(key), 0)`.
  pub max : (Row : Type 0) → (Row → ℕ) → (Row → Bool) → List Row → Result Fault ℕ
  -- `Updates`: the table after it, and `RowsAffected`.
  pub update : (Row : Type 0) → (Row → Bool) → (Row → Row) → List Row → Result Fault (List Row × ℕ)
  -- `Create`; the test says which rows break a unique index.
  pub insert : (Row : Type 0) → (Row → Row → Bool) → Row → List Row → Result Fault (List Row)
  -- `Save`, and `Create` with `OnConflict … DoUpdates`: the row with the same key is merged.
  pub upsert :
      (Row : Type 0)
      → (Row → Row → Bool)
      → (Row → Row → Row)
      → Row
      → List Row
      → Result Fault (List Row)

-- UPDATE … SET … WHERE: the rows that match are changed, each in its place.
abbrev pub update_rows : {Row : Type 0} → (Row → Bool) → (Row → Row) → List Row → List Row
update_rows p f [] = []
update_rows p f (r ∷ t) = (if p r then f r else r) ∷ update_rows p f t

-- INSERT … ON CONFLICT DO UPDATE: the first row in conflict is merged with the new one, or the
-- new row is added.
abbrev pub upsert_rows :
    {Row : Type 0} → (Row → Row → Bool) → (Row → Row → Row) → Row → List Row → List Row
upsert_rows same merge r [] = r ∷ []
upsert_rows same merge r (x ∷ t) =
    let rest = upsert_rows same merge r t in if same r x then merge r x ∷ t else x ∷ rest

-- The answer of `First`: none if no row matches, else some row that does.
abbrev pub IsFirst : {Row : Type 0} → (Row → Bool) → List Row → Option Row → Type 0
IsFirst p t none = All (λ x. p x ≡ false) t
IsFirst p t (some r) = In r t × (p r ≡ true)

-- The answer of `First` in descending order.
abbrev pub IsLast : {Row : Type 0} → (Row → ℕ) → (Row → Bool) → List Row → Option Row → Type 0
IsLast key p t none = All (λ x. p x ≡ false) t
IsLast {Row = Row} key p t (some m) =
    In m t × (p m ≡ true) × ((x : Row) → In x t → p x ≡ true → key x ≤ key m)

abbrev pub IsSorted : {Row : Type 0} → (Row → ℕ) → List Row → Type 0
IsSorted key [] = Unit
IsSorted key (r ∷ t) = All (λ x. key r ≤ key x) t × IsSorted key t

-- The answer of MAX: a bound of the column, and its value in some row, or 0 where no row matches.
pub record IsMax {Row : Type 0} (key : Row → ℕ) (p : Row → Bool) (t : List Row) (m : ℕ)
    : Type 0 where
  pub above : (r : Row) → In r t → p r ≡ true → key r ≤ m
  pub reached : (m ≡ 0) ⊎ ((r : Row) × In r t × (p r ≡ true) × (key r ≡ m))

-- What is documented of the statements that succeed.
pub record IsSql (sql : Sql) : Type 1 where
  pub first_answer :
      (Row : Type 0) (p : Row → Bool) (t : List Row) (r : Option Row)
      → sql.first Row p t ≡ ok r
      → IsFirst p t r
  -- A failure is told apart from a missing record.
  pub first_failure :
      (Row : Type 0) (p : Row → Bool) (t : List Row) (f : Fault)
      → sql.first Row p t ≡ err f
      → f ≢ not_found
  pub last_answer :
      (Row : Type 0) (key : Row → ℕ) (p : Row → Bool) (t : List Row) (r : Option Row)
      → sql.last Row key p t ≡ ok r
      → IsLast key p t r
  pub find_answer :
      (Row : Type 0) (key : Row → ℕ) (p : Row → Bool) (t rs : List Row)
      → sql.find Row key p t ≡ ok rs
      → IsSorted key rs × ((r : Row) → In r rs ↔ (In r t × (p r ≡ true)))
  pub count_answer :
      (Row : Type 0) (p : Row → Bool) (t : List Row) (n : ℕ)
      → sql.count Row p t ≡ ok n
      → n ≡ length (keep p t)
  pub max_answer :
      (Row : Type 0) (key : Row → ℕ) (p : Row → Bool) (t : List Row) (m : ℕ)
      → sql.max Row key p t ≡ ok m
      → IsMax key p t m
  pub update_answer :
      (Row : Type 0) (p : Row → Bool) (f : Row → Row) (t t' : List Row) (n : ℕ)
      → sql.update Row p f t ≡ ok (t', n)
      → (t' ≡ update_rows p f t) × (n ≡ length (keep p t))
  pub insert_answer :
      (Row : Type 0) (clash : Row → Row → Bool) (r : Row) (t t' : List Row)
      → sql.insert Row clash r t ≡ ok t'
      → (t' ≡ t ++ r ∷ []) × All (λ x. clash r x ≡ false) t
  pub upsert_answer :
      (Row : Type 0) (same : Row → Row → Bool) (merge : Row → Row → Row) (r : Row) (t t' : List Row)
      → sql.upsert Row same merge r t ≡ ok t'
      → t' ≡ upsert_rows same merge r t

-- An engine whose queries and updates succeed.
pub record IsUp (sql : Sql) : Type 1 where
  pub first_ok :
      (Row : Type 0) (p : Row → Bool) (t : List Row) → (r : Option Row) × (sql.first Row p t ≡ ok r)
  pub find_ok :
      (Row : Type 0) (key : Row → ℕ) (p : Row → Bool) (t : List Row)
      → (rs : List Row) × (sql.find Row key p t ≡ ok rs)
  pub count_ok :
      (Row : Type 0) (p : Row → Bool) (t : List Row) → (n : ℕ) × (sql.count Row p t ≡ ok n)
  pub update_ok :
      (Row : Type 0) (p : Row → Bool) (f : Row → Row) (t : List Row)
      → (t' : List Row) × (n : ℕ) × (sql.update Row p f t ≡ ok (t', n))
