-- ===== src/Server/Stores/UserUpdates/Created.antt =====
-- internal/store/user_update.go: what `Create` does to the tables.
use xyncra_server.Common.{◌≡◌, refl, ◌∙◌, inl, inr, List, [], ◌∷◌, ◌++◌}
use xyncra_server.Fault.{ok, Result-cases}
use xyncra_server.Sql.{Sql, IsSql}
use xyncra_server.Server.Model.{UserUpdate, Tables}
use xyncra_server.Server.Stores.UserUpdates.{clashes, insert_all, create}

append_assoc :
    (xs : List UserUpdate) (y : UserUpdate) (ys : List UserUpdate)
    → (xs ++ y ∷ []) ++ ys ≡ xs ++ y ∷ ys
append_assoc [] y ys = refl
append_assoc (x ∷ xs) y ys = cc (append_assoc xs y ys)

pub append_nil : (xs : List UserUpdate) → xs ++ [] ≡ xs
append_nil [] = refl
append_nil (x ∷ xs) = cc (append_nil xs)

module _ (sql : Sql) (legal : IsSql sql) where
  insert_all-append : (us t t' : List UserUpdate) → insert_all sql us t ≡ ok t' → t' ≡ t ++ us
  unfolding insert_all
  insert_all-append [] t t' e = cc (e, append_nil t)
  insert_all-append (u ∷ us) t t' e = elim (Result-cases (sql.insert UserUpdate clashes u t)) [
    | inl (rows, done) ↦
        let added = (legal.insert_answer UserUpdate clashes u t rows done).0 in
        insert_all-append us rows t' (rw done at e) ∙ rw added (append_assoc t u us)
    | inr (f, failed) ↦ cc (rw failed at e)
  ]

  pub create-append :
      (us : List UserUpdate) (db db' : Tables)
      → create sql us db ≡ ok db'
      → db' ≡ record db { user_updates = db.user_updates ++ us }
  unfolding create
  create-append us db db' e = elim (Result-cases (insert_all sql us db.user_updates)) [
    | inl (rows, done) ↦ cc (rw done at e, insert_all-append us db.user_updates rows done)
    | inr (f, failed) ↦ cc (rw failed at e)
  ]
