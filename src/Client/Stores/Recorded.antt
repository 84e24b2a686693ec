-- ===== src/Client/Stores/Recorded.antt =====
-- pkg/store/sync_state_store.go: the sequence number that a table records under a key.
use xyncra_server.Common.{
  ℕ, ◌<◌, ◌^◌, String, ◌≡◌, ◌≢◌, Bool, false, Option, none, some, List, [], ◌∷◌, inl, inr, arith,
  All, find_first, str_eq, eq_iff, Bool-cases,
}
use xyncra_server.Fault.{ok, Result-cases}
use xyncra_server.Sql.{Sql, IsSql, upsert_rows}
use xyncra_server.Sql.Rows.{AtMostOne, IsFirst-find_first}
use xyncra_server.Client.Model.{SyncState, Tables}
use xyncra_server.Client.Stores.SyncStates.{Strconv, get, set, found_value, parse, or_zero, get_seq}

abbrev pub has_key : String → SyncState → Bool
has_key key s = str_eq s.key key

-- The number that a row stands for; 0 where there is no row.
abbrev pub value_of : Strconv → Option SyncState → Option ℕ
value_of strconv none = some 0
value_of strconv (some s) = strconv.parse_uint s.value

-- There is at most one row with the key, and it stands for the number.
pub record Recorded (strconv : Strconv) (key : String) (db : Tables) (n : ℕ) : Type 0 where
  pub unique : AtMostOne (has_key key) db.sync_states
  pub value : value_of strconv (find_first (has_key key) db.sync_states) ≡ some n

-- The row that `Set` writes.
abbrev pub row : String → String → ℕ → SyncState
row key value now = record { key = key; value = value; updated_at = now }

abbrev pub after_set : String → String → ℕ → List SyncState → List SyncState
after_set key value now =
    upsert_rows (λ new old. str_eq new.key old.key)
      (λ new old. record old { value = new.value; updated_at = new.updated_at }) (row key value now)

module _ (key value : String) (now : ℕ) where
  value-after_set :
      (strconv : Strconv) (t : List SyncState) (n : ℕ)
      → strconv.parse_uint value ≡ some n
      → value_of strconv (find_first (has_key key) (after_set key value now t)) ≡ some n
  value-after_set strconv [] n h = ground (arith, eq_iff key key)
  value-after_set strconv (s ∷ t) n h =
      ground (arith, eq_iff key s.key, eq_iff s.key key, value-after_set strconv t n)

  All-after_set :
      (other : String) (t : List SyncState)
      → key ≢ other
      → All (λ s. has_key other s ≡ false) t
      → All (λ s. has_key other s ≡ false) (after_set key value now t)
  All-after_set other [] ne h = (ground (arith, eq_iff key other), tt)
  All-after_set other (s ∷ t) ne h =
      ground (arith, eq_iff key s.key, eq_iff s.key other, All-after_set other t)

  find_first-after_set :
      (other : String) (t : List SyncState)
      → key ≢ other
      → find_first (has_key other) (after_set key value now t) ≡ find_first (has_key other) t
  find_first-after_set other [] ne = ground (arith, eq_iff key other)
  find_first-after_set other (s ∷ t) ne =
      ground (arith, eq_iff key s.key, eq_iff s.key other, find_first-after_set other t)

  -- A write under one key leaves at most one row under each.
  AtMostOne-after_set :
      (any : String) (t : List SyncState)
      → AtMostOne (has_key any) t
      → AtMostOne (has_key any) (after_set key value now t)
  AtMostOne-after_set any [] h = (λ _. tt, tt)
  AtMostOne-after_set any (s ∷ t) h = elim (Bool-cases (str_eq key s.key)) [
    | inl same ↦ simp same h
    | inr differs ↦ simp differs (
      λ e. All-after_set any t (λ p. ground (arith, eq_iff s.key any, eq_iff key s.key)) (h.0 e),
      AtMostOne-after_set any t h.1,
    )
  ]

module _ (sql : Sql) (legal : IsSql sql) (strconv : Strconv) where
  rest :
      (n q : ℕ) (o : Option SyncState)
      → value_of strconv o ≡ some n
      → or_zero sql strconv (found_value o) ≡ ok q
      → q ≡ n
  unfolding or_zero parse found_value
  rest n q none v e = cc
  rest n q (some s) v e = ground arith

  -- What is recorded is what is read, if the read succeeds.
  pub get_seq-Recorded :
      (key : String) (db : Tables) (n q : ℕ)
      → Recorded strconv key db n
      → get_seq sql strconv key db ≡ ok q
      → q ≡ n
  unfolding get_seq get or_zero parse
  get_seq-Recorded key db n q r e =
      elim (Result-cases (sql.first SyncState (λ s. str_eq s.key key) db.sync_states)) [
        | inl (o, found) ↦
            let top =
              IsFirst-find_first (has_key key) db.sync_states o r.unique
                (legal.first_answer SyncState (has_key key) db.sync_states o found) in
            rest n q o (rw top r.value) (rw (found, get, or_zero) at e)
        | inr (f, failed) ↦
            ground (arith, legal.first_failure SyncState (has_key key) db.sync_states f failed)
      ]

  -- What `Set` does to the tables.
  set_answer :
      (now : ℕ) (key value : String) (db db' : Tables)
      → set sql strconv now key value db ≡ ok db'
      → db' ≡ record db { sync_states = after_set key value now db.sync_states }
  unfolding set
  set_answer now key value db db' e =
      elim (Result-cases (
        sql.upsert SyncState (λ new old. str_eq new.key old.key)
          (λ new old. record old { value = new.value; updated_at = new.updated_at })
          (row key value now) db.sync_states)) [
            | inl (t, done) ↦ cc (
              rw (done, set) at e,
              legal.upsert_answer SyncState (λ new old. str_eq new.key old.key)
                  (λ new old. record old { value = new.value; updated_at = new.updated_at })
                  (row key value now) db.sync_states t done,
            )
            | inr (f, failed) ↦ cc (rw (failed, set) at e)
          ]

  -- What is set is recorded: if at most one row had the key before a `Set` that succeeds, then after
  -- it at most one has it, and the number that is recorded under the key is the one set, a uint32.
  pub set-Recorded :
      (now : ℕ) (key : String) (n : ℕ) (db db' : Tables)
      → AtMostOne (has_key key) db.sync_states
      → n < 2 ^ 32
      → set sql strconv now key (strconv.format_uint n) db ≡ ok db'
      → Recorded strconv key db' n
  set-Recorded now key n db db' u small e =
      rw (set_answer now key (strconv.format_uint n) db db' e) (record {
        unique = AtMostOne-after_set key (strconv.format_uint n) now key db.sync_states u;
        value =
            value-after_set key (strconv.format_uint n) now strconv db.sync_states n
              (strconv.parse_uint-format_uint n small);
      })

  -- A write under another key leaves the recorded number alone.
  pub set-Recorded_other :
      (now : ℕ) (key other value : String) (n : ℕ) (db db' : Tables)
      → key ≢ other
      → Recorded strconv other db n
      → set sql strconv now key value db ≡ ok db'
      → Recorded strconv other db' n
  set-Recorded_other now key other value n db db' ne r e =
      rw (set_answer now key value db db' e) (record {
        unique = AtMostOne-after_set key value now other db.sync_states r.unique;
        value = rw (find_first-after_set key value now other db.sync_states ne) r.value;
      })
