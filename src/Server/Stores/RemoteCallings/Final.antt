-- ===== src/Server/Stores/RemoteCallings/Final.antt =====
-- internal/store/remote_calling.go: a call that has ended, and the operations that would end it again.
use xyncra_server.Common.{
  and_left, ℕ, ◌≡◌, ◌≢◌, refl, ap, sym, ◌∙◌, String, Bool, true, false, Option, none, some, List,
  inl, inr, arith, str_eq, ◌==◌, In, All-In, Bool-cases, if◌then◌else◌, eq_iff,
}
use xyncra_server.Fault.{Fault, conflict, Result, ok, err, ◌>>=◌, bind-ok}
use xyncra_server.Sql.{Sql, IsSql, update_rows}
use xyncra_server.Sql.Rows.{count-some, count-none, update_rows-In, In-update_rows}
use xyncra_server.Server.Model.{RemoteCalling, Tables}
use xyncra_server.Server.Stores.RemoteCallings.{
  status_pending, is_live, is_pending, is_open, existing,
}
use xyncra_server.Server.Stores.RemoteCallings.Evolves.{Evolves, Changed, Outcome}

-- A call with the id is there, and none with the id is open.
pub record IsSettled (id : String) (t : List RemoteCalling) : Type 0 where
  pub there : (a : RemoteCalling) × In a t × (a.id ≡ id)
  pub closed : (a : RemoteCalling) → In a t → is_open id a ≡ false

Evolves-closed :
    (id : String) (a b : RemoteCalling) → Evolves a b → is_open id a ≡ false → is_open id b ≡ false
Evolves-closed id a b e closed = elim (Bool-cases (is_live a)) [
  | inl alive ↦ elim (Bool-cases (str_eq a.status status_pending)) [
    | inl waits ↦ let other : str_eq a.id id ≡ false = ground arith in rw (e.id, other) refl
    | inr ended ↦
        let still : str_eq b.status status_pending ≡ false =
          rw (ap (λ (o : Outcome). o.status) (e.final ended)) ended in
        ground arith
  ]
  | inr dead ↦ rw (e.gone dead) closed
]

pub Changed-IsSettled :
    (id : String) (t t' : List RemoteCalling) → Changed t t' → IsSettled id t → IsSettled id t'
Changed-IsSettled id t t' change h =
    let (a, ma, same) = h.there in
    let (b, mb, ab) = change.kept a ma in
    record {
      there = (b, mb, ab.id ∙ same);
      closed = λ c mc. elim (change.origin c mc) [
        | inl (x, mx, xc) ↦ Evolves-closed id x c xc (h.closed x mx)
        | inr new ↦ elim (Bool-cases (str_eq c.id id)) [
          | inl named ↦ absurd (new a ma ((eq_iff c.id id).0 named ∙ sym same))
          | inr other ↦ rw other refl
        ]
      ];
    }

existing-err : (o : Option RemoteCalling) (db : Tables) → existing o ≢ ok db
unfolding existing
existing-err none db e = cc
existing-err (some rc) db e = cc

module _ (sql : Sql) (legal : IsSql sql) (id : String) where
  -- The update of an open call, and what follows it.
  module _ (f : RemoteCalling → RemoteCalling) (q : RemoteCalling → Bool) (db : Tables) where
    abbrev after : List RemoteCalling × ℕ → Result Fault Tables
    after (rows, affected) =
        if affected == 0
        then sql.first RemoteCalling q db.remote_callings >>= existing
        else ok (record db { remote_callings = rows })

    abbrev ending : Result Fault Tables
    ending = sql.update RemoteCalling (is_open id) f db.remote_callings >>= after

    -- An end that succeeds has found an open call.
    after-ok :
        (db' : Tables) (rows : List RemoteCalling) (n : ℕ)
        → after (rows, n) ≡ ok db'
        → (db'.remote_callings ≡ rows) × ((n == 0) ≡ false)
    after-ok db' rows n e = elim (Bool-cases (n == 0)) [
      | inl nothing ↦
          let (o, _, rest) =
            bind-ok (sql.first RemoteCalling q db.remote_callings) existing db' (rw nothing at e) in
          absurd (existing-err o db' rest)
      | inr something ↦ (cc (rw something at e), something)
    ]

    ending_found :
        (db' : Tables)
        → ending ≡ ok db'
        → (db'.remote_callings ≡ update_rows (is_open id) f db.remote_callings)
          × ((a : RemoteCalling) × In a db.remote_callings × (is_open id a ≡ true))
    ending_found db' e =
        let ((rows, n), done, rest) =
          bind-ok (sql.update RemoteCalling (is_open id) f db.remote_callings) after db' e in
        let (changed, counted) =
          legal.update_answer RemoteCalling (is_open id) f db.remote_callings rows n done in
        let (same, some_open) = after-ok db' rows n rest in
        (same ∙ changed, count-some (is_open id) db.remote_callings n counted some_open)

    update-IsSettled :
        (a : RemoteCalling)
        → In a db.remote_callings
        → is_open id a ≡ true
        → ((r : RemoteCalling)
            → is_open id r ≡ true
            → ((f r).id ≡ r.id) × (is_open id (f r) ≡ false))
        → IsSettled id (update_rows (is_open id) f db.remote_callings)
    update-IsSettled a m opened h =
        let named : a.id ≡ id =
          (eq_iff a.id id).0 (and_left (str_eq a.id id) (is_pending a) opened) in
        record {
          there = (
            if is_open id a then f a else a,
            update_rows-In (is_open id) f db.remote_callings a m,
            rw opened ((h a opened).0 ∙ named),
          );
          closed = λ b mb.
              let (x, mx, same) = In-update_rows (is_open id) f db.remote_callings b mb in
              rw same (elim (Bool-cases (is_open id x)) [
                | inl passes ↦ rw passes (h x passes).1
                | inr fails ↦ rw (fails, fails) refl
              ]);
        }

    pub ending-IsSettled :
        (db' : Tables)
        → ((r : RemoteCalling)
            → is_open id r ≡ true
            → ((f r).id ≡ r.id) × (is_open id (f r) ≡ false))
        → ending ≡ ok db'
        → IsSettled id db'.remote_callings
    ending-IsSettled db' h e =
        let (changed, (a, m, opened)) = ending_found db' e in
        rw changed (update-IsSettled a m opened h)

    pub ending_again : (db' : Tables) → IsSettled id db.remote_callings → ending ≢ ok db'
    ending_again db' h e = let (_, (a, m, opened)) = ending_found db' e in cc (h.closed a m, opened)

  pub again_conflict :
      (f : RemoteCalling → RemoteCalling) (db : Tables) (rows : List RemoteCalling) (n : ℕ)
      (o : Option RemoteCalling)
      → IsSettled id db.remote_callings
      → sql.update RemoteCalling (is_open id) f db.remote_callings ≡ ok (rows, n)
      → sql.first RemoteCalling (λ r. str_eq r.id id) db.remote_callings ≡ ok o
      → ending f (λ r. str_eq r.id id) db ≡ err conflict
  unfolding existing
  again_conflict f db rows n none h done answered =
      let (a, m, same) = h.there in
      let other =
        All-In (λ r. str_eq r.id id ≡ false) db.remote_callings
          (legal.first_answer RemoteCalling (λ r. str_eq r.id id) db.remote_callings none answered)
          a m in
      absurd (cc (other, (eq_iff a.id id).1 same))
  again_conflict f db rows n (some rc) h done answered =
      let counted =
        (legal.update_answer RemoteCalling (is_open id) f db.remote_callings rows n done).1
        ∙ count-none (is_open id) db.remote_callings h.closed in
      rw (done, counted, answered) refl
