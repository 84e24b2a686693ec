-- ===== src/Server/Handlers/SyncUpdates/Page.antt =====
-- internal/handler/sync_updates.go: what a page holds.
use Prim.Native.Nat.{min}
use xyncra_server.Common.{
  ℕ, suc, ◌+◌, ◌-◌, ◌^◌, ◌≤◌, ◌<◌, ◌≡◌, ◌↔◌, inl, inr, String, true, false, Option, some, List, [],
  arith, length, In, Bool-cases, str_eq, ltb, leb, ℤ, pos, negsuc, gt→leb,
}
use xyncra_server.Fault.{ok, Result-cases}
use xyncra_server.Sql.{Sql, IsSql, IsMax}
use xyncra_server.Protocol.{PackageDataUpdate, IsContiguous}
use xyncra_server.Server.Model.{UserUpdate, Tables}
use xyncra_server.Server.Stores.UserUpdates.{get_latest_seq, list_by_user_range, in_range}
use xyncra_server.Server.Handlers.SyncUpdates.{
  SyncUpdatesParams, SyncUpdatesResponse, normal_limit, entry, expected_end, page, latest_known,
  listed, sync_updates,
}
use xyncra_server.Server.Handlers.SyncUpdates.Fill.{run, fill-run, fill_empty, length-run}
use xyncra_server.Server.Handlers.SyncUpdates.Entry.{
  IsEntry, IsListed, run-IsContiguous, run-entries, entry-IsEntry,
}

pub record IsPage (user_id : String) (after_seq limit : ℕ) (rows : List UserUpdate)
    (r : SyncUpdatesResponse) : Type 0 where
  pub contiguous : IsContiguous after_seq r.updates
  pub filled : length r.updates ≡ min limit (r.latest_seq - after_seq)
  pub entries : (u : PackageDataUpdate) → In u r.updates → IsEntry user_id rows u
  pub more : (r.has_more ≡ true) ↔ (after_seq + length r.updates < r.latest_seq)
  pub latest : IsMax (λ u. u.seq) (λ u. str_eq u.user_id user_id) rows r.latest_seq

module _ (sql : Sql) (now : ℕ → ℕ) (user_id : String) (table : List UserUpdate) where
  module _ (after_seq limit latest_seq : ℕ) (rows : List UserUpdate) where
    -- The number of places that a page fills.
    abbrev places : ℕ
    places = min limit (latest_seq - after_seq)

    page_lem :
        after_seq < latest_seq
        → after_seq + limit < 2 ^ 32
        → latest_seq + 1 < 2 ^ 32
        → page sql now after_seq limit latest_seq rows
          ≡ some (record {
            updates = run places (suc after_seq) (entry now rows);
            has_more = ltb (after_seq + limit) latest_seq;
            latest_seq = latest_seq;
          })
    unfolding page expected_end
    page_lem lo fits small = ground (
      arith,
      fill-run (limit + 1) places (suc after_seq) (expected_end after_seq limit latest_seq)
          (entry now rows),
    )

    page-IsPage :
        IsMax (λ u. u.seq) (λ u. str_eq u.user_id user_id) table latest_seq
        → IsListed user_id after_seq (expected_end after_seq limit latest_seq) table rows
        → after_seq < latest_seq
        → after_seq + limit < 2 ^ 32
        → latest_seq + 1 < 2 ^ 32
        → (r : SyncUpdatesResponse) × (page sql now after_seq limit latest_seq rows ≡ some r)
          × IsPage user_id after_seq limit table r
    unfolding expected_end
    page-IsPage top listed lo fits small = (
      record {
        updates = run places (suc after_seq) (entry now rows);
        has_more = ltb (after_seq + limit) latest_seq;
        latest_seq = latest_seq;
      },
      page_lem lo fits small,
      record {
        contiguous = run-IsContiguous now places after_seq rows;
        filled = length-run places (suc after_seq) (entry now rows);
        entries =
            run-entries (IsEntry user_id table) places (suc after_seq) (entry now rows) (λ k a b.
              entry-IsEntry user_id now after_seq (expected_end after_seq limit latest_seq) table
                rows k listed a (ground arith));
        more = ground (arith, length-run places (suc after_seq) (entry now rows));
        latest = top;
      },
    )

pub normal_limit_bounds : (limit : ℤ) → (1 ≤ normal_limit limit) × (normal_limit limit ≤ 500)
unfolding normal_limit
normal_limit_bounds (pos n) = ground arith
normal_limit_bounds (negsuc n) = omega arith

expected_end-gt :
    (after_seq limit latest_seq : ℕ)
    → 1 ≤ limit
    → after_seq + limit < 2 ^ 32
    → after_seq < latest_seq
    → after_seq < expected_end after_seq limit latest_seq
unfolding expected_end
expected_end-gt after_seq limit latest_seq h fits late = ground arith

module _ (sql : Sql) (legal : IsSql sql) (now : ℕ → ℕ) (user_id : String) (db : Tables) where
  list_by_user_range-IsListed :
      (after_seq last : ℕ) (rows : List UserUpdate)
      → after_seq < last
      → list_by_user_range sql user_id after_seq last db ≡ ok rows
      → IsListed user_id after_seq last db.user_updates rows
  unfolding list_by_user_range
  list_by_user_range-IsListed after_seq last rows lo e =
      (legal.find_answer UserUpdate (λ u. u.seq) (in_range user_id after_seq last) db.user_updates
        rows (rw (gt→leb last after_seq lo) at e)).1

  latest_known-IsPage :
      (params : SyncUpdatesParams) (latest_seq : ℕ) (o : Option SyncUpdatesResponse)
      → IsMax (λ u. u.seq) (λ u. str_eq u.user_id user_id) db.user_updates latest_seq
      → latest_known sql now user_id params db (ok latest_seq) ≡ ok o
      → params.after_seq + normal_limit params.limit < 2 ^ 32
      → latest_seq + 1 < 2 ^ 32
      → (r : SyncUpdatesResponse) × (o ≡ some r)
        × IsPage user_id params.after_seq (normal_limit params.limit) db.user_updates r
  unfolding latest_known
  latest_known-IsPage params latest_seq o top e fits small =
      elim (Bool-cases (leb latest_seq params.after_seq)) [
        | inl early ↦ (
          record { updates = []; has_more = false; latest_seq = latest_seq },
          cc (rw (early, latest_known) at e),
          record {
            contiguous = tt;
            filled = ground arith;
            entries = λ u m. absurd m;
            more = ground arith;
            latest = top;
          },
        )
        | inr late ↦ elim (Result-cases (list_by_user_range sql user_id params.after_seq last db)) [
          | inl (rows, found) ↦
              let (r, paged, h) =
                page-IsPage sql now user_id db.user_updates params.after_seq limit latest_seq rows
                  top
                  (list_by_user_range-IsListed params.after_seq last rows (past_start late) found)
                  (ground arith) fits small in
              (r, cc (paged, rw (late, latest_known, found) at e), h)
          | inr (f, failed) ↦ cc (rw (late, latest_known, failed) at e)
        ]
      ]
    where
      limit : ℕ
      limit = normal_limit params.limit

      last : ℕ
      last = expected_end params.after_seq limit latest_seq

      past_start : leb latest_seq params.after_seq ≡ false → params.after_seq < last
      past_start late =
          expected_end-gt params.after_seq limit latest_seq (normal_limit_bounds params.limit).0
            fits (ground arith)

  -- A successful call ends with a page: the places after `after_seq` in order and without a gap, up
  -- to the limit or the user's latest seq; each is a stored update of the user, or a gap where none
  -- is stored; `has_more` says exactly whether the latest seq lies beyond them. The limit must not
  -- carry `after_seq` past the uint32 range, and every stored seq is below the largest uint32.
  pub sync_updates-IsPage :
      (params : SyncUpdatesParams) (o : Option SyncUpdatesResponse)
      → ((u : UserUpdate) → In u db.user_updates → u.seq + 1 < 2 ^ 32)
      → params.after_seq + normal_limit params.limit < 2 ^ 32
      → sync_updates sql now user_id (some params) db ≡ ok o
      → (r : SyncUpdatesResponse) × (o ≡ some r)
        × IsPage user_id params.after_seq (normal_limit params.limit) db.user_updates r
  unfolding sync_updates get_latest_seq
  sync_updates-IsPage params o small fits e = elim (Result-cases (get_latest_seq sql user_id db)) [
    | inl (latest_seq, found) ↦
        let top =
          legal.max_answer UserUpdate (λ u. u.seq) (λ u. str_eq u.user_id user_id) db.user_updates
            latest_seq found in
        latest_known-IsPage params latest_seq o top (rw found at e) fits (elim top.reached [
          | inl z ↦ omega arith
          | inr (u, m, _, same) ↦ omega (arith, small u m)
        ])
    | inr (f, failed) ↦ cc (rw (failed, latest_known) at e)
  ]

-- Where the limit carries `after_seq` past the uint32 range, the page is empty, and still says that
-- there is more while the user's latest seq lies beyond the wrapped end.
pub page_wrapped :
    (sql : Sql) (now : ℕ → ℕ) (after_seq limit latest_seq : ℕ) (rows : List UserUpdate)
    → limit ≤ 500
    → 2 ^ 32 ≤ after_seq + limit
    → after_seq < latest_seq
    → latest_seq < 2 ^ 32
    → page sql now after_seq limit latest_seq rows
      ≡ some (record {
        updates = [];
        has_more = ltb (after_seq + limit - 2 ^ 32) latest_seq;
        latest_seq = latest_seq;
      })
unfolding page expected_end
page_wrapped sql now after_seq limit latest_seq rows small far lo hi = ground (
  arith,
  fill_empty limit (suc after_seq) (expected_end after_seq limit latest_seq) (entry now rows),
)
