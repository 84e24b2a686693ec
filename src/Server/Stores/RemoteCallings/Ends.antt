-- ===== src/Server/Stores/RemoteCallings/Ends.antt =====
-- internal/store/remote_calling.go: the operations that end one call.
use xyncra_server.Common.{ℕ, ◌≡◌, refl, String, ◌&&◌, Option, List, str_eq}
use xyncra_server.Fault.{conflict, ok, err}
use xyncra_server.Sql.{Sql, IsSql}
use xyncra_server.Server.Model.{RemoteCalling, Tables}
use xyncra_server.Server.Stores.RemoteCallings.{
  is_live, is_open, settled, with_result, with_error, expired, resolve_result, resolve_error,
  mark_expired,
}
use xyncra_server.Server.Stores.RemoteCallings.Evolves.{and-and_false}
use xyncra_server.Server.Stores.RemoteCallings.Final.{
  IsSettled, Changed-IsSettled, ending-IsSettled, ending_again, again_conflict,
}
use xyncra_server.Server.Stores.RemoteCallings.Steps.{Reach, Reach-Changed}

-- The three operations that end one call.
pub data Ends (sql : Sql) (id : String) (db db' : Tables) : Type 0 where
  with_a_result :
      (now : ℕ) (result : String)
      → resolve_result sql now id result db ≡ ok db'
      → Ends sql id db db'
  with_an_error :
      (now : ℕ) (message : String)
      → resolve_error sql now id message db ≡ ok db'
      → Ends sql id db db'
  by_the_clock : mark_expired sql id db ≡ ok db' → Ends sql id db db'

module _ (sql : Sql) (legal : IsSql sql) (id : String) where
  pub Ends-IsSettled : (db db' : Tables) → Ends sql id db db' → IsSettled id db'.remote_callings
  unfolding resolve_result resolve_error mark_expired settled
  Ends-IsSettled db db' (with_a_result now result e) =
      ending-IsSettled sql legal id (with_result now result) (λ r. str_eq r.id id) db db'
        (λ r h. (refl, and-and_false (str_eq r.id id) (is_live r))) e
  Ends-IsSettled db db' (with_an_error now message e) =
      ending-IsSettled sql legal id (with_error now message) (λ r. str_eq r.id id) db db'
        (λ r h. (refl, and-and_false (str_eq r.id id) (is_live r))) e
  Ends-IsSettled db db' (by_the_clock e) =
      ending-IsSettled sql legal id expired (λ r. is_live r && str_eq r.id id) db db'
        (λ r h. (refl, and-and_false (str_eq r.id id) (is_live r))) e

  pub IsSettled-Ends : (db db' : Tables) → IsSettled id db.remote_callings → ¬ Ends sql id db db'
  unfolding resolve_result resolve_error mark_expired settled
  IsSettled-Ends db db' h (with_a_result now result e) =
      ending_again sql legal id (with_result now result) (λ r. str_eq r.id id) db db' h e
  IsSettled-Ends db db' h (with_an_error now message e) =
      ending_again sql legal id (with_error now message) (λ r. str_eq r.id id) db db' h e
  IsSettled-Ends db db' h (by_the_clock e) =
      ending_again sql legal id expired (λ r. is_live r && str_eq r.id id) db db' h e

  Ends-Reach-IsSettled :
      (db db' later : Tables)
      → Ends sql id db db'
      → Reach sql db' later
      → IsSettled id later.remote_callings
  Ends-Reach-IsSettled db db' later e path =
      Changed-IsSettled id db'.remote_callings later.remote_callings
        (Reach-Changed sql legal db' later path) (Ends-IsSettled db db' e)

  -- A call ends at most once: after one of ResolveResult, ResolveError and MarkExpired has succeeded for
  -- an id, none of them succeeds for the id again, whatever the operations do to the table between.
  pub resolve_once :
      (db db' later last : Tables)
      → Ends sql id db db'
      → Reach sql db' later
      → ¬ Ends sql id later last
  resolve_once db db' later last e path =
      IsSettled-Ends later last (Ends-Reach-IsSettled db db' later e path)

  -- Where a call with the id is stored and none with the id is pending, in whichever way it ended, and
  -- whatever the operations do to the table then, ResolveResult and ResolveError answer a conflict,
  -- where the statements that they run succeed, also when the call has been deleted since.
  pub resolve_conflict :
      (db later : Tables) (now now' : ℕ) (result message : String) (t t' : List RemoteCalling)
      (n n' : ℕ) (o : Option RemoteCalling)
      → IsSettled id db.remote_callings
      → Reach sql db later
      → sql.update RemoteCalling (is_open id) (with_result now result) later.remote_callings
        ≡ ok (t, n)
      → sql.update RemoteCalling (is_open id) (with_error now' message) later.remote_callings
        ≡ ok (t', n')
      → sql.first RemoteCalling (λ r. str_eq r.id id) later.remote_callings ≡ ok o
      → (resolve_result sql now id result later ≡ err conflict)
        × (resolve_error sql now' id message later ≡ err conflict)
  unfolding resolve_result resolve_error settled
  resolve_conflict db later now now' result message t t' n n' o settled_before path done done'
        answered =
      let h =
        Changed-IsSettled id db.remote_callings later.remote_callings
          (Reach-Changed sql legal db later path) settled_before in
      (
        again_conflict sql legal id (with_result now result) later t n o h done answered,
        again_conflict sql legal id (with_error now' message) later t' n' o h done' answered,
      )
