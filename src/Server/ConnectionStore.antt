-- ===== src/Server/ConnectionStore.antt =====
-- internal/server/memory_connection_store.go and connection_store.go. The mutex makes each operation
-- one step.
pub mod Links
pub mod Indexed
pub mod Listed
pub mod Histories
pub mod Within
use xyncra_server.Common.{
  ℕ, ◌+◌, String, Bool, true, false, not, ◌&&◌, Option, none, some, is_some, List, [], ◌∷◌, str_eq,
  ltb, leb, ◌==◌, if◌then◌else◌, length, has, remove, ℤ, pos, negsuc, is_nonpositive, to_ℕ, get_key,
  set_key, delete_key, insert_key, suc,
}
use xyncra_server.Fault.{Result, ok, err}

pub record ConnectionInfo : Type 0 where
  pub id : String
  pub user_id : String
  pub session_id : String
  pub device_id : String
  pub device_type : String
  pub ip_address : String
  pub protocol : String
  pub last_heartbeat_at : ℕ
  pub status : String
  pub metadata : List (String × String)
  pub created_at : ℕ
  pub updated_at : ℕ
  pub ttl : ℤ

unfoldable pub is_expired : ℕ → ConnectionInfo → Bool
is_expired now info =
    if is_nonpositive info.ttl then false else ltb (info.updated_at + to_ℕ info.ttl) now

pub data ConnectionError : Type 0 where
  info_nil id_required user_required max_exceeded not_found updater_nil : ConnectionError

-- `user_set` is the index of the connections by their user.
pub record MemoryConnectionStore : Type 0 where
  pub info_by_key : List (String × ConnectionInfo)
  pub user_set : List (String × List String)
  pub max_conns_per_user : ℤ

unfoldable pub new_memory_connection_store : ℤ → MemoryConnectionStore
new_memory_connection_store max = record {
  info_by_key = [];
  user_set = [];
  max_conns_per_user = max;
}

abbrev pub conns_of : String → List (String × List String) → List String
conns_of user_id users = elim (get_key user_id users) [ none ↦ [] | some conns ↦ conns ]

-- A set without elements is taken out of the map.
abbrev pub put_back :
    String → List String → List (String × List String) → List (String × List String)
put_back user_id [] users = delete_key user_id users
put_back user_id (c ∷ cs) users = set_key user_id (c ∷ cs) users

unfoldable pub unlinked :
    String → String → List (String × List String) → List (String × List String)
unlinked user_id conn_id users = elim (get_key user_id users) [
  | none ↦ users
  | some conns ↦ put_back user_id (remove conn_id conns) users
]

unfoldable pub linked : String → String → List (String × List String) → List (String × List String)
linked user_id conn_id users = set_key user_id (insert_key conn_id (conns_of user_id users)) users

-- A limit of 0 or less is none.
abbrev pub is_full : ℤ → ℕ → Bool
is_full (pos limit) n = ltb 0 limit && leb limit n
is_full (negsuc limit) n = false

abbrev pub is_over : ConnectionInfo → MemoryConnectionStore → Bool
is_over info s =
    not (is_some (get_key info.id s.info_by_key))
    && is_full s.max_conns_per_user (length (conns_of info.user_id s.user_set))

-- The index without a connection that another user had.
unfoldable pub moved : ConnectionInfo → MemoryConnectionStore → List (String × List String)
unfolding unlinked
moved info s = elim (get_key info.id s.info_by_key) [
  | none ↦ s.user_set
  | some old ↦
      if str_eq old.user_id info.user_id
      then s.user_set
      else unlinked old.user_id info.id s.user_set
]

-- `deep_copy` is the copy through encoding/json, `iterate` the order in which a loop takes a map's keys.
module _ (deep_copy : ConnectionInfo → ConnectionInfo) (iterate : List String → List String) where
  unfoldable pub stored : ℕ → ConnectionInfo → ConnectionInfo
  stored now info = deep_copy (record info {
    created_at = if info.created_at == 0 then now else info.created_at;
    updated_at = now;
  })

  unfoldable pub add :
      ℕ
      → Option ConnectionInfo
      → MemoryConnectionStore
      → Result ConnectionError MemoryConnectionStore
  unfolding moved linked stored
  add now none s = err info_nil
  add now (some info) s =
      if str_eq info.id ""
      then err id_required
      else if str_eq info.user_id ""
      then err user_required
      else if is_over info s
      then err max_exceeded
      else ok (record s {
        info_by_key = set_key info.id (stored now info) s.info_by_key;
        user_set = linked info.user_id info.id (moved info s);
      })

  unfoldable pub get : String → MemoryConnectionStore → Result ConnectionError ConnectionInfo
  get conn_id s =
      if str_eq conn_id "" then err id_required else elim (get_key conn_id s.info_by_key) [
        | none ↦ err not_found
        | some info ↦ ok (deep_copy info)
      ]

  unfoldable pub remove_connection :
      String → MemoryConnectionStore → Result ConnectionError MemoryConnectionStore
  unfolding unlinked
  remove_connection conn_id s =
      if str_eq conn_id "" then err id_required else elim (get_key conn_id s.info_by_key) [
        | none ↦ ok s
        | some info ↦ ok (record s {
          info_by_key = delete_key conn_id s.info_by_key;
          user_set = unlinked info.user_id conn_id s.user_set;
        })
      ]

  unfoldable pub exists : String → MemoryConnectionStore → Result ConnectionError Bool
  exists conn_id s =
      if str_eq conn_id "" then err id_required else ok (is_some (get_key conn_id s.info_by_key))

  -- `Patch`; `Update` and `Refresh` are patches that set the metadata, or nothing.
  unfoldable pub patch :
      ℕ
      → String
      → Option (ConnectionInfo → ConnectionInfo)
      → MemoryConnectionStore
      → Result ConnectionError MemoryConnectionStore
  patch now conn_id updater s = if str_eq conn_id "" then err id_required else elim updater [
    | none ↦ err updater_nil
    | some f ↦ elim (get_key conn_id s.info_by_key) [
      | none ↦ err not_found
      | some info ↦ ok (record s {
        info_by_key = set_key conn_id (record (f info) { updated_at = now }) s.info_by_key;
      })
    ]
  ]

  unfoldable pub update :
      ℕ
      → String
      → List (String × String)
      → MemoryConnectionStore
      → Result ConnectionError MemoryConnectionStore
  unfolding patch
  update now conn_id metadata s =
      patch now conn_id (some (λ info. record info { metadata = metadata })) s

  unfoldable pub refresh :
      ℕ → String → MemoryConnectionStore → Result ConnectionError MemoryConnectionStore
  unfolding patch
  refresh now conn_id s = patch now conn_id (some (λ info. info)) s

  -- Of `ListByUser`: whether the loop ends after `n` results.
  abbrev pub is_enough : ℤ → ℕ → Bool
  is_enough (pos limit) n = ltb 0 limit && leb limit n
  is_enough (negsuc limit) n = false

  unfoldable pub list_loop : ℤ → ℕ → List String → MemoryConnectionStore → List ConnectionInfo
  list_loop limit n [] s = []
  list_loop limit n (id ∷ ids) s =
      let rest = list_loop limit n ids s in
      let further = list_loop limit (suc n) ids s in
      elim (get_key id s.info_by_key) [
        | none ↦ if is_enough limit n then [] else rest
        | some info ↦ deep_copy info ∷ (if is_enough limit (suc n) then [] else further)
      ]

  unfoldable pub list_by_user :
      String → ℤ → MemoryConnectionStore → Result ConnectionError (List ConnectionInfo)
  unfolding list_loop
  list_by_user user_id limit s =
      if str_eq user_id ""
      then err user_required
      else ok (list_loop limit 0 (iterate (conns_of user_id s.user_set)) s)

  unfoldable pub count_by_user : String → MemoryConnectionStore → Result ConnectionError ℕ
  count_by_user user_id s =
      if str_eq user_id "" then err user_required else ok (length (conns_of user_id s.user_set))

  unfoldable pub count_all : MemoryConnectionStore → ℕ
  count_all s = length s.info_by_key

  abbrev pub delete_all :
      List String → List (String × ConnectionInfo) → List (String × ConnectionInfo)
  delete_all [] m = m
  delete_all (id ∷ ids) m = delete_all ids (delete_key id m)

  unfoldable pub remove_by_user :
      String → MemoryConnectionStore → Result ConnectionError (MemoryConnectionStore × ℕ)
  remove_by_user user_id s =
      if str_eq user_id ""
      then err user_required
      else let conns = conns_of user_id s.user_set in
        ok (
          record s {
            info_by_key = delete_all (iterate conns) s.info_by_key;
            user_set = delete_key user_id s.user_set;
          },
          length conns,
        )
