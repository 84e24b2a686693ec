-- ===== src/Server/ConnectionStore/Links.antt =====
-- internal/server/memory_connection_store.go: the index of the connections by user.
use xyncra_server.Common.{
  ◌≡◌, refl, inl, inr, String, not, ◌&&◌, ◌||◌, none, some, List, [], ◌∷◌, str_eq, eq_iff,
  Bool-cases, Option-cases, if◌then◌else◌, has, remove, NoDup, NoDup-remove, get_key, set_key,
  delete_key, insert_key, has-insert_key, has-remove_all, NoDup-insert_key, get_key-set_key_all,
  get_key-delete_key_all,
}
use xyncra_server.Server.ConnectionStore.{conns_of, put_back, unlinked, linked}

module _ (u v : String) (users : List (String × List String)) where
  pub conns_of-set_key :
      (l : List String)
      → conns_of v (set_key u l users) ≡ (if str_eq v u then l else conns_of v users)
  conns_of-set_key l = elim (Bool-cases (str_eq v u)) [
    | inl same ↦ rw (conns_of, get_key-set_key_all v u l users, same) refl
    | inr other ↦ rw (conns_of, get_key-set_key_all v u l users, other) refl
  ]

  pub conns_of-delete_key :
      conns_of v (delete_key u users) ≡ (if str_eq v u then [] else conns_of v users)
  conns_of-delete_key = elim (Bool-cases (str_eq v u)) [
    | inl same ↦ rw (conns_of, get_key-delete_key_all v u users, same) refl
    | inr other ↦ rw (conns_of, get_key-delete_key_all v u users, other) refl
  ]

conns_of-put_back :
    (u v : String) (users : List (String × List String)) (l : List String)
    → conns_of v (put_back u l users) ≡ (if str_eq v u then l else conns_of v users)
conns_of-put_back u v users [] = conns_of-delete_key u v users
conns_of-put_back u v users (c ∷ cs) = conns_of-set_key u v users (c ∷ cs)

module _ (u v : String) (users : List (String × List String)) where
  pub conns_of-linked :
      (c : String)
      → conns_of v (linked u c users)
        ≡ (if str_eq v u then insert_key c (conns_of v users) else conns_of v users)
  unfolding linked
  conns_of-linked c = elim (Bool-cases (str_eq v u)) [
    | inl same ↦
        rw (conns_of-set_key u v users (insert_key c (conns_of u users)), same, (eq_iff v u).0 same)
          refl
    | inr other ↦ rw (conns_of-set_key u v users (insert_key c (conns_of u users)), other) refl
  ]

  pub conns_of-unlinked :
      (c : String)
      → conns_of v (unlinked u c users)
        ≡ (if str_eq v u then remove c (conns_of v users) else conns_of v users)
  unfolding unlinked
  conns_of-unlinked c = elim (Option-cases (get_key u users)) [
    | inr (l, found) ↦ elim (Bool-cases (str_eq v u)) [
      | inl same ↦
          let there : get_key v users ≡ some l = rw ((eq_iff v u).0 same) found in
          rw (unlinked, found, conns_of-put_back u v users (remove c l), same, conns_of, there) refl
      | inr other ↦ rw (unlinked, found, conns_of-put_back u v users (remove c l), other) refl
    ]
    | inl nothing ↦ elim (Bool-cases (str_eq v u)) [
      | inl same ↦
          let missing : get_key v users ≡ none = rw ((eq_iff v u).0 same) nothing in
          rw (unlinked, nothing, same, conns_of, missing) refl
      | inr other ↦ rw (unlinked, nothing, other) refl
    ]
  ]

  pub has-linked :
      (c d : String)
      → has d (conns_of v (linked u c users))
        ≡ ((str_eq v u && str_eq d c) || has d (conns_of v users))
  has-linked c d = elim (Bool-cases (str_eq v u)) [
    | inl same ↦ rw (conns_of-linked c, same) (has-insert_key d c (conns_of v users))
    | inr other ↦ rw (conns_of-linked c, other) refl
  ]

  pub has-unlinked :
      (c d : String)
      → has d (conns_of v (unlinked u c users))
        ≡ (not (str_eq v u && str_eq d c) && has d (conns_of v users))
  has-unlinked c d = elim (Bool-cases (str_eq v u)) [
    | inl same ↦ rw (conns_of-unlinked c, same) (has-remove_all d c (conns_of v users))
    | inr other ↦ rw (conns_of-unlinked c, other) refl
  ]

  pub NoDup-linked : (c : String) → NoDup (conns_of v users) → NoDup (conns_of v (linked u c users))
  NoDup-linked c h = elim (Bool-cases (str_eq v u)) [
    | inl same ↦ rw (conns_of-linked c, same) (NoDup-insert_key c (conns_of v users) h)
    | inr other ↦ rw (conns_of-linked c, other) h
  ]

  pub NoDup-unlinked :
      (c : String) → NoDup (conns_of v users) → NoDup (conns_of v (unlinked u c users))
  NoDup-unlinked c h = elim (Bool-cases (str_eq v u)) [
    | inl same ↦ rw (conns_of-unlinked c, same) (NoDup-remove c (conns_of v users) h)
    | inr other ↦ rw (conns_of-unlinked c, other) h
  ]
