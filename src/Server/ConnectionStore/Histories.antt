-- ===== src/Server/ConnectionStore/Histories.antt =====
-- internal/server/memory_connection_store.go: the operations as a step relation.
use xyncra_server.Common.{
  ℕ, ◌≡◌, refl, sym, ◌∙◌, inl, inr, String, Bool, true, false, Option, none, some, List, [], ◌∷◌,
  str_eq, eq_iff, Bool-cases, if◌then◌else◌, arith, ℤ, has, get_key, delete_key,
  get_key-delete_key_all,
}
use xyncra_server.Fault.{ok}
use xyncra_server.Server.ConnectionStore.{
  ConnectionInfo, MemoryConnectionStore, new_memory_connection_store, conns_of, add,
  remove_connection, patch, update, refresh, delete_all, remove_by_user,
}
use xyncra_server.Server.ConnectionStore.Links.{conns_of-delete_key}
use xyncra_server.Server.ConnectionStore.Indexed.{
  owns, IsIndexed, IsCopy, add-IsIndexed, remove_connection-IsIndexed, patch-IsIndexed,
}
use xyncra_server.Server.ConnectionStore.Listed.{IsOrder}

module _ (deep_copy : ConnectionInfo → ConnectionInfo) (iterate : List String → List String) where
  -- The operations that change the store, where they succeed. A patch may not change the user.
  pub data Step (s s' : MemoryConnectionStore) : Type 0 where
    added :
        (now : ℕ) (info : Option ConnectionInfo)
        → add deep_copy iterate now info s ≡ ok s'
        → Step s s'
    removed : (id : String) → remove_connection deep_copy iterate id s ≡ ok s' → Step s s'
    patched :
        (now : ℕ) (id : String) (f : ConnectionInfo → ConnectionInfo)
        → ((info : ConnectionInfo) → (f info).user_id ≡ info.user_id)
        → patch deep_copy iterate now id (some f) s ≡ ok s'
        → Step s s'
    updated :
        (now : ℕ) (id : String) (metadata : List (String × String))
        → update deep_copy iterate now id metadata s ≡ ok s'
        → Step s s'
    refreshed : (now : ℕ) (id : String) → refresh deep_copy iterate now id s ≡ ok s' → Step s s'
    cleared :
        (user_id : String) (n : ℕ)
        → remove_by_user deep_copy iterate user_id s ≡ ok (s', n)
        → Step s s'

  pub data Reach (s : MemoryConnectionStore) : MemoryConnectionStore → Type 0 where
    here : Reach s s
    next : {s' s'' : MemoryConnectionStore} → Reach s s' → Step s' s'' → Reach s s''

  abbrev none_info : Option ConnectionInfo
  none_info = none

  get_key-delete_all :
      (ids : List String) (m : List (String × ConnectionInfo)) (c : String)
      → get_key c (delete_all deep_copy iterate ids m) ≡ (if has c ids then none else get_key c m)
  get_key-delete_all [] m c = refl
  get_key-delete_all (id ∷ ids) m c =
      rw (get_key-delete_all ids (delete_key id m) c, get_key-delete_key_all c id m)
        (elim (Bool-cases (str_eq c id)) [
          | inl same ↦ rw same (both (has c ids))
          | inr other ↦ rw other refl
        ])
    where
      both : (b : Bool) → (if b then none_info else none_info) ≡ none_info
      both true = refl
      both false = refl

  -- The connections of a user, taken out.
  gone : (v : String) (o : Option ConnectionInfo) → owns v (if owns v o then none else o) ≡ false
  gone v none = refl
  gone v (some info) = elim (Bool-cases (str_eq info.user_id v)) [
    | inl mine ↦ rw mine refl
    | inr other ↦ rw (other, other) refl
  ]

  left :
      (u v : String) (o : Option ConnectionInfo)
      → str_eq u v ≡ false
      → owns u o ≡ owns u (if owns v o then none else o)
  left u v none h = refl
  left u v (some info) h = elim (Bool-cases (str_eq info.user_id v)) [
    | inl theirs ↦
        rw theirs (ground (arith, eq_iff info.user_id v, eq_iff info.user_id u, eq_iff u v))
    | inr other ↦ rw other refl
  ]

  module _ (copy : IsCopy deep_copy) (order : IsOrder iterate) where
    remove_by_user-IsIndexed :
        (user_id : String) (n : ℕ) (s s' : MemoryConnectionStore)
        → IsIndexed s
        → remove_by_user deep_copy iterate user_id s ≡ ok (s', n)
        → IsIndexed s'
    unfolding remove_by_user
    remove_by_user-IsIndexed user_id n s s' h e = elim (Bool-cases (str_eq user_id "")) [
      | inl b ↦ cc (rw b at e)
      | inr b ↦
          let conns = conns_of user_id s.user_set in
          let same : s' ≡ record s {
            info_by_key = delete_all deep_copy iterate (iterate conns) s.info_by_key;
            user_set = delete_key user_id s.user_set;
          } =
            cc (rw b at e) in
          rw same (record {
            index = λ u c.
                rw
                  (
                    conns_of-delete_key user_id u s.user_set,
                    get_key-delete_all (iterate conns) s.info_by_key c,
                    order.same_keys conns c,
                    h.index user_id c,
                  )
                  (elim (Bool-cases (str_eq u user_id)) [
                    | inl mine ↦
                        rw (mine, (eq_iff u user_id).0 mine)
                          (sym (gone user_id (get_key c s.info_by_key)))
                    | inr other ↦
                        rw other (h.index u c ∙ left u user_id (get_key c s.info_by_key) other)
                  ]);
            distinct = λ u.
                rw (conns_of-delete_key user_id u s.user_set)
                  (elim (Bool-cases (str_eq u user_id)) [
                    | inl mine ↦ rw mine tt
                    | inr other ↦ rw other (h.distinct u)
                  ]);
          })
    ]

    Step-IsIndexed : (s s' : MemoryConnectionStore) → Step s s' → IsIndexed s → IsIndexed s'
    unfolding update refresh
    Step-IsIndexed s s' (added now info e) h =
        add-IsIndexed deep_copy iterate copy now info s s' h e
    Step-IsIndexed s s' (removed id e) h = remove_connection-IsIndexed deep_copy iterate id s s' h e
    Step-IsIndexed s s' (patched now id f keeps e) h =
        patch-IsIndexed deep_copy iterate now id f s s' keeps h e
    Step-IsIndexed s s' (updated now id metadata e) h =
        patch-IsIndexed deep_copy iterate now id (λ info. record info { metadata = metadata }) s s'
          (λ info. refl) h e
    Step-IsIndexed s s' (refreshed now id e) h =
        patch-IsIndexed deep_copy iterate now id (λ info. info) s s' (λ info. refl) h e
    Step-IsIndexed s s' (cleared user_id n e) h = remove_by_user-IsIndexed user_id n s s' h e

    -- In every history of a new store, whose patches leave the users as they are, the index agrees with the
    -- connections: a connection is in the set of a user exactly where it is stored with that user,
    -- and no set has an ID twice.
    pub Reach-IsIndexed :
        (max : ℤ) (s : MemoryConnectionStore)
        → Reach (new_memory_connection_store max) s
        → IsIndexed s
    unfolding new_memory_connection_store
    Reach-IsIndexed max s here = record { index = λ u c. refl; distinct = λ u. tt }
    Reach-IsIndexed max s (next {s' = s'} path step) =
        Step-IsIndexed s' s step (Reach-IsIndexed max s' path)
