-- ===== src/Server/ConnectionStore/Indexed.antt =====
-- internal/server/memory_connection_store.go: the index agrees with the connections, whatever is called.
use xyncra_server.Common.{
  ℕ, ◌≡◌, refl, ap, sym, ◌∙◌, inl, inr, String, Bool, true, false, not, ◌&&◌, Option, none, some,
  List, str_eq, eq_iff, Bool-cases, Option-cases, arith, has, NoDup, get_key, set_key, delete_key,
  get_key-set_key_all, get_key-delete_key_all,
}
use xyncra_server.Fault.{ok}
use xyncra_server.Server.ConnectionStore.{
  ConnectionInfo, MemoryConnectionStore, conns_of, unlinked, linked, is_over, moved, stored, add,
  remove_connection, patch,
}
use xyncra_server.Server.ConnectionStore.Links.{
  has-linked, has-unlinked, NoDup-linked, NoDup-unlinked,
}

abbrev pub owns : String → Option ConnectionInfo → Bool
owns user_id none = false
owns user_id (some info) = str_eq info.user_id user_id

-- A connection is in the set of a user exactly where it is stored with that user.
pub record IsIndexed (s : MemoryConnectionStore) : Type 0 where
  pub index :
      (user_id conn_id : String)
      → has conn_id (conns_of user_id s.user_set) ≡ owns user_id (get_key conn_id s.info_by_key)
  pub distinct : (user_id : String) → NoDup (conns_of user_id s.user_set)

-- What is asked of the copy through encoding/json.
pub record IsCopy (deep_copy : ConnectionInfo → ConnectionInfo) : Type 0 where
  pub id : (info : ConnectionInfo) → (deep_copy info).id ≡ info.id
  pub user_id : (info : ConnectionInfo) → (deep_copy info).user_id ≡ info.user_id

module _ (s : MemoryConnectionStore) (h : IsIndexed s) (info : ConnectionInfo) where
  -- Where the connection had another user, it is out of that user's set.
  owner_lem :
      (u c : String)
      → str_eq c info.id ≡ true
      → has c (conns_of u s.user_set) ≡ owns u (get_key info.id s.info_by_key)
  owner_lem u c same = rw (sym ((eq_iff c info.id).0 same)) (h.index u c)

  has-moved :
      (u c : String)
      → has c (conns_of u (moved info s))
        ≡ (not (str_eq c info.id && not (str_eq info.user_id u)) && has c (conns_of u s.user_set))
  unfolding moved
  has-moved u c = elim (Bool-cases (str_eq c info.id)) [
    | inr other ↦ elim (Option-cases (get_key info.id s.info_by_key)) [
      | inl nothing ↦ rw (moved, nothing, other) refl
      | inr (old, found) ↦ elim (Bool-cases (str_eq old.user_id info.user_id)) [
        | inl same ↦ rw (moved, found, same, other) refl
        | inr apart ↦
            rw (moved, found, apart, has-unlinked old.user_id u s.user_set info.id c) (ground arith)
      ]
    ]
    | inl same_id ↦ elim (Option-cases (get_key info.id s.info_by_key)) [
      | inl nothing ↦
          let absent : has c (conns_of u s.user_set) ≡ false =
            owner_lem u c same_id ∙ ap (owns u) nothing in
          rw (moved, nothing) (ground arith)
      | inr (old, found) ↦
          let owner : has c (conns_of u s.user_set) ≡ str_eq old.user_id u =
            owner_lem u c same_id ∙ ap (owns u) found in
          elim (Bool-cases (str_eq old.user_id info.user_id)) [
            | inl same ↦ rw (moved, found, same) (ground (arith, eq_iff old.user_id info.user_id))
            | inr apart ↦
                rw (moved, found, apart, has-unlinked old.user_id u s.user_set info.id c)
                  (ground (
                    arith,
                    eq_iff old.user_id info.user_id,
                    eq_iff old.user_id u,
                    eq_iff u old.user_id,
                    eq_iff info.user_id u,
                  ))
          ]
    ]
  ]

  NoDup-moved : (u : String) → NoDup (conns_of u (moved info s))
  unfolding moved
  NoDup-moved u = elim (Option-cases (get_key info.id s.info_by_key)) [
    | inl nothing ↦ rw (moved, nothing) (h.distinct u)
    | inr (old, found) ↦ elim (Bool-cases (str_eq old.user_id info.user_id)) [
      | inl same ↦ rw (moved, found, same) (h.distinct u)
      | inr other ↦
          rw (moved, found, other) (NoDup-unlinked old.user_id u s.user_set info.id (h.distinct u))
    ]
  ]

  linked-IsIndexed :
      (new : ConnectionInfo)
      → new.user_id ≡ info.user_id
      → IsIndexed (record s {
        info_by_key = set_key info.id new s.info_by_key;
        user_set = linked info.user_id info.id (moved info s);
      })
  linked-IsIndexed new same_user = record {
    index = λ u c.
        rw
          (
            has-linked info.user_id u (moved info s) info.id c,
            has-moved u c,
            get_key-set_key_all c info.id new s.info_by_key,
          )
          (elim (Bool-cases (str_eq c info.id)) [
            | inl same ↦
                rw (same, same_user) (ground (arith, eq_iff u info.user_id, eq_iff info.user_id u))
            | inr other ↦ rw other (rw (sym (h.index u c)) (ground arith))
          ]);
    distinct = λ u. NoDup-linked info.user_id u (moved info s) info.id (NoDup-moved u);
  }

module _ (deep_copy : ConnectionInfo → ConnectionInfo) (iterate : List String → List String) where
  pub add-IsIndexed :
      (copy : IsCopy deep_copy) (now : ℕ) (info : Option ConnectionInfo)
      (s s' : MemoryConnectionStore)
      → IsIndexed s
      → add deep_copy iterate now info s ≡ ok s'
      → IsIndexed s'
  unfolding add stored
  add-IsIndexed copy now none s s' h e = cc
  add-IsIndexed copy now (some info) s s' h e = elim (Bool-cases (str_eq info.id "")) [
    | inl b ↦ cc (rw b at e)
    | inr b ↦ elim (Bool-cases (str_eq info.user_id "")) [
      | inl c ↦ cc (rw (b, c) at e)
      | inr c ↦ elim (Bool-cases (is_over info s)) [
        | inl d ↦ cc (rw (b, c, d) at e)
        | inr d ↦
            let new = stored deep_copy iterate now info in
            let same : s' ≡ record s {
              info_by_key = set_key info.id new s.info_by_key;
              user_set = linked info.user_id info.id (moved info s);
            } =
              cc (rw (b, c, d) at e) in
            rw same (linked-IsIndexed s h info new (copy.user_id _))
      ]
    ]
  ]

  pub remove_connection-IsIndexed :
      (id : String) (s s' : MemoryConnectionStore)
      → IsIndexed s
      → remove_connection deep_copy iterate id s ≡ ok s'
      → IsIndexed s'
  unfolding remove_connection
  remove_connection-IsIndexed id s s' h e = elim (Bool-cases (str_eq id "")) [
    | inl b ↦ cc (rw b at e)
    | inr b ↦ elim (Option-cases (get_key id s.info_by_key)) [
      | inl nothing ↦ let same : s' ≡ s = cc (rw (b, nothing) at e) in rw same h
      | inr (info, found) ↦
          let same : s' ≡ record s {
            info_by_key = delete_key id s.info_by_key;
            user_set = unlinked info.user_id id s.user_set;
          } =
            cc (rw (b, found) at e) in
          rw same (record {
            index = λ u c.
                rw
                  (
                    has-unlinked info.user_id u s.user_set id c,
                    get_key-delete_key_all c id s.info_by_key,
                  )
                  (elim (Bool-cases (str_eq c id)) [
                    | inl same_id ↦
                        let owner : has c (conns_of u s.user_set) ≡ str_eq info.user_id u =
                          h.index u c
                          ∙ ap (owns u) (
                              ap (λ k. get_key k s.info_by_key) ((eq_iff c id).0 same_id)
                              ∙ found) in
                        rw same_id (ground (arith, eq_iff u info.user_id, eq_iff info.user_id u))
                    | inr other ↦ rw other (rw (sym (h.index u c)) (ground arith))
                  ]);
            distinct = λ u. NoDup-unlinked info.user_id u s.user_set id (h.distinct u);
          })
    ]
  ]

  pub patch-IsIndexed :
      (now : ℕ) (id : String) (f : ConnectionInfo → ConnectionInfo) (s s' : MemoryConnectionStore)
      → ((info : ConnectionInfo) → (f info).user_id ≡ info.user_id)
      → IsIndexed s
      → patch deep_copy iterate now id (some f) s ≡ ok s'
      → IsIndexed s'
  unfolding patch
  patch-IsIndexed now id f s s' keeps h e = elim (Bool-cases (str_eq id "")) [
    | inl b ↦ cc (rw b at e)
    | inr b ↦ elim (Option-cases (get_key id s.info_by_key)) [
      | inl nothing ↦ cc (rw (b, nothing) at e)
      | inr (info, found) ↦
          let new : ConnectionInfo = record (f info) { updated_at = now } in
          let same : s' ≡ record s { info_by_key = set_key id new s.info_by_key } =
            cc (rw (b, found) at e) in
          rw same (record {
            index = λ u c.
                rw (get_key-set_key_all c id new s.info_by_key) (elim (Bool-cases (str_eq c id)) [
                  | inl same_id ↦
                      rw (same_id, keeps info)
                        (h.index u c
                          ∙ ap (owns u)
                              (ap (λ k. get_key k s.info_by_key) ((eq_iff c id).0 same_id) ∙ found))
                  | inr other ↦ rw other (h.index u c)
                ]);
            distinct = h.distinct;
          })
    ]
  ]
