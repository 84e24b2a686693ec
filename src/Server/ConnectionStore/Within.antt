-- ===== src/Server/ConnectionStore/Within.antt =====
-- internal/server/memory_connection_store.go: the limit of connections for each user.
use xyncra_server.Common.{
  ℕ, suc, ◌+◌, ◌≤◌, ◌≡◌, refl, ap, sym, ◌∙◌, inl, inr, String, true, false, none, some, List,
  str_eq, eq_iff, Bool-cases, Option-cases, arith, pos, has, insert_key, get_key, length,
}
use xyncra_server.Fault.{ok}
use xyncra_server.Server.ConnectionStore.{
  ConnectionInfo, MemoryConnectionStore, conns_of, linked, is_full, is_over, moved, add,
}
use xyncra_server.Server.ConnectionStore.Links.{conns_of-linked}
use xyncra_server.Server.ConnectionStore.Indexed.{owns, IsIndexed}

abbrev pub IsWithin : ℕ → MemoryConnectionStore → Type 0
IsWithin limit s = (user_id : String) → length (conns_of user_id s.user_set) ≤ limit

module _ (info : ConnectionInfo) (s : MemoryConnectionStore) where
  abbrev Stays : Type 0
  Stays =
      (old : ConnectionInfo)
      → get_key info.id s.info_by_key ≡ some old
      → str_eq old.user_id info.user_id ≡ true

  unmoved : Stays → moved info s ≡ s.user_set
  unfolding moved
  unmoved stays = elim (Option-cases (get_key info.id s.info_by_key)) [
    | inl nothing ↦ rw (moved, nothing) refl
    | inr (old, found) ↦ rw (moved, found, stays old found) refl
  ]

  room :
      (limit n : ℕ)
      → s.max_conns_per_user ≡ pos (suc limit)
      → get_key info.id s.info_by_key ≡ none
      → n ≡ length (conns_of info.user_id s.user_set)
      → is_over info s ≡ false
      → n + 1 ≤ suc limit
  room limit n max nothing counts h =
      let open_room : is_full (pos (suc limit)) n ≡ false = rw (nothing, max, sym counts) at h in
      ground arith

  insert_key-le :
      (limit : ℕ)
      → s.max_conns_per_user ≡ pos (suc limit)
      → IsIndexed s
      → length (conns_of info.user_id s.user_set) ≤ suc limit
      → Stays
      → is_over info s ≡ false
      → length (insert_key info.id (conns_of info.user_id s.user_set)) ≤ suc limit
  insert_key-le limit max h within stays under =
      elim (Bool-cases (has info.id (conns_of info.user_id s.user_set))) [
        | inl there ↦ rw there within
        | inr absent ↦ elim (Option-cases (get_key info.id s.info_by_key)) [
          | inl nothing ↦ rw absent (
              omega (
                arith,
                room limit (length (conns_of info.user_id s.user_set)) max nothing refl under,
              ))
          | inr (old, found) ↦ absurd (
              cc (
                absent,
                h.index info.user_id info.id ∙ ap (owns info.user_id) found ∙ stays old found,
              ))
        ]
      ]

  linked-le :
      (limit : ℕ)
      → s.max_conns_per_user ≡ pos (suc limit)
      → IsIndexed s
      → IsWithin (suc limit) s
      → Stays
      → is_over info s ≡ false
      → (u : String) → length (conns_of u (linked info.user_id info.id s.user_set)) ≤ suc limit
  linked-le limit max h within stays under u = elim (Bool-cases (str_eq u info.user_id)) [
    | inl same ↦
        rw (conns_of-linked info.user_id u s.user_set info.id, same, (eq_iff u info.user_id).0 same)
          (insert_key-le limit max h (within info.user_id) stays under)
    | inr other ↦ rw (conns_of-linked info.user_id u s.user_set info.id, other) (within u)
  ]

module _ (deep_copy : ConnectionInfo → ConnectionInfo) (iterate : List String → List String) where
  -- Add keeps the number of connections of each user within a positive limit, where the index agrees and
  -- the connection is new or stored with the same user.
  pub add-IsWithin :
      (now limit : ℕ) (info : ConnectionInfo) (s s' : MemoryConnectionStore)
      → s.max_conns_per_user ≡ pos (suc limit)
      → IsIndexed s
      → IsWithin (suc limit) s
      → ((old : ConnectionInfo)
          → get_key info.id s.info_by_key ≡ some old
          → str_eq old.user_id info.user_id ≡ true)
      → add deep_copy iterate now (some info) s ≡ ok s'
      → IsWithin (suc limit) s'
  unfolding add moved
  add-IsWithin now limit info s s' max h within stays e u = elim (Bool-cases (str_eq info.id "")) [
    | inl b ↦ cc (rw b at e)
    | inr b ↦ elim (Bool-cases (str_eq info.user_id "")) [
      | inl c ↦ cc (rw (b, c) at e)
      | inr c ↦ elim (Bool-cases (is_over info s)) [
        | inl d ↦ cc (rw (b, c, d) at e)
        | inr d ↦
            let same : s'.user_set ≡ linked info.user_id info.id (moved info s) =
              cc (rw (b, c, d) at e) in
            rw (same, unmoved info s stays) (linked-le info s limit max h within stays d u)
      ]
    ]
  ]
