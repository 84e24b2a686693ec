-- ===== src/Server/ConnectionStore/Listed.antt =====
-- internal/server/memory_connection_store.go: `ListByUser` and `CountByUser`.
use xyncra_server.Common.{
  ℕ, suc, zero, ◌+◌, ◌≡◌, ◌↔◌, refl, ap, sym, ◌∙◌, inl, inr, String, true, false, Option, none,
  some, is_some, List, [], ◌∷◌, str_eq, eq_iff, Bool-cases, Option-cases, if◌then◌else◌, arith, ℤ,
  pos, negsuc, has, In, get_key, length, take,
}
use xyncra_server.Fault.{ok}
use xyncra_server.Server.ConnectionStore.{
  ConnectionInfo, MemoryConnectionStore, conns_of, is_enough, list_loop, list_by_user,
  count_by_user,
}
use xyncra_server.Server.ConnectionStore.Indexed.{owns, IsIndexed}

-- The order of a loop over a map has each key once.
pub record IsOrder (iterate : List String → List String) : Type 0 where
  pub same_keys : (l : List String) (k : String) → has k (iterate l) ≡ has k l
  pub same_length : (l : List String) → length (iterate l) ≡ length l

-- A limit of 0 or less is none.
abbrev pub limited : {A : Type 0} → ℤ → List A → List A
limited (pos zero) l = l
limited (pos (suc n)) l = take (suc n) l
limited (negsuc n) l = l

module _ (deep_copy : ConnectionInfo → ConnectionInfo) where
  -- The copies of the stored connections with the given IDs.
  abbrev pub copies : List String → MemoryConnectionStore → List ConnectionInfo
  copies [] s = []
  copies (id ∷ ids) s =
      let rest = copies ids s in
      elim (get_key id s.info_by_key) [ none ↦ rest | some info ↦ deep_copy info ∷ rest ]

  In-copies :
      (ids : List String) (s : MemoryConnectionStore) (r : ConnectionInfo)
      → In r (copies ids s)
      → (id : String) × (info : ConnectionInfo) × (has id ids ≡ true)
        × (get_key id s.info_by_key ≡ some info)
        × (r ≡ deep_copy info)
  In-copies [] s r m = absurd m
  In-copies (id ∷ ids) s r m = elim (Option-cases (get_key id s.info_by_key)) [
    | inl nothing ↦
        let (x, info, there, found, same) = In-copies ids s r (rw (copies, nothing) at m) in
        (x, info, has_later x there, found, same)
    | inr (info, found) ↦ elim (rw (copies, found) at m) [
      | inl same ↦ (id, info, rw ((eq_iff id id).1 refl) refl, found, same)
      | inr later ↦
          let (x, info', there, found', same) = In-copies ids s r later in
          (x, info', has_later x there, found', same)
    ]
  ]
    where
      has_later : (x : String) → has x ids ≡ true → has x (id ∷ ids) ≡ true
      has_later x h = ground arith

  copies-In :
      (ids : List String) (s : MemoryConnectionStore) (id : String) (info : ConnectionInfo)
      → has id ids ≡ true
      → get_key id s.info_by_key ≡ some info
      → In (deep_copy info) (copies ids s)
  copies-In [] s id info h found = cc
  copies-In (x ∷ ids) s id info h found = elim (Bool-cases (str_eq id x)) [
    | inl same ↦
        let there : get_key x s.info_by_key ≡ some info = rw (sym ((eq_iff id x).0 same)) found in
        rw (copies, there) (inl refl)
    | inr other ↦ elim (Option-cases (get_key x s.info_by_key)) [
      | inl nothing ↦ rw (copies, nothing) (copies-In ids s id info (rw other at h) found)
      | inr (info', there) ↦
          rw (copies, there) (inr (copies-In ids s id info (rw other at h) found))
    ]
  ]

  length-copies :
      (ids : List String) (s : MemoryConnectionStore)
      → ((id : String) → has id ids ≡ true → is_some (get_key id s.info_by_key) ≡ true)
      → length (copies ids s) ≡ length ids
  length-copies [] s h = refl
  length-copies (id ∷ ids) s h = elim (Option-cases (get_key id s.info_by_key)) [
    | inl nothing ↦ absurd (missing nothing (h id (rw ((eq_iff id id).1 refl) refl)))
    | inr (info, found) ↦
        rw (copies, found) (ap suc (length-copies ids s (λ x there. h x (ground arith))))
  ]
    where
      missing : get_key id s.info_by_key ≡ none → is_some (get_key id s.info_by_key) ≡ true → ⊥
      missing nothing h = cc (rw nothing at h)

module _ (deep_copy : ConnectionInfo → ConnectionInfo) (iterate : List String → List String) where
  loop_without :
      (n k : ℕ) (ids : List String) (s : MemoryConnectionStore)
      → list_loop deep_copy iterate (negsuc k) n ids s ≡ copies deep_copy ids s
  unfolding list_loop
  loop_without n k [] s = refl
  loop_without n k (id ∷ ids) s = elim (Option-cases (get_key id s.info_by_key)) [
    | inl nothing ↦ rw (list_loop, copies, nothing) (loop_without n k ids s)
    | inr (info, found) ↦
        rw (list_loop, copies, found) (ap (◌∷◌ (deep_copy info)) (loop_without (suc n) k ids s))
  ]

  loop_zero :
      (n : ℕ) (ids : List String) (s : MemoryConnectionStore)
      → list_loop deep_copy iterate (pos zero) n ids s ≡ copies deep_copy ids s
  unfolding list_loop
  loop_zero n [] s = refl
  loop_zero n (id ∷ ids) s = elim (Option-cases (get_key id s.info_by_key)) [
    | inl nothing ↦ rw (list_loop, copies, nothing) (loop_zero n ids s)
    | inr (info, found) ↦
        rw (list_loop, copies, found) (ap (◌∷◌ (deep_copy info)) (loop_zero (suc n) ids s))
  ]

  -- With `m + 1` results to go.
  loop_limit :
      (limit n m : ℕ) (ids : List String) (s : MemoryConnectionStore)
      → limit ≡ n + suc m
      → list_loop deep_copy iterate (pos limit) n ids s ≡ take (suc m) (copies deep_copy ids s)
  unfolding list_loop
  loop_limit limit n m [] s h = refl
  loop_limit limit n m (id ∷ ids) s h = elim (Option-cases (get_key id s.info_by_key)) [
    | inl nothing ↦
        let on : is_enough deep_copy iterate (pos limit) n ≡ false = ground arith in
        rw (list_loop, copies, nothing, on) (loop_limit limit n m ids s h)
    | inr (info, found) ↦
        rw (list_loop, copies, found)
          (ap (◌∷◌ (deep_copy info)) (further m h (λ k e. loop_limit limit (suc n) k ids s e)))
  ]
    where
      rest : List ConnectionInfo
      rest = list_loop deep_copy iterate (pos limit) (suc n) ids s

      further :
          (m : ℕ)
          → limit ≡ n + suc m
          → ((k : ℕ) → limit ≡ suc n + suc k → rest ≡ take (suc k) (copies deep_copy ids s))
          → (if is_enough deep_copy iterate (pos limit) (suc n) then [] else rest)
            ≡ take m (copies deep_copy ids s)
      further zero h ih =
          let over : is_enough deep_copy iterate (pos limit) (suc n) ≡ true = ground arith in
          rw over refl
      further (suc k) h ih =
          let on : is_enough deep_copy iterate (pos limit) (suc n) ≡ false = ground arith in
          rw on (ih k (omega arith))

  loop-limited :
      (limit : ℤ) (ids : List String) (s : MemoryConnectionStore)
      → list_loop deep_copy iterate limit 0 ids s ≡ limited limit (copies deep_copy ids s)
  loop-limited (pos zero) ids s = loop_zero 0 ids s
  loop-limited (pos (suc n)) ids s = loop_limit (suc n) 0 n ids s (omega arith)
  loop-limited (negsuc n) ids s = loop_without 0 n ids s

  -- What a user has: each connection that is stored with the user, once in the count.
  pub record Lists (user_id : String) (s : MemoryConnectionStore) (all : List ConnectionInfo)
      : Type 0 where
    pub each :
        (r : ConnectionInfo)
        → In r all ↔ (
            (id : String) × (info : ConnectionInfo) × (get_key id s.info_by_key ≡ some info)
            × (str_eq info.user_id user_id ≡ true)
            × (r ≡ deep_copy info))
    pub counted : count_by_user deep_copy iterate user_id s ≡ ok (length all)

  owns-some :
      (s : MemoryConnectionStore) (user_id id : String) (info : ConnectionInfo)
      → get_key id s.info_by_key ≡ some info
      → owns user_id (get_key id s.info_by_key) ≡ true
      → str_eq info.user_id user_id ≡ true
  owns-some s user_id id info found h = rw found at h

  is_some-owns :
      (user_id : String) (o : Option ConnectionInfo) → owns user_id o ≡ true → is_some o ≡ true
  is_some-owns user_id none h = cc
  is_some-owns user_id (some info) h = refl

  -- ListByUser of a store whose index agrees answers the copies of the connections stored for the user,
  -- whether or not their TTL has passed, all of them or as many as the limit says, and CountByUser
  -- their number, in whichever order the loops take the keys.
  pub list_by_user-Lists :
      (order : IsOrder iterate) (s : MemoryConnectionStore) (user_id : String) (limit : ℤ)
      → IsIndexed s
      → str_eq user_id "" ≡ false
      → (all : List ConnectionInfo) × (list_by_user deep_copy iterate user_id limit s
          ≡ ok (limited limit all))
        × Lists user_id s all
  unfolding list_by_user count_by_user
  list_by_user-Lists order s user_id limit h given =
      let ids = iterate (conns_of user_id s.user_set) in
      let present : (id : String)
          → has id ids ≡ true
          → owns user_id (get_key id s.info_by_key) ≡ true =
        λ id there.
          sym (h.index user_id id)
          ∙ sym (order.same_keys (conns_of user_id s.user_set) id)
          ∙ there in
      (
        copies deep_copy ids s,
        rw (list_by_user, given) (ap (λ l. ok l) (loop-limited limit ids s)),
        record {
          each = λ r. (
            λ m.
                let (id, info, there, found, same) = In-copies deep_copy ids s r m in
                (id, info, found, owns-some s user_id id info found (present id there), same),
            λ (id, info, found, mine, same). rw same (
                copies-In deep_copy ids s id info
                  (order.same_keys (conns_of user_id s.user_set) id
                    ∙ h.index user_id id
                    ∙ ap (owns user_id) found
                    ∙ mine)
                  found),
          );
          counted =
              rw (count_by_user, given)
                (ap (λ n. ok n)
                  (sym (
                    length-copies deep_copy ids s (λ id there.
                      is_some-owns user_id (get_key id s.info_by_key) (present id there))
                    ∙ order.same_length (conns_of user_id s.user_set))));
        },
      )
