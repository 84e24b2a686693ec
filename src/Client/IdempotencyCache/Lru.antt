-- ===== src/Client/IdempotencyCache/Lru.antt =====
-- pkg/client/idempotency_cache.go: the cache is an LRU list of bounded length, so a key that was put
-- stays for as many further keys as there is room for.
use xyncra_server.Common.{
  ℕ, zero, suc, ◌+◌, ◌≤◌, ◌<◌, ◌≡◌, refl, ap, sym, ◌∙◌, inl, inr, String, true, false, Option, none,
  some, List, [], ◌∷◌, arith, leb, if◌then◌else◌, Bool-cases, ℤ, pos, negsuc, to_ℕ, eq_iff, str_eq,
  length, take, has, remove, NoDup, back, drop_back, remove_absent, length-remove, has-remove_other,
  has-remove, NoDup-remove, take_all, take-drop_back, length-take-le, has-take, NoDup-take,
  has-take-remove, has-drop_back, has-remove_same, take-take,
}
use xyncra_server.Client.IdempotencyCache.{
  IdempotencyCache, new_idempotency_cache, is_full, contains, evicted, pushed, put,
}

-- How many keys there is room for: the capacity, and one even where it is not positive.
abbrev pub room : IdempotencyCache → ℕ
room c = if leb (to_ℕ c.capacity) 0 then 1 else to_ℕ c.capacity

-- The map has the list's keys, none twice, and no more than there is room for.
pub record IsValid (c : IdempotencyCache) : Type 0 where
  pub same : (k : String) → has k c.items ≡ has k c.order
  pub once : NoDup c.order
  pub bounded : length c.order ≤ room c

-- What an LRU list becomes when a key is used.
abbrev pub used : ℕ → String → List String → List String
used n key l = take n (key ∷ remove key l)

back-none : (l : List String) → back l ≡ none → l ≡ []
back-none [] e = refl
back-none (x ∷ []) e = cc
back-none (x ∷ y ∷ l) e = cc (back-none (y ∷ l) e)

abbrev room_of : ℤ → ℕ
room_of capacity = if leb (to_ℕ capacity) 0 then 1 else to_ℕ capacity

take_full :
    (n : ℕ) (capacity : ℤ) (key : String) (l : List String)
    → n ≡ room_of capacity
    → length l ≤ n
    → is_full (length l) capacity ≡ true
    → take n (key ∷ l) ≡ key ∷ drop_back l
take_full zero capacity key l e b f = absurd (ground arith)
take_full (suc n) capacity key [] e b f = ap (◌∷◌ key) (take_all n [] (omega arith))
take_full (suc n) (pos k) key (x ∷ l) e b f = ap (◌∷◌ key) (take-drop_back n (x ∷ l) (ground arith))
take_full (suc n) (negsuc k) key (x ∷ l) e b f =
    ap (◌∷◌ key) (take-drop_back n (x ∷ l) (ground arith))

not_full : (n : ℕ) (capacity : ℤ) → is_full n capacity ≡ false → n < room_of capacity
not_full n (pos k) f = ground arith
not_full n (negsuc k) f = cc

module _ (key : String) (c : IdempotencyCache) (v : IsValid c) where
  hit_lem : has key c.items ≡ true → key ∷ remove key c.order ≡ used (room c) key c.order
  hit_lem found = sym (
      take_all (room c) (key ∷ remove key c.order)
        (omega (arith, v.bounded, length-remove key c.order v.once (sym (v.same key) ∙ found))))

  miss_lem :
      has key c.items ≡ false
      → (pushed key
          (if is_full (length c.order) c.capacity then evicted c (back c.order) else c)).order
        ≡ used (room c) key c.order
  miss_lem missing =
      rw (remove_absent key c.order (sym (v.same key) ∙ missing))
        (elim (Bool-cases (is_full (length c.order) c.capacity)) [
          | inl full ↦ rw full (
              evicted_order (back c.order) refl
              ∙ sym (take_full (room c) c.capacity key c.order refl v.bounded full))
          | inr space ↦ rw space (
              sym (
                take_all (room c) (key ∷ c.order)
                  (omega (arith, not_full (length c.order) c.capacity space))))
        ])
    where
      evicted_order :
          (o : Option String)
          → back c.order ≡ o
          → (pushed key (evicted c o)).order ≡ key ∷ drop_back c.order
      evicted_order none e = rw (back-none c.order e) refl
      evicted_order (some b) e = refl

  -- `Put` makes of a valid cache's order what an LRU list of as many keys as there is room for
  -- becomes when the key is used.
  pub put-used : (put key c).order ≡ used (room c) key c.order
  unfolding put
  put-used = elim (Bool-cases (has key c.items)) [
    | inl found ↦ rw found (hit_lem found)
    | inr missing ↦ rw missing (miss_lem missing)
  ]

  hit-same :
      (k : String) → has key c.items ≡ true → has k c.items ≡ has k (key ∷ remove key c.order)
  hit-same k found = v.same k ∙ elim (Bool-cases (str_eq k key)) [
    | inl same ↦ ground (arith, eq_iff k key, v.same key)
    | inr other ↦ rw other (sym (has-remove_other k key c.order other))
  ]

  evicted-same :
      (o : Option String)
      → back c.order ≡ o
      → (k : String) → has k (evicted c o).items ≡ has k (evicted c o).order
  evicted-same none e k = v.same k
  evicted-same (some b) e k =
      has-remove_same b k c.items c.order v.same ∙ sym (has-drop_back b c.order v.once e k)

  put-same : (k : String) → has k (put key c).items ≡ has k (put key c).order
  unfolding put
  put-same k = elim (Bool-cases (has key c.items)) [
    | inl found ↦ rw found (hit-same k found)
    | inr missing ↦ rw missing (elim (Bool-cases (is_full (length c.order) c.capacity)) [
      | inl full ↦
          rw full (ap (λ b. if str_eq k key then true else b) (evicted-same (back c.order) refl k))
      | inr space ↦ rw space (ap (λ b. if str_eq k key then true else b) (v.same k))
    ])
  ]

  put-capacity : (put key c).capacity ≡ c.capacity
  unfolding put
  put-capacity = ground arith

  -- `Put` keeps a cache valid: the map and the list agree, no key stands twice, and there are no more
  -- than there is room for.
  pub put-IsValid : IsValid (put key c)
  put-IsValid = record {
    same = put-same;
    once = rw put-used (
        NoDup-take (room c) (key ∷ remove key c.order)
          (has-remove key c.order, NoDup-remove key c.order v.once));
    bounded = rw (put-used, put-capacity) (length-take-le (room c) (key ∷ remove key c.order));
  }

  room-put : room (put key c) ≡ room c
  room-put = ap room_of put-capacity

  -- A key among the first `n` is among the first `n + 1` after another `Put`, if there is room.
  put-take :
      (j : String) (n : ℕ)
      → n < room c
      → has j (take n c.order) ≡ true
      → has j (take (suc n) (put key c).order) ≡ true
  put-take j n lt h =
      rw (put-used, take-take (suc n) (room c) (key ∷ remove key c.order) lt)
        (elim (Bool-cases (str_eq j key)) [
          | inl same ↦ rw same refl
          | inr other ↦ rw other (has-take-remove j key n c.order other h)
        ])

  put-first : has key (take 1 (put key c).order) ≡ true
  put-first =
      rw (put-used, take-take 1 (room c) (key ∷ remove key c.order) (ground arith))
        (ground (arith, eq_iff key key))

-- One `Put` after the other.
abbrev pub puts : List String → IdempotencyCache → IdempotencyCache
puts [] c = c
puts (k ∷ ks) c = puts ks (put k c)

puts-stays :
    (ks : List String) (j : String) (n : ℕ) (c : IdempotencyCache)
    → IsValid c
    → n + length ks ≤ room c
    → has j (take n c.order) ≡ true
    → (contains j (puts ks c)).1 ≡ true
unfolding contains
puts-stays [] j n c v fits h = rw (v.same j ∙ has-take j n c.order h) refl
puts-stays (k ∷ ks) j n c v fits h =
    puts-stays ks j (suc n) (put k c) (put-IsValid k c v) (omega (arith, room-put k c v))
      (put-take k c v j n (omega arith) h)

-- A key that is put into a valid cache is still found after fewer further calls of `Put`, of any
-- keys, than the cache has room for: its capacity, and one where that is not positive.
pub contains-puts :
    (key : String) (ks : List String) (c : IdempotencyCache)
    → IsValid c
    → length ks < room c
    → (contains key (puts ks (put key c))).1 ≡ true
contains-puts key ks c v fits =
    puts-stays ks key 1 (put key c) (put-IsValid key c v) (omega (arith, room-put key c v))
      (put-first key c v)

contains-IsValid : (key : String) (c : IdempotencyCache) → IsValid c → IsValid (contains key c).0
unfolding contains
contains-IsValid key c v = elim (Bool-cases (has key c.items)) [
  | inl found ↦ rw found (record {
    same = λ k. hit-same key c v k found;
    once = (has-remove key c.order, NoDup-remove key c.order v.once);
    bounded = omega (arith, v.bounded, length-remove key c.order v.once (sym (v.same key) ∙ found));
  })
  | inr missing ↦ rw missing v
]

new_idempotency_cache-IsValid : (capacity : ℤ) → IsValid (new_idempotency_cache capacity)
unfolding new_idempotency_cache
new_idempotency_cache-IsValid capacity = record {
  same = λ k. refl;
  once = tt;
  bounded = omega arith;
}

-- A run of the two operations on a cache.
pub data Use : Type 0 where
  a_put a_contains : String → Use

abbrev pub uses : List Use → IdempotencyCache → IdempotencyCache
uses [] c = c
uses (a_put k ∷ us) c = uses us (put k c)
uses (a_contains k ∷ us) c = uses us (contains k c).0

uses-keeps : (us : List Use) (c : IdempotencyCache) → IsValid c → IsValid (uses us c)
uses-keeps [] c v = v
uses-keeps (a_put k ∷ us) c v = uses-keeps us (put k c) (put-IsValid k c v)
uses-keeps (a_contains k ∷ us) c v = uses-keeps us (contains k c).0 (contains-IsValid k c v)

-- Every run of `Put` and `Contains` from a new cache leaves it valid: the map has the keys of the
-- list, no key stands in the list twice, and there are no more than there is room for.
pub uses-IsValid :
    (us : List Use) (capacity : ℤ) → IsValid (uses us (new_idempotency_cache capacity))
uses-IsValid us capacity =
    uses-keeps us (new_idempotency_cache capacity) (new_idempotency_cache-IsValid capacity)
