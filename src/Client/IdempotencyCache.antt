-- ===== src/Client/IdempotencyCache.antt =====
-- pkg/client/idempotency_cache.go. The map is the list of its keys, each of which leads to the list
-- element with that value; the mutex makes each operation one step.
pub mod Lru
use xyncra_server.Common.{
  ℕ, String, Bool, true, false, Option, none, some, List, [], ◌∷◌, leb, if◌then◌else◌, ℤ, pos,
  negsuc, length, has, remove, back, drop_back,
}

-- `order` has the most recently used key in front.
pub record IdempotencyCache : Type 0 where
  pub capacity : ℤ
  pub items : List String
  pub order : List String

unfoldable pub new_idempotency_cache : ℤ → IdempotencyCache
new_idempotency_cache capacity = record { capacity = capacity; items = []; order = [] }

-- `Len() >= capacity`.
abbrev pub is_full : ℕ → ℤ → Bool
is_full n (pos k) = leb k n
is_full n (negsuc k) = true

unfoldable pub contains : String → IdempotencyCache → IdempotencyCache × Bool
contains key c =
    if has key c.items then (record c { order = key ∷ remove key c.order }, true) else (c, false)

abbrev pub evicted : IdempotencyCache → Option String → IdempotencyCache
evicted c none = c
evicted c (some b) = record c { order = drop_back c.order; items = remove b c.items }

abbrev pub pushed : String → IdempotencyCache → IdempotencyCache
pushed key c = record c { order = key ∷ c.order; items = key ∷ c.items }

unfoldable pub put : String → IdempotencyCache → IdempotencyCache
put key c =
    if has key c.items
    then record c { order = key ∷ remove key c.order }
    else pushed key (if is_full (length c.order) c.capacity then evicted c (back c.order) else c)

unfoldable pub len : IdempotencyCache → ℕ
len c = length c.order
