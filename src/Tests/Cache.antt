-- ===== src/Tests/Cache.antt =====
-- The idempotency cache at concrete inputs.
use xyncra_server.Common.{◌≡◌, true, List, [], ◌∷◌, arith, pos}
use xyncra_server.Client.IdempotencyCache.{IdempotencyCache, new_idempotency_cache, contains, put}
use xyncra_server.Client.IdempotencyCache.Lru.{
  IsValid, used, put-used, puts, contains-puts, Use, a_put, a_contains, uses, uses-IsValid,
}

-- A cache of two, which is full.
abbrev requests : List Use
requests = a_put "a" ∷ a_put "b" ∷ a_contains "a" ∷ []

abbrev full_cache : IdempotencyCache
full_cache = uses requests (new_idempotency_cache (pos 2))

uses-IsValid_example : IsValid full_cache
uses-IsValid_example = uses-IsValid requests (pos 2)

put-used_example : (put "c" full_cache).order ≡ used 2 "c" ("a" ∷ "b" ∷ [])
unfolding new_idempotency_cache put contains
put-used_example = put-used "c" full_cache (uses-IsValid requests (pos 2))

contains-puts_example : (contains "c" (puts ("d" ∷ []) (put "c" full_cache))).1 ≡ true
unfolding new_idempotency_cache put contains
contains-puts_example =
    contains-puts "c" ("d" ∷ []) full_cache (uses-IsValid requests (pos 2)) (omega arith)
