-- ===== src/Tests/Connections.antt =====
-- Two connections of a user within a limit of two.
use xyncra_server.Common.{
  ℕ, ◌≡◌, refl, String, some, List, [], ◌∷◌, pos, str_eq, arith, Bool-cases, inl, inr,
}
use xyncra_server.Fault.{ok}
use xyncra_server.Server.ConnectionStore.{
  ConnectionInfo, MemoryConnectionStore, new_memory_connection_store, stored, moved, linked, add,
  list_by_user, conns_of,
}
use xyncra_server.Server.ConnectionStore.Indexed.{IsIndexed, IsCopy}
use xyncra_server.Server.ConnectionStore.Listed.{IsOrder, limited, Lists, list_by_user-Lists}
use xyncra_server.Server.ConnectionStore.Histories.{added, Reach, here, next, Reach-IsIndexed}
use xyncra_server.Server.ConnectionStore.Within.{IsWithin, add-IsWithin}

abbrev copy : ConnectionInfo → ConnectionInfo
copy info = info

abbrev in_order : List String → List String
in_order l = l

abbrev connection : String → ConnectionInfo
connection id = record {
  id = id;
  user_id = "ann";
  session_id = "";
  device_id = "";
  device_type = "";
  ip_address = "";
  protocol = "";
  last_heartbeat_at = 0;
  status = "";
  metadata = [];
  created_at = 0;
  updated_at = 0;
  ttl = pos 0;
}

copy-IsCopy : IsCopy copy
copy-IsCopy = record { id = λ info. refl; user_id = λ info. refl }

in_order-IsOrder : IsOrder in_order
in_order-IsOrder = record { same_keys = λ l k. refl; same_length = λ l. refl }

abbrev row : String → ℕ → ConnectionInfo
row id now = record (connection id) { created_at = now; updated_at = now }

abbrev one : MemoryConnectionStore
one = record {
  info_by_key = ("c1", row "c1" 3) ∷ [];
  user_set = ("ann", "c1" ∷ []) ∷ [];
  max_conns_per_user = pos 2;
}

abbrev two : MemoryConnectionStore
two = record {
  info_by_key = ("c2", row "c2" 4) ∷ ("c1", row "c1" 3) ∷ [];
  user_set = ("ann", "c2" ∷ "c1" ∷ []) ∷ [];
  max_conns_per_user = pos 2;
}

adds_one :
    add copy in_order 3 (some (connection "c1")) (new_memory_connection_store (pos 2)) ≡ ok one
unfolding add stored moved linked new_memory_connection_store
adds_one = refl

adds_two : add copy in_order 4 (some (connection "c2")) one ≡ ok two
unfolding add stored moved linked
adds_two = refl

history : Reach copy in_order (new_memory_connection_store (pos 2)) two
history =
    next (next here (added 3 (some (connection "c1")) adds_one))
      (added 4 (some (connection "c2")) adds_two)

Reach-IsIndexed_example : IsIndexed two
Reach-IsIndexed_example =
    Reach-IsIndexed copy in_order copy-IsCopy in_order-IsOrder (pos 2) two history

one-IsIndexed : IsIndexed one
one-IsIndexed =
    Reach-IsIndexed copy in_order copy-IsCopy in_order-IsOrder (pos 2) one
      (next here (added 3 (some (connection "c1")) adds_one))

list_by_user-Lists_example :
    (all : List ConnectionInfo) × (list_by_user copy in_order "ann" (pos 1) two
      ≡ ok (limited (pos 1) all))
    × Lists copy in_order "ann" two all
list_by_user-Lists_example =
    list_by_user-Lists copy in_order in_order-IsOrder two "ann" (pos 1)
      (Reach-IsIndexed copy in_order copy-IsCopy in_order-IsOrder (pos 2) two history) refl

one-IsWithin : IsWithin 2 one
one-IsWithin u = elim (Bool-cases (str_eq u "ann")) [
  | inl same ↦ rw (conns_of, same) (omega arith)
  | inr other ↦ rw (conns_of, other) (omega arith)
]

add-IsWithin_example : IsWithin 2 two
add-IsWithin_example =
    add-IsWithin copy in_order 4 1 (connection "c2") one two refl one-IsIndexed one-IsWithin
      (λ old found. cc found) adds_two
