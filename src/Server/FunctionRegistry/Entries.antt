-- ===== src/Server/FunctionRegistry/Entries.antt =====
-- internal/server/function_registry.go: the entries of the users.
use xyncra_server.Common.{
  ◌≢◌, inl, inr, String, some, List, [], ◌∷◌, str_eq, Bool-cases, Option-cases, get_key, set_key,
  delete_key, get_key-set_key_all, get_key-delete_key_all,
}
use xyncra_server.Server.FunctionRegistry.{
  FunctionRegistryConfig, DeviceFunctions, MemoryFunctionRegistry, new_memory_function_registry,
  devices_of, recorded, get_device_functions, put_back, on_device_disconnect,
}
use xyncra_server.Server.FunctionRegistry.Lookup.{device, accepts, kept-accepts}
use xyncra_server.Server.FunctionRegistry.Stored.{Call, register, disconnect, after}

abbrev pub NoneEmpty : List (String × List (String × DeviceFunctions)) → Type 0
NoneEmpty m = (u : String) → get_key u m ≢ some []

set_key-NoneEmpty :
    (u : String) (d : String × DeviceFunctions) (ds : List (String × DeviceFunctions))
    (m : List (String × List (String × DeviceFunctions)))
    → NoneEmpty m
    → NoneEmpty (set_key u (d ∷ ds) m)
set_key-NoneEmpty u d ds m h j e = elim (Bool-cases (str_eq j u)) [
  | inl same ↦ cc (rw (get_key-set_key_all j u (d ∷ ds) m, same) at e)
  | inr other ↦ h j (rw (get_key-set_key_all j u (d ∷ ds) m, other) at e)
]

put_back-NoneEmpty :
    (u : String) (ds : List (String × DeviceFunctions))
    (m : List (String × List (String × DeviceFunctions)))
    → NoneEmpty m
    → NoneEmpty (put_back u ds m)
put_back-NoneEmpty u (d ∷ ds) m h j e = set_key-NoneEmpty u d ds m h j e
put_back-NoneEmpty u [] m h j e = elim (Bool-cases (str_eq j u)) [
  | inl same ↦ cc (rw (get_key-delete_key_all j u m, same) at e)
  | inr other ↦ h j (rw (get_key-delete_key_all j u m, other) at e)
]

disconnected-NoneEmpty :
    (u d : String) (r : MemoryFunctionRegistry)
    → NoneEmpty r.devices
    → NoneEmpty (on_device_disconnect u d r).0.devices
unfolding on_device_disconnect
disconnected-NoneEmpty u d r h = elim (Option-cases (get_device_functions u d r)) [
  | inl nothing ↦ rw (on_device_disconnect, nothing) h
  | inr (dev, found) ↦
      rw (on_device_disconnect, found)
        (put_back-NoneEmpty u (delete_key d (devices_of u r)) r.devices h)
]

-- After any sequence of registrations and disconnections, at a new registry, no user has an entry without
-- devices: the entry goes with the user's last device.
pub after-NoneEmpty :
    (cfg : FunctionRegistryConfig) (cs : List Call) → NoneEmpty (after cfg cs).devices
unfolding new_memory_function_registry recorded
after-NoneEmpty cfg [] = λ u e. cc
after-NoneEmpty cfg (register now user_id device_id params ∷ cs) =
    let r = after cfg cs in
    elim (Bool-cases (accepts r.config params.functions)) [
      | inl accepted ↦
          rw (kept-accepts now user_id device_id params r, accepted)
            (set_key-NoneEmpty user_id (device_id, device now user_id device_id params)
              (delete_key device_id (devices_of user_id r)) r.devices (after-NoneEmpty cfg cs))
      | inr refused ↦
          rw (kept-accepts now user_id device_id params r, refused) (after-NoneEmpty cfg cs)
    ]
after-NoneEmpty cfg (disconnect user_id device_id ∷ cs) =
    disconnected-NoneEmpty user_id device_id (after cfg cs) (after-NoneEmpty cfg cs)
