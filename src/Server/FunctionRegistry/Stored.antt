-- ===== src/Server/FunctionRegistry/Stored.antt =====
-- internal/server/function_registry.go: what the registry answers after any sequence of calls.
use xyncra_server.Common.{
  ℕ, ◌≡◌, refl, ◌∙◌, String, ◌&&◌, Option, none, some, List, [], ◌∷◌, str_eq, if◌then◌else◌,
}
use xyncra_server.Server.FunctionRegistry.Lookup.{
  kept, device, accepts, registered_lookup, registered-config, disconnected_lookup,
  disconnected-config,
}
use xyncra_server.Server.FunctionRegistry.{
  FunctionRegistryConfig, DeviceFunctions, RegisterFunctionsParams, MemoryFunctionRegistry,
  new_memory_function_registry, register_functions, get_device_functions, on_device_disconnect,
}

pub data Call : Type 0 where
  register : (now : ℕ) (user_id device_id : String) (params : RegisterFunctionsParams) → Call
  disconnect : (user_id device_id : String) → Call

abbrev pub called : Call → MemoryFunctionRegistry → MemoryFunctionRegistry
called (register now user_id device_id params) r =
    kept r (register_functions now user_id device_id params r)
called (disconnect user_id device_id) r = (on_device_disconnect user_id device_id r).0

-- The registry after some calls, the last one first.
abbrev pub after : FunctionRegistryConfig → List Call → MemoryFunctionRegistry
after cfg [] = new_memory_function_registry cfg
after cfg (c ∷ cs) = called c (after cfg cs)

-- What a device has, told from the calls alone: the last registration of it that was accepted, unless
-- it has disconnected since.
abbrev pub last_registered :
    FunctionRegistryConfig → String → String → List Call → Option DeviceFunctions
last_registered cfg u d [] = none
last_registered cfg u d (register now user_id device_id params ∷ cs) =
    let before = last_registered cfg u d cs in
    if (str_eq u user_id && str_eq d device_id)
      && accepts (new_memory_function_registry cfg).config params.functions
    then some (device now user_id device_id params)
    else before
last_registered cfg u d (disconnect user_id device_id ∷ cs) =
    let before = last_registered cfg u d cs in
    if str_eq u user_id && str_eq d device_id then none else before

after-config :
    (cfg : FunctionRegistryConfig) (cs : List Call)
    → (after cfg cs).config ≡ (new_memory_function_registry cfg).config
after-config cfg [] = refl
after-config cfg (register now u d params ∷ cs) =
    registered-config now u d params (after cfg cs) ∙ after-config cfg cs
after-config cfg (disconnect u d ∷ cs) =
    disconnected-config u d (after cfg cs) ∙ after-config cfg cs

-- After any sequence of registrations and disconnections, at a new registry, GetDeviceFunctions answers
-- for every user and device what was last registered for them and accepted, unless the device has
-- disconnected since.
pub after-last_registered :
    (cfg : FunctionRegistryConfig) (cs : List Call) (u d : String)
    → get_device_functions u d (after cfg cs) ≡ last_registered cfg u d cs
unfolding get_device_functions new_memory_function_registry
after-last_registered cfg [] u d = refl
after-last_registered cfg (register now user_id device_id params ∷ cs) u d =
    rw
      (
        registered_lookup now user_id device_id params (after cfg cs) u d,
        after-config cfg cs,
        after-last_registered cfg cs u d,
      )
      refl
after-last_registered cfg (disconnect user_id device_id ∷ cs) u d =
    rw (disconnected_lookup user_id device_id (after cfg cs) u d, after-last_registered cfg cs u d)
      refl
