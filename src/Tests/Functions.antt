-- ===== src/Tests/Functions.antt =====
-- A device that registers two functions and one that leaves.
use xyncra_server.Common.{◌≡◌, ◌⊎◌, String, none, some, List, [], ◌∷◌, pos}
use xyncra_server.Fault.{ok, err}
use xyncra_server.Server.FunctionRegistry.{
  FunctionInfo, FunctionRegistryConfig, RegisterFunctionsParams, RegistryError,
  MemoryFunctionRegistry, new_memory_function_registry, check_names, recorded, register_functions,
  get_device_functions,
}
use xyncra_server.Server.FunctionRegistry.Verdict.{IsAcceptable, Reason, register_functions-Verdict}
use xyncra_server.Server.FunctionRegistry.Lookup.{device}
use xyncra_server.Server.FunctionRegistry.Stored.{
  Call, register, disconnect, after, after-last_registered,
}
use xyncra_server.Server.FunctionRegistry.Entries.{NoneEmpty, after-NoneEmpty}

abbrev function : String → FunctionInfo
function name = record {
  name = name;
  description = "";
  parameters = "";
  returns = none;
  tags = [];
  timeout_ms = pos 0;
}

abbrev params : RegisterFunctionsParams
params = record {
  device_id = "phone";
  device_info = [];
  functions = function "ring" ∷ function "light" ∷ [];
}

abbrev cfg : FunctionRegistryConfig
cfg = record { max_functions_per_device = pos 2; max_function_name_length = pos 0 }

abbrev start : MemoryFunctionRegistry
start = new_memory_function_registry cfg

register_functions-Verdict_example :
    (IsAcceptable start.config params.functions
      × (register_functions 4 "ann" "phone" params start
          ≡ ok (recorded 4 "ann" "phone" params start)))
    ⊎ ((e : RegistryError) × Reason start.config params.functions e
        × (register_functions 4 "ann" "phone" params start ≡ err e))
register_functions-Verdict_example = register_functions-Verdict 4 "ann" "phone" params start

abbrev calls : List Call
calls =
    disconnect "ann" "tablet"
    ∷ register 4 "ann" "phone" params
    ∷ register 3 "ann" "tablet" params
    ∷ []

after-last_registered_example :
    get_device_functions "ann" "phone" (after cfg calls) ≡ some (device 4 "ann" "phone" params)
unfolding new_memory_function_registry check_names
after-last_registered_example = after-last_registered cfg calls "ann" "phone"

after-NoneEmpty_example : NoneEmpty (after cfg calls).devices
after-NoneEmpty_example = after-NoneEmpty cfg calls
