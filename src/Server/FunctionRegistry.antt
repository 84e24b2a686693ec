-- ===== src/Server/FunctionRegistry.antt =====
-- internal/server/function_registry.go: the functions that a user's devices declare. The mutex makes
-- each operation one step; the copies that the operations make are the values themselves.
pub mod Verdict
pub mod Lookup
pub mod Stored
pub mod Entries
use xyncra_server.Common.{
  ℕ, String, Bool, true, false, not, Option, none, some, List, [], ◌∷◌, map, str_eq, ltb,
  if◌then◌else◌, length, has, ℤ, pos, negsuc, is_nonpositive, get_key, set_key, delete_key,
}
use Prim.Native.String.{len}
use xyncra_server.Fault.{Result, ok, err, ◌>>◌}

pub record ReturnInfo : Type 0 where
  pub kind : String
  pub description : String

-- `parameters` is the JSON text of the schema.
pub record FunctionInfo : Type 0 where
  pub name : String
  pub description : String
  pub parameters : String
  pub returns : Option ReturnInfo
  pub tags : List String
  pub timeout_ms : ℤ

pub record FunctionRegistryConfig : Type 0 where
  pub max_functions_per_device : ℤ
  pub max_function_name_length : ℤ

pub record DeviceFunctions : Type 0 where
  pub user_id : String
  pub device_id : String
  pub device_info : List (String × String)
  pub functions : List FunctionInfo
  pub registered_at : ℕ

pub record RegisterFunctionsParams : Type 0 where
  pub device_id : String
  pub device_info : List (String × String)
  pub functions : List FunctionInfo

pub data RegistryError : Type 0 where
  name_empty name_too_long name_duplicate max_functions_exceeded : RegistryError

pub record MemoryFunctionRegistry : Type 0 where
  pub devices : List (String × List (String × DeviceFunctions))
  pub config : FunctionRegistryConfig

abbrev pub default_max_functions_per_device : ℤ
default_max_functions_per_device = pos 500

abbrev pub default_max_function_name_length : ℤ
default_max_function_name_length = pos 255

unfoldable pub new_memory_function_registry : FunctionRegistryConfig → MemoryFunctionRegistry
new_memory_function_registry cfg = record {
  devices = [];
  config = record {
    max_functions_per_device =
        if is_nonpositive cfg.max_functions_per_device
        then default_max_functions_per_device
        else cfg.max_functions_per_device;
    max_function_name_length =
        if is_nonpositive cfg.max_function_name_length
        then default_max_function_name_length
        else cfg.max_function_name_length;
  };
}

-- `n > limit`.
abbrev pub exceeds : ℕ → ℤ → Bool
exceeds n (pos k) = ltb k n
exceeds n (negsuc k) = true

-- The checks of the names, with those seen so far.
unfoldable pub check_names : ℤ → List String → List FunctionInfo → Result RegistryError Unit
check_names max_length seen [] = ok tt
check_names max_length seen (fn ∷ fns) =
    let rest = check_names max_length (fn.name ∷ seen) fns in
    if str_eq fn.name ""
    then err name_empty
    else if exceeds (len fn.name) max_length
    then err name_too_long
    else if has fn.name seen
    then err name_duplicate
    else rest

-- The devices of a user, none where there is no entry.
abbrev pub devices_of : String → MemoryFunctionRegistry → List (String × DeviceFunctions)
devices_of user_id r = elim (get_key user_id r.devices) [ none ↦ [] | some devices ↦ devices ]

unfoldable pub recorded :
    ℕ → String → String → RegisterFunctionsParams → MemoryFunctionRegistry → MemoryFunctionRegistry
recorded now user_id device_id params r =
    let device : DeviceFunctions = record {
      user_id = user_id;
      device_id = device_id;
      device_info = params.device_info;
      functions = params.functions;
      registered_at = now;
    } in
    record r {
      devices = set_key user_id (set_key device_id device (devices_of user_id r)) r.devices;
    }

unfoldable pub register_functions :
    ℕ
    → String
    → String
    → RegisterFunctionsParams
    → MemoryFunctionRegistry
    → Result RegistryError MemoryFunctionRegistry
unfolding check_names recorded
register_functions now user_id device_id params r =
    if exceeds (length params.functions) r.config.max_functions_per_device
    then err max_functions_exceeded
    else check_names r.config.max_function_name_length [] params.functions
      >> ok (recorded now user_id device_id params r)

unfoldable pub get_device_functions :
    String → String → MemoryFunctionRegistry → Option DeviceFunctions
get_device_functions user_id device_id r = elim (get_key user_id r.devices) [
  | none ↦ none
  | some devices ↦ get_key device_id devices
]

-- `nil` is the empty list.
unfoldable pub get_functions : String → String → MemoryFunctionRegistry → List FunctionInfo
unfolding get_device_functions
get_functions user_id device_id r = elim (get_device_functions user_id device_id r) [
  | none ↦ []
  | some device ↦ device.functions
]

abbrev pub functions_of : List (String × DeviceFunctions) → List (String × List FunctionInfo)
functions_of [] = []
functions_of ((device_id, device) ∷ devices) = (device_id, device.functions) ∷ functions_of devices

unfoldable pub get_functions_by_user :
    String → MemoryFunctionRegistry → List (String × List FunctionInfo)
get_functions_by_user user_id r = functions_of (devices_of user_id r)

-- The devices that are left, without an entry for a user who has none.
abbrev pub put_back :
    {A : Type 0}
    → String
    → List (String × A)
    → List (String × List (String × A))
    → List (String × List (String × A))
put_back user_id [] m = delete_key user_id m
put_back user_id (d ∷ ds) m = set_key user_id (d ∷ ds) m

unfoldable pub on_device_disconnect :
    String → String → MemoryFunctionRegistry → MemoryFunctionRegistry × Option DeviceFunctions
unfolding get_device_functions
on_device_disconnect user_id device_id r = elim (get_device_functions user_id device_id r) [
  | none ↦ (r, none)
  | some device ↦ (
    record r { devices = put_back user_id (delete_key device_id (devices_of user_id r)) r.devices },
    some device,
  )
]
