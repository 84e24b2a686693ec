-- ===== src/Server/FunctionRegistry/Lookup.antt =====
-- internal/server/function_registry.go: what a call does to the answers of `GetDeviceFunctions`.
use xyncra_server.Common.{
  arith, and_left, and_right, ℕ, ◌≡◌, refl, ap, sym, inl, inr, String, Bool, true, false, ◌&&◌,
  none, some, List, [], ◌∷◌, str_eq, eq_iff, Bool-cases, Option-cases, if◌then◌else◌, length,
  get_key, set_key, delete_key, get_key-set_key, get_key-set_key_other, get_key-delete_key,
  get_key-delete_key_other, get_key-set_key_all, get_key-delete_key_all,
}
use xyncra_server.Fault.{Result, ok, err}
use xyncra_server.Server.FunctionRegistry.{
  FunctionInfo, FunctionRegistryConfig, DeviceFunctions, RegisterFunctionsParams, RegistryError,
  MemoryFunctionRegistry, exceeds, check_names, devices_of, recorded, register_functions,
  get_device_functions, put_back, on_device_disconnect,
}

abbrev pub kept :
    MemoryFunctionRegistry → Result RegistryError MemoryFunctionRegistry → MemoryFunctionRegistry
kept r (ok r') = r'
kept r (err e) = r

abbrev pub is_ok : {A : Type 0} → Result RegistryError A → Bool
is_ok (ok a) = true
is_ok (err e) = false

abbrev pub device : ℕ → String → String → RegisterFunctionsParams → DeviceFunctions
device now user_id device_id params = record {
  user_id = user_id;
  device_id = device_id;
  device_info = params.device_info;
  functions = params.functions;
  registered_at = now;
}

-- Whether a registration is accepted.
abbrev pub accepts : FunctionRegistryConfig → List FunctionInfo → Bool
accepts cfg fns =
    if exceeds (length fns) cfg.max_functions_per_device
    then false
    else is_ok (check_names cfg.max_function_name_length [] fns)

lookup_lem :
    (u d : String) (r : MemoryFunctionRegistry)
    → get_device_functions u d r ≡ get_key d (devices_of u r)
unfolding get_device_functions
lookup_lem u d r = elim (Option-cases (get_key u r.devices)) [
  | inl nothing ↦ rw (get_device_functions, devices_of, nothing) refl
  | inr (ds, found) ↦ rw (get_device_functions, devices_of, found) refl
]

-- The devices of a user after those of one have changed.
module _ (u : String) (ds : List (String × DeviceFunctions)) (r : MemoryFunctionRegistry) where
  devices_of_set : devices_of u (record r { devices = set_key u ds r.devices }) ≡ ds
  devices_of_set = rw (devices_of, get_key-set_key u ds r.devices) refl

  devices_of_set_other :
      (u' : String)
      → str_eq u' u ≡ false
      → devices_of u' (record r { devices = set_key u ds r.devices }) ≡ devices_of u' r
  devices_of_set_other u' h = rw (devices_of, get_key-set_key_other u' u ds r.devices h) refl

devices_of-put_back :
    (u : String) (ds : List (String × DeviceFunctions)) (r : MemoryFunctionRegistry)
    → devices_of u (record r { devices = put_back u ds r.devices }) ≡ ds
devices_of-put_back u [] r = rw (devices_of, get_key-delete_key u r.devices) refl
devices_of-put_back u (d ∷ ds) r = devices_of_set u (d ∷ ds) r

devices_of-put_back_other :
    (u u' : String) (ds : List (String × DeviceFunctions)) (r : MemoryFunctionRegistry)
    → str_eq u' u ≡ false
    → devices_of u' (record r { devices = put_back u ds r.devices }) ≡ devices_of u' r
devices_of-put_back_other u u' [] r h =
    rw (devices_of, get_key-delete_key_other u' u r.devices h) refl
devices_of-put_back_other u u' (d ∷ ds) r h = devices_of_set_other u (d ∷ ds) r u' h

module _ (now : ℕ) (u d : String) (params : RegisterFunctionsParams)
    (r : MemoryFunctionRegistry) where
  recorded_lookup :
      (u' d' : String)
      → get_device_functions u' d' (recorded now u d params r) ≡ (
          if str_eq u' u && str_eq d' d
          then some (device now u d params)
          else get_device_functions u' d' r)
  unfolding recorded
  recorded_lookup u' d' =
      let dev = device now u d params in
      let ds = set_key d dev (devices_of u r) in
      rw (lookup_lem u' d' (recorded now u d params r), lookup_lem u' d' r)
        (elim (Bool-cases (str_eq u' u)) [
          | inr apart ↦ rw (apart, devices_of_set_other u ds r u' apart) refl
          | inl same ↦
              rw (same, (eq_iff u' u).0 same, devices_of_set u ds r)
                (get_key-set_key_all d' d dev (devices_of u r))
        ])

  pub kept-accepts :
      kept r (register_functions now u d params r)
      ≡ (if accepts r.config params.functions then recorded now u d params r else r)
  unfolding register_functions
  kept-accepts =
      elim (Bool-cases (exceeds (length params.functions) r.config.max_functions_per_device)) [
        | inl many ↦ rw (register_functions, many) refl
        | inr few ↦ go (check_names r.config.max_function_name_length [] params.functions) few refl
      ]
    where
      go :
          (c : Result RegistryError Unit)
          → exceeds (length params.functions) r.config.max_functions_per_device ≡ false
          → check_names r.config.max_function_name_length [] params.functions ≡ c
          → kept r (register_functions now u d params r)
            ≡ (if accepts r.config params.functions then recorded now u d params r else r)
      go (ok x) few checks = rw (register_functions, few, checks) refl
      go (err e) few checks = rw (register_functions, few, checks) refl

  pub registered_lookup :
      (u' d' : String)
      → get_device_functions u' d' (kept r (register_functions now u d params r)) ≡ (
          if (str_eq u' u && str_eq d' d) && accepts r.config params.functions
          then some (device now u d params)
          else get_device_functions u' d' r)
  registered_lookup u' d' = elim (Bool-cases (accepts r.config params.functions)) [
    | inl accepted ↦
        rw (kept-accepts, accepted, recorded_lookup u' d')
          (ap (λ b. if b then some (device now u d params) else get_device_functions u' d' r)
            (and_true (str_eq u' u && str_eq d' d)))
    | inr refused ↦
        rw (kept-accepts, refused)
          (ap (λ b. if b then some (device now u d params) else get_device_functions u' d' r)
            (sym (and_false (str_eq u' u && str_eq d' d))))
  ]
    where
      and_true : (b : Bool) → b ≡ (b && true)
      and_true b = ground arith

      and_false : (b : Bool) → (b && false) ≡ false
      and_false b = ground arith

  pub registered-config : (kept r (register_functions now u d params r)).config ≡ r.config
  unfolding recorded
  registered-config = elim (Bool-cases (accepts r.config params.functions)) [
    | inl accepted ↦ rw (kept-accepts, accepted) refl
    | inr refused ↦ rw (kept-accepts, refused) refl
  ]

module _ (u d : String) (r : MemoryFunctionRegistry) where
  pub disconnected_lookup :
      (u' d' : String)
      → get_device_functions u' d' (on_device_disconnect u d r).0
        ≡ (if str_eq u' u && str_eq d' d then none else get_device_functions u' d' r)
  unfolding on_device_disconnect
  disconnected_lookup u' d' = elim (Option-cases (get_device_functions u d r)) [
    | inl nothing ↦ rw (on_device_disconnect, nothing) (stays nothing)
    | inr (dev, found) ↦
        let ds = delete_key d (devices_of u r) in
        let r' = record r { devices = put_back u ds r.devices } in
        rw (on_device_disconnect, found, lookup_lem u' d' r', lookup_lem u' d' r)
          (elim (Bool-cases (str_eq u' u)) [
            | inr apart ↦ rw (apart, devices_of-put_back_other u u' ds r apart) refl
            | inl same ↦
                rw (same, (eq_iff u' u).0 same, devices_of-put_back u ds r)
                  (get_key-delete_key_all d' d (devices_of u r))
          ])
  ]
    where
      same_lookup :
          get_device_functions u d r ≡ none → u' ≡ u → d' ≡ d → get_device_functions u' d' r ≡ none
      same_lookup nothing p q = rw (p, q) nothing

      stays :
          get_device_functions u d r ≡ none
          → get_device_functions u' d' r
            ≡ (if str_eq u' u && str_eq d' d then none else get_device_functions u' d' r)
      stays nothing = elim (Bool-cases (str_eq u' u && str_eq d' d)) [
        | inl same ↦ rw same (
            same_lookup nothing ((eq_iff u' u).0 (and_left (str_eq u' u) (str_eq d' d) same))
              ((eq_iff d' d).0 (and_right (str_eq u' u) (str_eq d' d) same)))
        | inr other ↦ rw other refl
      ]

  pub disconnected-config : (on_device_disconnect u d r).0.config ≡ r.config
  unfolding on_device_disconnect
  disconnected-config = elim (Option-cases (get_device_functions u d r)) [
    | inl nothing ↦ rw (on_device_disconnect, nothing) refl
    | inr (dev, found) ↦ rw (on_device_disconnect, found) refl
  ]
