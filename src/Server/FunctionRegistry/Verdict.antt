-- ===== src/Server/FunctionRegistry/Verdict.antt =====
-- internal/server/function_registry.go: which registrations are accepted.
use xyncra_server.Common.{
  ℕ, ◌≡◌, ◌⊎◌, refl, inl, inr, String, true, false, List, [], ◌∷◌, str_eq, length, has, In, All,
  NoDup, ℤ, arith, eq_iff, Bool-cases,
}
use Prim.Native.String.{len}
use xyncra_server.Fault.{Result, ok, err}
use xyncra_server.Server.FunctionRegistry.{
  FunctionInfo, FunctionRegistryConfig, RegisterFunctionsParams, RegistryError, name_empty,
  name_too_long, name_duplicate, max_functions_exceeded, MemoryFunctionRegistry, exceeds,
  check_names, recorded, register_functions,
}

abbrev pub names : List FunctionInfo → List String
names [] = []
names (fn ∷ fns) = fn.name ∷ names fns

abbrev pub IsName : ℤ → String → Type 0
IsName max_length name = (str_eq name "" ≡ false) × (exceeds (len name) max_length ≡ false)

-- A registration as it should be: not too many functions, each with a name within the limit, none twice.
pub record IsAcceptable (cfg : FunctionRegistryConfig) (fns : List FunctionInfo) : Type 0 where
  pub few : exceeds (length fns) cfg.max_functions_per_device ≡ false
  pub named : All (λ fn. IsName cfg.max_function_name_length fn.name) fns
  pub distinct : NoDup (names fns)

-- What an error says of a registration.
abbrev pub Reason : FunctionRegistryConfig → List FunctionInfo → RegistryError → Type 0
Reason cfg fns name_empty = (fn : FunctionInfo) × In fn fns × (fn.name ≡ "")
Reason cfg fns name_too_long =
    (fn : FunctionInfo) × In fn fns × (exceeds (len fn.name) cfg.max_function_name_length ≡ true)
Reason cfg fns name_duplicate = ¬ NoDup (names fns)
Reason cfg fns max_functions_exceeded = exceeds (length fns) cfg.max_functions_per_device ≡ true

abbrev Fresh : List String → List FunctionInfo → Type 0
Fresh seen fns = All (λ fn. has fn.name seen ≡ false) fns

abbrev Named : ℤ → List FunctionInfo → Type 0
Named max_length fns = All (λ fn. IsName max_length fn.name) fns

has-names :
    (x : String) (seen : List String) (fns : List FunctionInfo)
    → Fresh (x ∷ seen) fns
    → has x (names fns) ≡ false
has-names x seen [] h = refl
has-names x seen (fn ∷ fns) h =
    ground (arith, eq_iff x fn.name, eq_iff fn.name x, has-names x seen fns h.1)

unseen_before :
    (x : String) (seen : List String) (fns : List FunctionInfo)
    → Fresh (x ∷ seen) fns
    → Fresh seen fns
unseen_before x seen [] h = tt
unseen_before x seen (fn ∷ fns) h = (ground arith, unseen_before x seen fns h.1)

unseen_after :
    (x : String) (seen : List String) (fns : List FunctionInfo)
    → has x (names fns) ≡ false
    → Fresh seen fns
    → Fresh (x ∷ seen) fns
unseen_after x seen [] h k = tt
unseen_after x seen (fn ∷ fns) h k =
    (ground (arith, eq_iff x fn.name, eq_iff fn.name x), unseen_after x seen fns (ground arith) k.1)

-- The result of the checks, with the names seen before.
abbrev Checked : ℤ → List String → List FunctionInfo → Result RegistryError Unit → Type 0
Checked max_length seen fns (ok u) = Named max_length fns × Fresh seen fns × NoDup (names fns)
Checked max_length seen fns (err name_empty) = (fn : FunctionInfo) × In fn fns × (fn.name ≡ "")
Checked max_length seen fns (err name_too_long) =
    (fn : FunctionInfo) × In fn fns × (exceeds (len fn.name) max_length ≡ true)
Checked max_length seen fns (err name_duplicate) = ¬ (Fresh seen fns × NoDup (names fns))
Checked max_length seen fns (err max_functions_exceeded) = ⊥

check_names-Checked :
    (max_length : ℤ) (seen : List String) (fns : List FunctionInfo)
    → Checked max_length seen fns (check_names max_length seen fns)
unfolding check_names
check_names-Checked max_length seen [] = (tt, tt, tt)
check_names-Checked max_length seen (fn ∷ fns) = elim (Bool-cases (str_eq fn.name "")) [
  | inl empty ↦ rw (check_names, empty) (fn, inl refl, (eq_iff fn.name "").0 empty)
  | inr given ↦ elim (Bool-cases (exceeds (len fn.name) max_length)) [
    | inl long ↦ rw (check_names, given, long) (fn, inl refl, long)
    | inr short ↦ elim (Bool-cases (has fn.name seen)) [
      | inl again ↦ rw (check_names, given, short, again) (λ h. cc (h.0.0, again))
      | inr new ↦
          rw (check_names, given, short, new)
            (grown (check_names max_length (fn.name ∷ seen) fns) given short new
              (check_names-Checked max_length (fn.name ∷ seen) fns))
    ]
  ]
]
  where
    grown :
        (r : Result RegistryError Unit)
        → str_eq fn.name "" ≡ false
        → exceeds (len fn.name) max_length ≡ false
        → has fn.name seen ≡ false
        → Checked max_length (fn.name ∷ seen) fns r
        → Checked max_length seen (fn ∷ fns) r
    grown (ok u) given short new (named, fresh, distinct) = (
      ((given, short), named),
      (new, unseen_before fn.name seen fns fresh),
      (has-names fn.name seen fns fresh, distinct),
    )
    grown (err name_empty) given short new (x, m, h) = (x, inr m, h)
    grown (err name_too_long) given short new (x, m, h) = (x, inr m, h)
    grown (err name_duplicate) given short new h =
        λ k. h (unseen_after fn.name seen fns k.1.0 k.0.1, k.1.1)
    grown (err max_functions_exceeded) given short new h = h

unseen_nothing : (fns : List FunctionInfo) → Fresh [] fns
unseen_nothing [] = tt
unseen_nothing (fn ∷ fns) = (refl, unseen_nothing fns)

-- RegisterFunctions of any parameters at any registry: either the registration is acceptable, as an
-- independent description has it, and the registry with the device's record is the result; or it
-- is refused with an error that is true of it, and the registry stays.
pub register_functions-Verdict :
    (now : ℕ) (user_id device_id : String) (params : RegisterFunctionsParams)
    (r : MemoryFunctionRegistry)
    → (IsAcceptable r.config params.functions
        × (register_functions now user_id device_id params r
            ≡ ok (recorded now user_id device_id params r)))
      ⊎ ((e : RegistryError) × Reason r.config params.functions e
          × (register_functions now user_id device_id params r ≡ err e))
unfolding register_functions
register_functions-Verdict now user_id device_id params r =
    elim (Bool-cases (exceeds (length params.functions) r.config.max_functions_per_device)) [
      | inl many ↦ inr (max_functions_exceeded, many, rw many refl)
      | inr few ↦
          go (check_names r.config.max_function_name_length [] params.functions) few refl
            (check_names-Checked r.config.max_function_name_length [] params.functions)
    ]
  where
    go :
        (c : Result RegistryError Unit)
        → exceeds (length params.functions) r.config.max_functions_per_device ≡ false
        → check_names r.config.max_function_name_length [] params.functions ≡ c
        → Checked r.config.max_function_name_length [] params.functions c
        → (IsAcceptable r.config params.functions
            × (register_functions now user_id device_id params r
                ≡ ok (recorded now user_id device_id params r)))
          ⊎ ((e : RegistryError) × Reason r.config params.functions e
              × (register_functions now user_id device_id params r ≡ err e))
    go (ok u) few checks (named, fresh, distinct) = inl (
      record { few = few; named = named; distinct = distinct },
      rw (register_functions, few, checks) refl,
    )
    go (err name_empty) few checks h =
        inr (name_empty, h, rw (register_functions, few, checks) refl)
    go (err name_too_long) few checks h =
        inr (name_too_long, h, rw (register_functions, few, checks) refl)
    go (err name_duplicate) few checks h = inr (
      name_duplicate,
      λ distinct. h (unseen_nothing params.functions, distinct),
      rw (register_functions, few, checks) refl,
    )
    go (err max_functions_exceeded) few checks h = absurd h
