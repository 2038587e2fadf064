-- ===== src/Exceptions.antt =====
-- exceptions.py, with the exceptions of tempest.lib and of Python that the plugin's code raises or
-- lets through. A call returns a value or raises; an action over a state also returns the state
-- that it left, whether it raised or not.
pub mod Action
use whitebox_tempest_plugin.Prelude.{◌≡◌, refl}
use whitebox_tempest_plugin.Python.Text.{Text}

pub data Error : Type 0 where
  ctrlplane_address_resolution_error : Text → Error
  missing_service_section_exception : Text → Error
  invalid_cpu_spec : Text → Error
  migration_exception : Error
  timeout_exception : Error
  ssh_exec_command_failed : Text → Error
  extra_value_found : Text → Error
  value_error attribute_error key_error index_error type_error : Error
  unbound_local_error assertion_error not_found : Error
  -- No exception of the code: a loop of the model has used up its fuel. The theorems on the loops
  -- show that this does not happen.
  no_fuel : Error

pub data Result {ℓ} (A : Type ℓ) : Type ℓ where
  ok : A → Result A
  err : Error → Result A

infixl 5 ◌>>=◌
abbrev pub ◌>>=◌ {ℓ ℓ'} : {S : Type ℓ} {T : Type ℓ'} → Result S → (S → Result T) → Result T
err error >>= next = err error
ok value >>= next = next value

-- What a chain that returned has been through.
pub returned {ℓ ℓ'} :
    {S : Type ℓ} {T : Type ℓ'} (step : Result S) {next : S → Result T} {result : T}
    → (step >>= next) ≡ ok result
    → (value : S) × (step ≡ ok value) × (next value ≡ ok result)
returned (err error) p = cc
returned (ok value) p = (value, refl, p)
