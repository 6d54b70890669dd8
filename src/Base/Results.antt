-- ===== src/Base/Results.antt =====
-- The exceptions that the modelled code raises, and results that may be one.
use Prim.Native.String.{String}
use mathlib.Core.Bool.{Bool, true, false}

pub data Error : Type 0 where
  value_error : Error  -- ValueError
  lookup_error : Error  -- LookupError
  conflict : Error  -- AgentRuntimeRecordConflictError and the conflict errors of other components
  integrity : Error  -- a UNIQUE constraint of the database
  runtime_error : Error  -- RuntimeError
  closed : Error  -- HarnessAdmissionClosedError
  mapping : String → Error  -- ProviderJobMappingError, with its `reason_code`
  external : Error  -- any other exception of a service that the code calls

pub data Result {ℓ} (A : Type ℓ) : Type ℓ where
  ok : A → Result A
  err : Error → Result A

-- `if not test: raise e`
abbrev pub guard : Bool → Error → Result (Unit {0})
guard false e = err e
guard true e = ok tt

module _ {ℓ κ} {A : Type ℓ} {B : Type κ} where
  infixl 5 ◌>>=◌
  -- An exception ends the method.
  abbrev pub ◌>>=◌ : Result A → (A → Result B) → Result B
  err e >>= k = err e
  ok a >>= k = k a

infixl 5 ◌>>◌
abbrev pub ◌>>◌ {ℓ} : {B : Type ℓ} → Result (Unit {0}) → Result B → Result B
err e >> rest = err e
ok done >> rest = rest
