-- ===== src/Prelude/Results.antt =====
-- What a call ends with: a value, a `types::Error`, or an exception of another type, which the
-- handlers of `types::Error` let pass.
use mathlib.Core.Bool.{Bool, true, false}
use deals_server.Prelude.Bytes.{Text}

-- src/types.hpp, ErrorCode.
pub data ErrorCode : Type 0 where
  bad_parameter internal_error : ErrorCode

-- src/types.hpp, Error.
pub record Error : Type 0 where
  pub message : Text
  pub error_code : ErrorCode

pub data Outcome {ℓ} (A : Type ℓ) : Type ℓ where
  ok : A → Outcome A
  err : Error → Outcome A
  foreign : Outcome A

-- An error with the default code.
abbrev pub bad : Text → Error
bad t = record { message = t; error_code = bad_parameter }

abbrev pub internal : Text → Error
internal t = record { message = t; error_code = internal_error }

infixl 5 ◌>>=◌ ◌>>◌
-- What follows runs on a value only.
abbrev pub ◌>>=◌ {ℓ κ} : {X : Type ℓ} {Y : Type κ} → Outcome X → (X → Outcome Y) → Outcome Y
foreign >>= next = foreign
err thrown >>= next = err thrown
ok value >>= next = next value

abbrev pub ◌>>◌ {κ} : {B : Type κ} → Outcome (Unit {0}) → Outcome B → Outcome B
checked >> next = checked >>= λ _. next

-- `if (test) throw e;`
abbrev pub throw_if : Bool → Error → Outcome (Unit {0})
throw_if true e = err e
throw_if false e = ok tt
