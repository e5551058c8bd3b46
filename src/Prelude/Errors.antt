-- ===== src/Prelude/Errors.antt =====
-- Go's `error` values, and the results of functions that may return one or panic.
use Prim.Native.String.{String}
use mathlib.Core.Bool.{Bool, true, false}

-- What the code asks of an error besides its text: `k8errors.IsNotFound`, `IsAlreadyExists` and
-- the comparison with `CertNotReadyErr`.
pub data Reason : Type 0 where
  not_found already_exists cert_not_ready other : Reason

pub record Error : Type 0 where
  pub reason : Reason
  pub text : String

abbrev pub is_not_found : Error → Bool
is_not_found e = elim e.reason [ Reason.not_found ↦ true | _ ↦ false ]

abbrev pub is_already_exists : Error → Bool
is_already_exists e = elim e.reason [ Reason.already_exists ↦ true | _ ↦ false ]

abbrev pub is_cert_not_ready : Error → Bool
is_cert_not_ready e = elim e.reason [ Reason.cert_not_ready ↦ true | _ ↦ false ]

-- `fmt.Errorf` keeps the text alone.
abbrev pub errorf : String → Error
errorf s = record { reason = Reason.other; text = s }

pub data Result {ℓ} (A : Type ℓ) : Type ℓ where
  ok : A → Result A
  err : Error → Result A

infixl 5 ◌>>=◌
abbrev pub ◌>>=◌ {ℓ κ} : {A : Type ℓ} {B : Type κ} → Result A → (A → Result B) → Result B
ok a >>= f = f a
err e >>= f = err e
