-- ===== src/Results.antt =====
-- include/common/ResultOrError.hpp and include/common/Error.h: the error payload and `Roe`. A use of `value()` on an error throws; `none` stands for the exception.
use Prim.Native.Char.{code}
use Prim.Native.String.{String}
use pp_cpp_common.Common.{Bool, Bytes, Option, [], false, none, some, true, ◌∷◌}
use pp_cpp_common.Common.Int.{negsuc, pos, ℤ}

-- `code` and `category` are int32_t.
pub record Error : Type 0 where
  pub code : ℤ
  pub category : ℤ
  pub message : Bytes
  pub user : Bytes

-- `Error(msg)`, `Error(c, msg)`, `Error::Make` and `WithUser`.
abbrev pub error_of : Bytes → Error
error_of message = record { code = negsuc 0; category = pos 0; message = message; user = [] }

abbrev pub error_of_code : ℤ → Bytes → Error
error_of_code code message = record { code = code; category = pos 0; message = message; user = [] }

abbrev pub make_error : ℤ → ℤ → Bytes → Error
make_error category code detail = record {
  code = code;
  category = category;
  message = detail;
  user = [];
}

abbrev pub with_user : Error → Bytes → Error
with_user e text = record e { user = text }

pub data ResultOrError {ℓ κ} (A : Type ℓ) (E : Type κ) : Type (ℓ ⊔ κ) where
  ok : A → ResultOrError A E
  err : E → ResultOrError A E

abbrev pub Roe {ℓ} : Type ℓ → Type ℓ
Roe A = ResultOrError A Error

module _ {ℓ κ} {A : Type ℓ} {E : Type κ} where
  abbrev pub is_ok : ResultOrError A E → Bool
  is_ok (ok a) = true
  is_ok (err e) = false

  abbrev pub value : ResultOrError A E → Option A
  value (ok a) = some a
  value (err e) = none

  abbrev pub error : ResultOrError A E → Option E
  error (ok a) = none
  error (err e) = some e

  abbrev pub value_or : ResultOrError A E → A → A
  value_or (ok a) d = a
  value_or (err e) d = d

-- The bytes of an ASCII literal.
abbrev pub ascii : String → Bytes
ascii String.[] = []
ascii (String.◌∷◌ c s) = code c ∷ ascii s
