-- ===== src/Prelude/Effects.antt =====
-- What a C++ call comes to: a value, a thrown `Gamnet::Exception`, or undefined behaviour.
use mathlib.Core.Path.{◌≡◌}

-- The codes that the modelled code throws: values of `ErrorCode`, one level of the
-- log, and the error of boost.
pub data Error : Type 0 where
  buffer_overflow_error message_format_error invalid_address_error : Error
  connect_timeout_error invalid_session_token_error invalid_key_error : Error
  null_pointer_error undefined_error overflow_error underflow_error success : Error
  not_initialized_error log_level_err invalid_array_range_error : Error
  connect_fail_error system_error create_directory_fail_error : Error

-- `fault` is a memory access that C++ leaves undefined.
pub data Outcome {ℓ} (A : Type ℓ) : Type ℓ where
  fault : Outcome A
  throw : Error → Outcome A
  ok : A → Outcome A

-- The next statement runs on the value of the one before it.
infixl 5 ◌>>=◌
abbrev pub ◌>>=◌ {ℓ κ} : {T : Type ℓ} {U : Type κ} → Outcome T → (T → Outcome U) → Outcome U
fault >>= next = fault
throw error >>= next = throw error
ok value >>= next = next value

pub ok_value {ℓ} : {T : Type ℓ} {t u : T} → ok t ≡ ok u → t ≡ u
ok_value e = cc
