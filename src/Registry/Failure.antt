-- ===== src/Registry/Failure.antt =====
-- A failed operation of lib/servers/registry.js: the code of its AppError, and the field that is at
-- fault. An AppError that is thrown ends the operation.
use tmux_web_panel.Base.{Bool, true, false, Text}
use tmux_web_panel.Errors.{ErrorCode, validation_error}

pub record Failure : Type 0 where
  pub code : ErrorCode
  pub field : Text

-- What an operation comes to: an AppError that was thrown, or a value.
pub data Result {ℓ} (A : Type ℓ) : Type ℓ where
  fail : (thrown : Failure) → Result A
  ok : (value : A) → Result A

-- The next step of an operation, which an AppError skips.
infixl 5 ◌>>=◌
abbrev pub ◌>>=◌ {κ ℓ} : {B : Type κ} {A : Type ℓ} → Result B → (B → Result A) → Result A
fail thrown >>= next = fail thrown
ok value >>= next = next value

infixl 5 ◌>>◌
abbrev pub ◌>>◌ {κ} : {B : Type κ} → Result (Unit {0}) → Result B → Result B
fail thrown >> next = fail thrown
ok value >> next = next

-- `if (bad) throw fieldError(message, field)`
abbrev pub field_error {ℓ} : {A : Type ℓ} → Text → Result A
field_error field = fail (record { code = validation_error; field = field })

abbrev pub reject_if : Bool → Text → Result (Unit {0})
reject_if true field = field_error field
reject_if false field = ok tt
