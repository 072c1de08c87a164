-- ===== src/Base/Decimal.antt =====
-- The decimal text of a number is read back as that number, so two numbers have different texts.
use Prim.Native.Nat.{ℕ, zero, suc, ◌+◌, ◌-◌, ◌*◌, ◌/◌, ◌%◌, ◌<◌}
use mathlib.Core.Path.{◌≡◌, sym, ap, ◌∙◌}
use mathlib.Core.Logic.{inl, inr}
use mathlib.Core.List.{[], ◌∷◌}
use native.Mathlib.Omega.{arith}
use tmux_web_panel.Base.Tests.{ltb, Bool-cases}
use tmux_web_panel.Base.Equality.{Text}
use tmux_web_panel.Base.Texts.{digits, decimal, value_from}

value_from-digits :
    (fuel n : ℕ) (acc : Text) → n < fuel → value_from 0 (digits fuel n acc) ≡ value_from n acc
unfolding digits
value_from-digits zero n acc h = ground arith
value_from-digits (suc fuel) n acc h = elim (Bool-cases (ltb n 10)) [
  | inl e ↦
      let one : digits (suc fuel) n acc ≡ (48 + n) ∷ acc = ground (arith, e) in
      let same : 0 * 10 + ((48 + n) - 48) ≡ n = omega arith in
      ap (value_from 0) one ∙ ap (λ v. value_from v acc) same
  | inr e ↦
      let one : digits (suc fuel) n acc ≡ digits fuel (n / 10) ((48 + n % 10) ∷ acc) =
        ground (arith, e) in
      let same : (n / 10) * 10 + ((48 + n % 10) - 48) ≡ n = omega arith in
      ap (value_from 0) one
      ∙ value_from-digits fuel (n / 10) ((48 + n % 10) ∷ acc) (ground (arith, e))
      ∙ ap (λ v. value_from v acc) same
]

pub value_from-decimal : (n : ℕ) → value_from 0 (decimal n) ≡ n
unfolding decimal
value_from-decimal n = value_from-digits (n + 1) n [] (omega arith)

pub decimal_injective : (m n : ℕ) → decimal m ≡ decimal n → m ≡ n
decimal_injective m n h = sym (value_from-decimal m) ∙ ap (value_from 0) h ∙ value_from-decimal n
