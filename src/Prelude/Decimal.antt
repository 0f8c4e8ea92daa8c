-- ===== src/Prelude/Decimal.antt =====
-- Decimal and octal numerals: `String(n)`, and `Number(text)` of a text of digits, which is exact
-- here. A value above `Number.MAX_SAFE_INTEGER` stays above it when the language rounds it.
use Prim.Native.Nat.{ℕ, zero, suc, ◌+◌, ◌-◌, ◌*◌, ◌/◌, ◌%◌, ◌≤◌}
use mathlib.Core.Path.{◌≡◌, refl, ◌∙◌, ap}
use mathlib.Core.Logic.{inl, inr}
use mathlib.Core.Bool.{Bool, true, false, ◌&&◌}
use mathlib.Core.List.{[], ◌∷◌}
use native.Mathlib.Omega.{arith}
use usshtc.Prelude.Tests.{ltb, leb, if◌then◌else◌, Bool-cases}
use usshtc.Prelude.Lists.{all}
use usshtc.Prelude.Text.{Text, is_empty}

abbrev pub is_digit : ℕ → Bool
is_digit c = leb b'0' c && leb c b'9'

-- The digits of a number before those that are known, for a fuel of at least the number.
digits_before : ℕ → ℕ → Text → Text
digits_before zero n known = (b'0' + n % 10) ∷ known
digits_before (suc fuel) n known =
    let more = digits_before fuel (n / 10) ((b'0' + n % 10) ∷ known) in
    if ltb n 10 then (b'0' + n) ∷ known else more

unfoldable pub decimal : ℕ → Text
unfolding digits_before
decimal n = digits_before n n []

unfoldable pub value_from : ℕ → Text → ℕ
value_from n [] = n
value_from n (c ∷ digits) = value_from (n * 10 + (c - b'0')) digits

digits_before-value :
    (fuel n : ℕ) (known : Text)
    → n ≤ fuel
    → value_from 0 (digits_before fuel n known) ≡ value_from n known
unfolding digits_before value_from
digits_before-value zero n known h = ground arith
digits_before-value (suc fuel) n known h = elim (Bool-cases (ltb n 10)) [
  | inl e ↦ rw e (ground arith)
  | inr e ↦ rw e (
      digits_before-value fuel (n / 10) ((b'0' + n % 10) ∷ known) (ground arith)
      ∙ ap (λ (m : ℕ). value_from m known) (last n))
]
  where
    last : (n : ℕ) → n / 10 * 10 + (b'0' + n % 10 - b'0') ≡ n
    last n = omega arith

digits_before-digits :
    (fuel n : ℕ) (known : Text)
    → n ≤ fuel
    → all is_digit known ≡ true
    → all is_digit (digits_before fuel n known) ≡ true
unfolding digits_before
digits_before-digits zero n known h k = ground arith
digits_before-digits (suc fuel) n known h k = elim (Bool-cases (ltb n 10)) [
  | inl e ↦ rw e (ground arith)
  | inr e ↦
      rw e
        (digits_before-digits fuel (n / 10) ((b'0' + n % 10) ∷ known) (ground arith) (ground arith))
]

digits_before-not_empty :
    (fuel n : ℕ) (known : Text) → is_empty (digits_before fuel n known) ≡ false
unfolding digits_before
digits_before-not_empty zero n known = refl
digits_before-not_empty (suc fuel) n known =
    ground (arith, digits_before-not_empty fuel (n / 10) ((b'0' + n % 10) ∷ known))

pub value-decimal : (n : ℕ) → value_from 0 (decimal n) ≡ n
unfolding decimal
value-decimal n = digits_before-value n n [] (omega arith) ∙ unfold value_from in refl

pub digits-decimal : (n : ℕ) → all is_digit (decimal n) ≡ true
unfolding decimal
digits-decimal n = digits_before-digits n n [] (omega arith) refl

pub decimal-not_empty : (n : ℕ) → is_empty (decimal n) ≡ false
unfolding decimal
decimal-not_empty n = digits_before-not_empty n n []
