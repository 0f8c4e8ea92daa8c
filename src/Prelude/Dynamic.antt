-- ===== src/Prelude/Dynamic.antt =====
-- Values of the dynamic language, as far as the program's checks tell them apart.
use Prim.Native.Nat.{ℕ}
use mathlib.Core.Bool.{Bool}
use usshtc.Prelude.Text.{Text}

-- `negsuc n` is -(n + 1).
pub data ℤ : Type 0 where
  pos : ℕ → ℤ
  negsuc : ℕ → ℤ

-- `fraction` is any number that is no integer, NaN and the infinities included; `object` is any
-- value of the types that no check of the program accepts.
pub data Value : Type 0 where
  undefined null fraction object : Value
  boolean : Bool → Value
  integer : ℤ → Value
  string : Text → Value

-- `Number.MAX_SAFE_INTEGER`.
abbrev pub max_safe_integer : ℕ
max_safe_integer = 9007199254740991
