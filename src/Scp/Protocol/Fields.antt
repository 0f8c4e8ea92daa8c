-- ===== src/Scp/Protocol/Fields.antt =====
-- The fields of a line that electron/scp/protocol.js writes: its patterns find them again, and the
-- line is plain text.
use usshtc.Prelude.{
  ℕ, ◌≤◌, ◌≡◌, refl, ap, ◌∙◌, Bool, true, false, not, [], ◌∷◌, ◌++◌, Option, none, some,
  if◌then◌else◌, ltb, any, all, arith, any-append, All, append-nil,
}
use usshtc.Prelude.Text.{Text, is_empty, has_control, is_control, is_well_formed, ascii-well_formed}
use usshtc.Prelude.Decimal.{
  is_digit, decimal, value_from, value-decimal, digits-decimal, decimal-not_empty,
}
use usshtc.Scp.Protocol.Lines.{
  is_line_end, split_digits, number_of, number_field, last_number, mode_field, entry_match,
  time_match, octal, space,
}
use usshtc.Prelude.Utf8.{IsUnit}

-- `split_digits` finds the digits before a space.
split_digits-space :
    (digits rest : Text)
    → all is_digit digits ≡ true
    → split_digits (digits ++ b' ' ∷ rest) ≡ (digits, b' ' ∷ rest)
unfolding split_digits
split_digits-space [] rest h = refl
split_digits-space (c ∷ digits) rest h = ground (arith, split_digits-space digits rest)

number_of-space :
    (digits rest : Text)
    → is_empty digits ≡ false
    → number_of digits (b' ' ∷ rest) ≡ some (value_from 0 digits, rest)
unfolding number_of
number_of-space [] rest h = cc
number_of-space (c ∷ digits) rest h = refl

number_field-decimal :
    (n : ℕ) (rest : Text) → number_field (decimal n ++ b' ' ∷ rest) ≡ some (n, rest)
unfolding number_field
number_field-decimal n rest =
    let e = split_digits-space (decimal n) rest (digits-decimal n) in
    rw e (
      number_of-space (decimal n) rest (decimal-not_empty n)
      ∙ ap (λ (m : ℕ). some (m, rest)) (value-decimal n))

last_number-decimal : (n : ℕ) → last_number (decimal n) ≡ some n
unfolding last_number
last_number-decimal n = rw (digits-decimal n, decimal-not_empty n) (ap some (value-decimal n))

mode_field-octal :
    (m : ℕ) (rest : Text) → m ≤ 4095 → mode_field (octal m ++ b' ' ∷ rest) ≡ some (m, rest)
unfolding mode_field octal
mode_field-octal m rest h = ground arith

-- The three fields of an entry, if its name is one that the pattern matches.
abbrev pub unless_line_end : ℕ → ℕ → Text → Bool → Option (ℕ × ℕ × Text)
unless_line_end m n name true = none
unless_line_end m n name false = some (m, n, name)

pub entry_match-print :
    (m n : ℕ) (name : Text)
    → m ≤ 4095
    → is_empty name ≡ false
    → entry_match (space (octal m) (space (decimal n) name))
      ≡ unless_line_end m n name (any is_line_end name)
unfolding entry_match
entry_match-print m n name h e =
    rw (mode_field-octal m (space (decimal n) name) h, number_field-decimal n name, e)
      (turned (any is_line_end name))
  where
    turned :
        (test : Bool)
        → if◌then◌else◌ {A = Option (ℕ × ℕ × Text)} (not test) (some (m, n, name)) none
          ≡ unless_line_end m n name test
    turned true = refl
    turned false = refl

pub time_match-print :
    (a b c d : ℕ)
    → time_match (space (decimal a) (space (decimal b) (space (decimal c) (decimal d))))
      ≡ some (a, b, c, d)
unfolding time_match
time_match-print a b c d =
    rw (
      number_field-decimal a,
      number_field-decimal b,
      number_field-decimal c,
      last_number-decimal d,
    )

digits-no_control : (s : Text) → all is_digit s ≡ true → has_control s ≡ false
digits-no_control [] h = refl
digits-no_control (c ∷ s) h = ground (arith, digits-no_control s)

space-no_control :
    (s t : Text) → has_control s ≡ false → has_control t ≡ false → has_control (space s t) ≡ false
space-no_control s t h k = ground (arith, any-append is_control s (b' ' ∷ t))

pub octal-no_control : (m : ℕ) → has_control (octal m) ≡ false
unfolding octal
octal-no_control m = ground arith

pub decimal-no_control : (n : ℕ) → has_control (decimal n) ≡ false
decimal-no_control n = digits-no_control (decimal n) (digits-decimal n)

abbrev is_ascii : ℕ → Bool
is_ascii c = ltb c 0x80

digits-ascii : (s : Text) → all is_digit s ≡ true → all is_ascii s ≡ true
digits-ascii [] h = refl
digits-ascii (c ∷ s) h = ground (arith, digits-ascii s)

ascii-units : (s : Text) → all is_ascii s ≡ true → All IsUnit s
ascii-units [] h = tt
ascii-units (c ∷ s) h = (ground arith, ascii-units s (ground arith))

All-append : (s t : Text) → All IsUnit s → All IsUnit t → All IsUnit (s ++ t)
All-append [] t h k = k
All-append (c ∷ s) t h k = (h.0, All-append s t h.1 k)

-- A text of a line: it has no control characters, and it is encoded and decoded without a loss.
pub record IsPlainText (s : Text) : Type 0 where
  pub uncontrolled : has_control s ≡ false
  pub well_formed : is_well_formed s ≡ true
  pub units : All IsUnit s

pub space-IsPlainText :
    (s t : Text)
    → all is_ascii s ≡ true
    → has_control s ≡ false
    → IsPlainText t
    → IsPlainText (space s t)
space-IsPlainText s t a h p = record {
  uncontrolled = space-no_control s t h p.uncontrolled;
  well_formed =
      ascii-well_formed s (b' ' ∷ t) a ∙ ascii-well_formed (b' ' ∷ []) t refl ∙ p.well_formed;
  units = All-append s (b' ' ∷ t) (ascii-units s a) (omega arith, p.units);
}

pub decimal-ascii : (n : ℕ) → all is_ascii (decimal n) ≡ true
decimal-ascii n = digits-ascii (decimal n) (digits-decimal n)

pub octal-ascii : (m : ℕ) → all is_ascii (octal m) ≡ true
unfolding octal
octal-ascii m = ground arith

pub decimal-IsPlainText : (n : ℕ) → IsPlainText (decimal n)
decimal-IsPlainText n = record {
  uncontrolled = decimal-no_control n;
  well_formed =
      rw (← append-nil (decimal n))
        (ascii-well_formed (decimal n) [] (decimal-ascii n) ∙ unfold is_well_formed in refl);
  units = ascii-units (decimal n) (decimal-ascii n);
}
