-- ===== src/Prelude/Utf8.antt =====
-- UTF-8 as the language's library writes and reads it: `Buffer.from(text, 'utf8')`, and
-- `new TextDecoder('utf-8', { fatal: true, ignoreBOM: true })`, over UTF-16 code units.
use Prim.Native.Nat.{ℕ, zero, suc, ◌+◌, ◌-◌, ◌*◌, ◌/◌, ◌%◌, ◌≤◌, ◌<◌}
use mathlib.Core.Path.{◌≡◌, refl, sym, ap, ◌∙◌}
use mathlib.Core.Logic.{◌⊎◌, inl, inr}
use mathlib.Core.Bool.{Bool, true, false, ◌&&◌, ◌||◌}
use mathlib.Core.Option.{Option, none, some}
use mathlib.Core.List.{List, [], ◌∷◌, ◌++◌, append_assoc, append-nil}
use native.Mathlib.Omega.{arith}
use usshtc.Prelude.Tests.{ltb, leb, ◌==◌, if◌then◌else◌, Bool-cases}
use usshtc.Prelude.Lists.{length, length-append, All, any, any-append}
use usshtc.Prelude.Text.{Text, is_high, is_low, is_well_formed, byte_length, unit_bytes}

-- The bytes of a code point.
unfoldable pub point_bytes : ℕ → List ℕ
point_bytes p =
    if ltb p 0x80
    then p ∷ []
    else if ltb p 0x800
    then (0xc0 + p / 64) ∷ (0x80 + p % 64) ∷ []
    else if ltb p 0x10000
    then (0xe0 + p / 4096) ∷ (0x80 + p / 64 % 64) ∷ (0x80 + p % 64) ∷ []
    else (0xf0 + p / 262144) ∷ (0x80 + p / 4096 % 64) ∷ (0x80 + p / 64 % 64) ∷ (0x80 + p % 64) ∷ []

-- A surrogate without its partner is written as U+FFFD.
unfoldable pub unit_encoding : ℕ → List ℕ
unfolding point_bytes
unit_encoding c = point_bytes (if is_high c || is_low c then 0xfffd else c)

abbrev pair_point : ℕ → ℕ → ℕ
pair_point c d = 0x10000 + (c - 0xd800) * 0x400 + (d - 0xdc00)

unfoldable pub encode : Text → List ℕ
unfolding point_bytes unit_encoding
encode [] = []
encode (c ∷ []) = unit_encoding c
encode (c ∷ d ∷ s) =
    let paired = encode s in
    let single = encode (d ∷ s) in
    if is_high c && is_low d
    then point_bytes (pair_point c d) ++ paired
    else unit_encoding c ++ single

-- The decoder between two bytes: how many bytes the code point still needs, what it is so far, and
-- the bounds of the next byte.
pub record Decoder : Type 0 where
  pub needed : ℕ
  pub point : ℕ
  pub lower : ℕ
  pub upper : ℕ

abbrev idle : Decoder
idle = record { needed = 0; point = 0; lower = 0x80; upper = 0xbf }

abbrev needs : ℕ → ℕ → ℕ → ℕ → Decoder
needs n point lower upper = record { needed = n; point = point; lower = lower; upper = upper }

-- A byte completes a code point, continues one, or is refused.
pub data Decoded : Type 0 where
  refused : Decoded
  continued : Decoder → Decoded
  complete : ℕ → Decoded

first_byte : ℕ → Decoded
first_byte b =
    if ltb b 0x80
    then complete b
    else if ltb b 0xc2
    then refused
    else if ltb b 0xe0
    then continued (needs 1 (b - 0xc0) 0x80 0xbf)
    else if ltb b 0xf0
    then continued
        (needs 2 (b - 0xe0) (if b == 0xe0 then 0xa0 else 0x80) (if b == 0xed then 0x9f else 0xbf))
    else if ltb b 0xf5
    then continued
        (needs 3 (b - 0xf0) (if b == 0xf0 then 0x90 else 0x80) (if b == 0xf4 then 0x8f else 0xbf))
    else refused

next_byte : ℕ → ℕ → Decoder → ℕ → Decoded
next_byte zero point d b = first_byte b
next_byte (suc zero) point d b =
    if leb d.lower b && leb b d.upper then complete (point * 64 + (b - 0x80)) else refused
next_byte (suc (suc n)) point d b =
    if leb d.lower b && leb b d.upper
    then continued (needs (suc n) (point * 64 + (b - 0x80)) 0x80 0xbf)
    else refused

-- The UTF-16 units of a code point.
units_of : ℕ → Text
units_of p =
    if ltb p 0x10000
    then p ∷ []
    else (0xd800 + (p - 0x10000) / 1024) ∷ (0xdc00 + (p - 0x10000) % 1024) ∷ []

is_idle : ℕ → Option Text
is_idle zero = some []
is_idle (suc n) = none

prepend : Text → Option Text → Option Text
prepend units none = none
prepend units (some text) = some (units ++ text)

decode_from : Decoder → List ℕ → Option Text
unfolding next_byte first_byte units_of is_idle prepend
decode_from d [] = is_idle d.needed
decode_from d (b ∷ bytes) = elim (next_byte d.needed d.point d b) [
  | refused ↦ none
  | continued d' ↦ decode_from d' bytes
  | complete p ↦ prepend (units_of p) (decode_from idle bytes)
]

unfoldable pub decode : List ℕ → Option Text
unfolding decode_from
decode bytes = decode_from idle bytes

-- A code point that is no surrogate.
abbrev IsScalar : ℕ → Type 0
IsScalar p = (p < 0xd800) ⊎ ((0xdfff < p) × (p < 0x110000))

one_byte :
    (p : ℕ) (rest : List ℕ)
    → p < 0x80
    → decode_from idle (p ∷ rest) ≡ prepend (units_of p) (decode_from idle rest)
unfolding decode_from
one_byte p rest h = ground arith

two_bytes :
    (p : ℕ) (rest : List ℕ)
    → 0x80 ≤ p
    → p < 0x800
    → decode_from idle ((0xc0 + p / 64) ∷ (0x80 + p % 64) ∷ rest)
      ≡ prepend (p ∷ []) (decode_from idle rest)
unfolding decode_from
two_bytes p rest h k = ground arith

three_bytes :
    (p : ℕ) (rest : List ℕ)
    → 0x800 ≤ p
    → p < 0x10000
    → IsScalar p
    → decode_from idle ((0xe0 + p / 4096) ∷ (0x80 + p / 64 % 64) ∷ (0x80 + p % 64) ∷ rest)
      ≡ prepend (p ∷ []) (decode_from idle rest)
unfolding decode_from
three_bytes p rest h k s = ground arith

four_bytes :
    (p : ℕ) (rest : List ℕ)
    → 0x10000 ≤ p
    → p < 0x110000
    → decode_from idle (
        (0xf0 + p / 262144)
        ∷ (0x80 + p / 4096 % 64)
        ∷ (0x80 + p / 64 % 64)
        ∷ (0x80 + p % 64)
        ∷ rest)
      ≡ prepend
          ((0xd800 + (p - 0x10000) / 1024) ∷ (0xdc00 + (p - 0x10000) % 1024) ∷ [])
          (decode_from idle rest)
unfolding decode_from
four_bytes p rest h k = ground arith

-- A unit of a text.
abbrev pub IsUnit : ℕ → Type 0
IsUnit c = c < 0x10000

single_unit :
    (c : ℕ) (rest : List ℕ)
    → IsUnit c
    → (is_high c || is_low c) ≡ false
    → decode_from idle (unit_encoding c ++ rest) ≡ prepend (c ∷ []) (decode_from idle rest)
unfolding unit_encoding units_of
single_unit c rest u s = ground (arith, one_byte c rest, two_bytes c rest, three_bytes c rest)

paired_units :
    (c d : ℕ) (rest : List ℕ)
    → (is_high c && is_low d) ≡ true
    → decode_from idle (point_bytes (pair_point c d) ++ rest)
      ≡ prepend (c ∷ d ∷ []) (decode_from idle rest)
unfolding point_bytes
paired_units c d rest h = ground (arith, four_bytes (pair_point c d) rest)

last_unit :
    (c : ℕ)
    → IsUnit c
    → (is_high c || is_low c) ≡ false
    → decode_from idle (unit_encoding c) ≡ some (c ∷ [])
unfolding decode_from
last_unit c u s = rw (← append-nil (unit_encoding c)) (single_unit c [] u s)

decode_from-encode :
    (s : Text) → All IsUnit s → is_well_formed s ≡ true → decode_from idle (encode s) ≡ some s
unfolding encode is_well_formed prepend
decode_from-encode [] u w = unfold decode_from in refl
decode_from-encode (c ∷ []) u w = last_unit c u.0 (ground arith)
decode_from-encode (c ∷ d ∷ s) u w = elim (Bool-cases (is_high c && is_low d)) [
  | inl h ↦ rw h (
      paired_units c d (encode s) h
      ∙ ap (prepend (c ∷ d ∷ [])) (decode_from-encode s u.1.1 (ground arith)))
  | inr h ↦ rw h (
      single_unit c (encode (d ∷ s)) u.0 (ground arith)
      ∙ ap (prepend (c ∷ [])) (decode_from-encode (d ∷ s) u.1 (ground arith)))
]

pub decode-encode : (s : Text) → All IsUnit s → is_well_formed s ≡ true → decode (encode s) ≡ some s
unfolding decode
decode-encode s u w = decode_from-encode s u w

length-unit_encoding : (c : ℕ) → IsUnit c → length (unit_encoding c) ≡ unit_bytes c
unfolding unit_encoding
length-unit_encoding c u = ground arith

length-paired :
    (c d : ℕ) → (is_high c && is_low d) ≡ true → length (point_bytes (pair_point c d)) ≡ 4
unfolding point_bytes
length-paired c d h = ground arith

pub length-encode : (s : Text) → All IsUnit s → length (encode s) ≡ byte_length s
unfolding encode byte_length
length-encode [] u = refl
length-encode (c ∷ []) u = length-unit_encoding c u.0
length-encode (c ∷ d ∷ s) u = elim (Bool-cases (is_high c && is_low d)) [
  | inl h ↦ rw h (
      omega (
        arith,
        length-append (point_bytes (pair_point c d)) (encode s),
        length-paired c d h,
        length-encode s u.1.1,
      ))
  | inr h ↦ rw h (
      omega (
        arith,
        length-append (unit_encoding c) (encode (d ∷ s)),
        length-unit_encoding c u.0,
        length-encode (d ∷ s) u.1,
      ))
]

abbrev pub is_newline : ℕ → Bool
is_newline b = b == 10

newline-unit_encoding : (c : ℕ) → is_newline c ≡ false → any is_newline (unit_encoding c) ≡ false
unfolding unit_encoding
newline-unit_encoding c u = ground arith

newline-paired : (c d : ℕ) → any is_newline (point_bytes (pair_point c d)) ≡ false
unfolding point_bytes
newline-paired c d = ground arith

none_of_both :
    (xs ys : List ℕ)
    → any is_newline xs ≡ false
    → any is_newline ys ≡ false
    → any is_newline (xs ++ ys) ≡ false
none_of_both xs ys h k = ground (arith, any-append is_newline xs ys)

pub newline-encode : (s : Text) → any is_newline s ≡ false → any is_newline (encode s) ≡ false
unfolding encode
newline-encode [] u = refl
newline-encode (c ∷ []) u = newline-unit_encoding c (ground arith)
newline-encode (c ∷ d ∷ s) u = elim (Bool-cases (is_high c && is_low d)) [
  | inl h ↦ rw h (
      none_of_both (point_bytes (pair_point c d)) (encode s) (newline-paired c d)
        (newline-encode s (ground arith)))
  | inr h ↦ rw h (
      none_of_both (unit_encoding c) (encode (d ∷ s)) (newline-unit_encoding c (ground arith))
        (newline-encode (d ∷ s) (ground arith)))
]

pub encode-ascii : (c : ℕ) (s : Text) → c < 0x80 → encode (c ∷ s) ≡ c ∷ encode s
unfolding encode
encode-ascii c [] h = ground arith
encode-ascii c (d ∷ s) h = ground arith

ascii_unit : (c d : ℕ) → c < 0x80 → ((is_high c && is_low d) ≡ false) × (unit_bytes c ≡ 1)
ascii_unit c d h = (ground arith, ground arith)

pub byte_length-ascii : (c : ℕ) (s : Text) → c < 0x80 → byte_length (c ∷ s) ≡ suc (byte_length s)
unfolding byte_length
byte_length-ascii c [] h = (ascii_unit c 0 h).1
byte_length-ascii c (d ∷ s) h = rw ((ascii_unit c d h).0, (ascii_unit c d h).1) (omega arith)

last_encoding : (c : ℕ) → encode (c ∷ 10 ∷ []) ≡ unit_encoding c ++ 10 ∷ []
unfolding encode
last_encoding c = ground arith

pub encode-line : (s : Text) → encode (s ++ 10 ∷ []) ≡ encode s ++ 10 ∷ []
unfolding encode
encode-line [] = refl
encode-line (c ∷ []) = last_encoding c
encode-line (c ∷ d ∷ s) = elim (Bool-cases (is_high c && is_low d)) [
  | inl h ↦ rw h (
      ap (λ (t : List ℕ). point_bytes (pair_point c d) ++ t) (encode-line s)
      ∙ sym (append_assoc (point_bytes (pair_point c d)) (encode s) (10 ∷ [])))
  | inr h ↦ rw h (
      ap (λ (t : List ℕ). unit_encoding c ++ t) (encode-line (d ∷ s))
      ∙ sym (append_assoc (unit_encoding c) (encode (d ∷ s)) (10 ∷ [])))
]
