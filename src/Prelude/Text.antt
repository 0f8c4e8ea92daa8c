-- ===== src/Prelude/Text.antt =====
-- A JavaScript string as the list of its UTF-16 code units, and the parts of the language's string
-- library that the program uses on it. `length` of the list is the source's `.length`.
use Prim.Native.Char.{code}
use Prim.Native.String.{String}
use usshtc.Prelude.Tests.{leb, ltb, ◌==◌, if◌then◌else◌, ==_iff, &&_iff, Bool-cases}
use usshtc.Prelude.Lists.{any, all}
use mathlib.Core.Path.{◌≡◌, refl}
use mathlib.Core.Logic.{◌≢◌, ◌↔◌, inl, inr}
use Prim.Native.Nat.{ℕ, ◌+◌, ◌-◌, ◌*◌}
use mathlib.Core.Bool.{Bool, true, false, not, ◌&&◌, ◌||◌}
use mathlib.Core.List.{List, [], ◌∷◌, ◌++◌}
use native.Mathlib.Omega.{arith}

abbrev pub Text : Type 0
Text = List ℕ

-- The units of a text literal of ASCII characters.
abbrev pub codes : String → Text
codes String.[] = []
codes (String.◌∷◌ c s) = code c ∷ codes s

abbrev pub is_empty : Text → Bool
is_empty [] = true
is_empty (_ ∷ _) = false

-- `left === right`.
abbrev pub text_eq : Text → Text → Bool
text_eq [] [] = true
text_eq [] (_ ∷ _) = false
text_eq (_ ∷ _) [] = false
text_eq (a ∷ s) (b ∷ t) = a == b && text_eq s t

-- `text.includes(char)`, for a one-unit `char`.
abbrev pub includes : Text → ℕ → Bool
includes s c = any (λ x. x == c) s

-- `/[\u0000-\u001f\u007f-\u009f]/.test(text)`.
abbrev pub is_control : ℕ → Bool
is_control c = leb c 0x1f || (leb 0x7f c && leb c 0x9f)

abbrev pub has_control : Text → Bool
has_control s = any is_control s

abbrev pub is_high : ℕ → Bool
is_high c = leb 0xd800 c && leb c 0xdbff

abbrev pub is_low : ℕ → Bool
is_low c = leb 0xdc00 c && leb c 0xdfff

-- `text.isWellFormed()`: every surrogate stands in a pair.
unfoldable pub is_well_formed : Text → Bool
is_well_formed [] = true
is_well_formed (c ∷ []) = not (is_high c || is_low c)
is_well_formed (c ∷ d ∷ s) =
    let paired = is_well_formed s in
    let single = is_well_formed (d ∷ s) in
    if is_high c then is_low d && paired else not (is_low c) && single

-- `Array.from(text)`, each item by its code point: a surrogate pair is one item, and a lone
-- surrogate is an item by itself.
unfoldable pub code_points : Text → List ℕ
code_points [] = []
code_points (c ∷ []) = c ∷ []
code_points (c ∷ d ∷ s) =
    let paired = code_points s in
    let single = code_points (d ∷ s) in
    if is_high c && is_low d
    then (0x10000 + (c - 0xd800) * 0x400 + (d - 0xdc00)) ∷ paired
    else c ∷ single

pub text_eq_iff : (s t : Text) → (text_eq s t ≡ true) ↔ (s ≡ t)
text_eq_iff [] [] = (λ _. refl, λ _. refl)
text_eq_iff [] (b ∷ t) = (λ h. cc, λ h. cc)
text_eq_iff (a ∷ s) [] = (λ h. cc, λ h. cc)
text_eq_iff (a ∷ s) (b ∷ t) =
    let (sound, complete) = text_eq_iff s t in
    (
      λ h. cc (
        (==_iff a b).0 ((&&_iff (a == b) (text_eq s t)).0 h).0,
        sound ((&&_iff (a == b) (text_eq s t)).0 h).1,
      ),
      λ h. (&&_iff (a == b) (text_eq s t)).1 ((==_iff a b).1 (heads h), complete (tails h)),
    )
  where
    heads : a ∷ s ≡ b ∷ t → a ≡ b
    heads h = cc

    tails : a ∷ s ≡ b ∷ t → s ≡ t
    tails h = cc

pub not-text_eq : (s t : Text) → s ≢ t → text_eq s t ≡ false
not-text_eq s t h = elim (Bool-cases (text_eq s t)) [
  | inl e ↦ absurd (h ((text_eq_iff s t).0 e))
  | inr e ↦ e
]

-- `\s` of a regular expression; `trim` strips the same characters.
abbrev pub is_space : ℕ → Bool
is_space c =
    (leb 0x9 c && leb c 0xd)
    || c == 0x20
    || c == 0xa0
    || c == 0x1680
    || (leb 0x2000 c && leb c 0x200a)
    || c == 0x2028
    || c == 0x2029
    || c == 0x202f
    || c == 0x205f
    || c == 0x3000
    || c == 0xfeff

abbrev pub unit_bytes : ℕ → ℕ
unit_bytes c = if ltb c 0x80 then 1 else if ltb c 0x800 then 2 else 3

-- `Buffer.byteLength(text, 'utf8')`; a lone surrogate becomes the three bytes of U+FFFD.
unfoldable pub byte_length : Text → ℕ
byte_length [] = 0
byte_length (c ∷ []) = unit_bytes c
byte_length (c ∷ d ∷ s) =
    let paired = byte_length s in
    let single = byte_length (d ∷ s) in
    if is_high c && is_low d then 4 + paired else unit_bytes c + single

pub text_eq_sym : (s t : Text) → text_eq s t ≡ text_eq t s
text_eq_sym [] [] = refl
text_eq_sym [] (b ∷ t) = refl
text_eq_sym (a ∷ s) [] = refl
text_eq_sym (a ∷ s) (b ∷ t) = ground (arith, text_eq_sym s t)

pub ascii-well_formed :
    (s t : Text) → all (λ c. ltb c 0x80) s ≡ true → is_well_formed (s ++ t) ≡ is_well_formed t
unfolding is_well_formed
ascii-well_formed [] t h = refl
ascii-well_formed (c ∷ []) [] h = ground arith
ascii-well_formed (c ∷ []) (d ∷ t) h = ground arith
ascii-well_formed (c ∷ d ∷ s) t h = ground (arith, ascii-well_formed (d ∷ s) t)
