-- ===== src/Settings/Clean.antt =====
-- shared/settings-schema.mjs, `cleanString`, and `trim`.
use usshtc.Prelude.{
  ℕ, ◌≡◌, refl, Bool, false, ◌&&◌, ◌||◌, [], ◌∷◌, any, if◌then◌else◌, ◌==◌, Result, ok, err,
  Bool-cases, inl, inr, arith, ap, ◌∙◌,
}
use usshtc.Prelude.Text.{Text, is_space, is_control, is_empty}
use mathlib.Core.Path.{subst}

-- The codes of `invalid`.
pub data Code : Type 0 where
  required integer_range invalid_token invalid_host invalid_boolean invalid_enum invalid_path
        invalid_startup_command unknown_key :
      Code

-- `CONTROL_CHARACTERS`.
abbrev pub is_line_control : ℕ → Bool
is_line_control c = is_control c || c == 0x2028 || c == 0x2029

unfoldable pub strip_start : Text → Text
strip_start [] = []
strip_start (c ∷ s) = let rest = strip_start s in if is_space c then rest else c ∷ s

unfoldable pub strip_end : Text → Text
strip_end [] = []
strip_end (c ∷ s) = let rest = strip_end s in if is_space c && is_empty rest then [] else c ∷ rest

-- `trim`.
unfoldable pub trim : Text → Text
unfolding strip_start strip_end
trim s = strip_end (strip_start s)

-- `cleanString` of a string.
unfoldable pub clean_string : Code → Text → Result Code Text
unfolding trim
clean_string code s =
    if any is_line_control s
    then err code
    else if is_empty (trim s)
    then err required
    else ok (trim s)

strip_end_idem : (s : Text) → strip_end (strip_end s) ≡ strip_end s
unfolding strip_end
strip_end_idem [] = refl
strip_end_idem (c ∷ s) = elim (Bool-cases (is_space c && is_empty (strip_end s))) [
  | inl e ↦ rw e refl
  | inr e ↦ rw (e, strip_end_idem s, e) refl
]

-- A text that starts with no space, unless it is empty.
abbrev StartsPlain : Text → Type 0
StartsPlain [] = Unit
StartsPlain (c ∷ s) = is_space c ≡ false

strip_start-StartsPlain : (s : Text) → StartsPlain (strip_start s)
unfolding strip_start
strip_start-StartsPlain [] = tt
strip_start-StartsPlain (c ∷ s) = elim (Bool-cases (is_space c)) [
  | inl e ↦ rw e (strip_start-StartsPlain s)
  | inr e ↦ rw e e
]

strip_end-StartsPlain : (s : Text) → StartsPlain s → StartsPlain (strip_end s)
unfolding strip_end
strip_end-StartsPlain [] h = tt
strip_end-StartsPlain (c ∷ s) h = rw h h

strip_start-plain : (s : Text) → StartsPlain s → strip_start s ≡ s
unfolding strip_start
strip_start-plain [] h = refl
strip_start-plain (c ∷ s) h = rw h refl

trim_idem : (s : Text) → trim (trim s) ≡ trim s
unfolding trim
trim_idem s =
    ap strip_end (
      strip_start-plain (strip_end (strip_start s))
        (strip_end-StartsPlain (strip_start s) (strip_start-StartsPlain s)))
    ∙ strip_end_idem (strip_start s)

module _ (p : ℕ → Bool) where
  any-strip_start : (t : Text) → any p t ≡ false → any p (strip_start t) ≡ false
  unfolding strip_start
  any-strip_start [] k = refl
  any-strip_start (c ∷ t) k = elim (Bool-cases (is_space c)) [
    | inl e ↦ rw e (any-strip_start t (ground arith))
    | inr e ↦ rw e k
  ]

  any-strip_end : (t : Text) → any p t ≡ false → any p (strip_end t) ≡ false
  unfolding strip_end
  any-strip_end [] k = refl
  any-strip_end (c ∷ t) k = elim (Bool-cases (is_space c && is_empty (strip_end t))) [
    | inl e ↦ rw e refl
    | inr e ↦ rw e (ground (arith, any-strip_end t))
  ]

  any-trim : (s : Text) → any p s ≡ false → any p (trim s) ≡ false
  unfolding trim
  any-trim s h = any-strip_end (strip_start s) (any-strip_start s h)

-- `t` needs no cleaning.
pub record IsClean (code : Code) (t : Text) : Type 0 where
  pub stays : clean_string code t ≡ ok t
  pub not_empty : is_empty t ≡ false
  pub no_control : any is_line_control t ≡ false

trim-IsClean :
    (code : Code) (s : Text)
    → any is_line_control s ≡ false
    → is_empty (trim s) ≡ false
    → IsClean code (trim s)
trim-IsClean code s h k = record {
  stays = (unfold clean_string in rw (any-trim is_line_control s h, trim_idem s, k) refl);
  not_empty = k;
  no_control = any-trim is_line_control s h;
}

-- A cleaned text needs no cleaning.
pub clean_string-IsClean : (code : Code) (s t : Text) → clean_string code s ≡ ok t → IsClean code t
unfolding clean_string
clean_string-IsClean code s t h = elim (Bool-cases (any is_line_control s)) [
  | inl e ↦ cc (rw e at h)
  | inr e ↦ elim (Bool-cases (is_empty (trim s))) [
    | inl f ↦ cc (rw (e, f) at h)
    | inr f ↦
        let same : trim s ≡ t = cc (rw (e, f) at h) in
        subst (IsClean code) same (trim-IsClean code s e f)
  ]
]
