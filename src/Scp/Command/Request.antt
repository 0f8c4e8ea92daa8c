-- ===== src/Scp/Command/Request.antt =====
-- SCP requests that name their path in quotes, read by `parseScpCommand` of
-- electron/scp/command-parser.js, and the pattern that such a path stands for.
use usshtc.Prelude.{
  ℕ, ◌+◌, ◌-◌, ◌*◌, ◌≤◌, ◌≡◌, refl, sym, ap, ◌∙◌, true, false, List, [], ◌∷◌, ◌++◌, arith, length,
  ok, Bool-cases, inl, inr, ◌⊎◌, ◌↔◌,
}
use usshtc.Prelude.Text.{Text, code_points, is_high, is_low}
use usshtc.Scp.Command.{backslash, pattern_unit}
use usshtc.Scp.Command.Quoting.{glob_escape}
use mathlib.Core.Path.{subst}
use usshtc.Prelude.EntryName.{IsEntryName}
use usshtc.Scp.Glob.{
  one, literal, Glob, Limits, options_with_limits, pattern_rejected, compile_glob, test,
}
use usshtc.Scp.Glob.Matches.{Matches, DotIsExplicit, test_iff}
use usshtc.Scp.Glob.Literal.{
  literals, Matches-literals, literals-Matches, compile_glob-Escapes, Escapes, nil, escaped, plain,
  is_literal_char,
}

code_points-low : (c : ℕ) (s : Text) → is_high c ≡ false → code_points (c ∷ s) ≡ c ∷ code_points s
unfolding code_points
code_points-low c [] h = refl
code_points-low c (d ∷ s) h = rw h

code_points-lone :
    (c d : ℕ) (s : Text) → is_low d ≡ false → code_points (c ∷ d ∷ s) ≡ c ∷ code_points (d ∷ s)
unfolding code_points
code_points-lone c d s h = ground arith

-- A unit that is escaped is no surrogate; one that is not escaped stands for itself in a pattern.
pattern_unit-cases :
    (c : ℕ)
    → ((pattern_unit c true ≡ backslash ∷ c ∷ []) × (is_high c ≡ false) × (is_low c ≡ false))
      ⊎ ((pattern_unit c true ≡ c ∷ []) × (is_literal_char c ≡ true))
unfolding pattern_unit
pattern_unit-cases c = ground arith

pattern_unit-high : (c : ℕ) → is_high c ≡ true → pattern_unit c true ≡ c ∷ []
unfolding pattern_unit
pattern_unit-high c h = ground arith

pattern_unit-low : (c : ℕ) → is_low c ≡ true → pattern_unit c true ≡ c ∷ []
unfolding pattern_unit
pattern_unit-low c h = ground arith

astral_literal : (n : ℕ) → 0x10000 ≤ n → is_literal_char n ≡ true
astral_literal n h = ground arith

Escapes-unit :
    (c : ℕ) {p s : List ℕ} (text : Text)
    → code_points text ≡ p
    → Escapes p s
    → is_high c ≡ false
    → Escapes (code_points (pattern_unit c true ++ text)) (c ∷ s)
Escapes-unit c text read e low = elim (pattern_unit-cases c) [
  | inl special ↦
      rw (special.0, code_points-low backslash (c ∷ text) refl, code_points-low c text low, read)
        (escaped c e)
  | inr same ↦ rw (same.0, code_points-low c text low, read) (plain c same.1 e)
]

code_points-pair :
    (c d : ℕ) (s : Text)
    → is_high c ≡ true
    → is_low d ≡ true
    → code_points (c ∷ d ∷ s) ≡ (0x10000 + (c - 0xd800) * 0x400 + (d - 0xdc00)) ∷ code_points s
unfolding code_points
code_points-pair c d s h k = rw (h, k)

-- Before a unit that is no low surrogate, or before its escape, a surrogate stands alone.
code_points-alone :
    (c d : ℕ) (text : Text)
    → is_low d ≡ false
    → code_points (c ∷ (pattern_unit d true ++ text))
      ≡ c ∷ code_points (pattern_unit d true ++ text)
code_points-alone c d text h = elim (pattern_unit-cases d) [
  | inl special ↦ rw special.0 (code_points-lone c backslash (d ∷ text) refl)
  | inr same ↦ rw same.0 (code_points-lone c d text h)
]

high_literal : (c : ℕ) → is_high c ≡ true → is_literal_char c ≡ true
high_literal c h = ground arith

-- `glob_escape` on units is an escape of the characters, surrogate pairs included.
glob_escape-Escapes : (s : Text) → Escapes (code_points (glob_escape s)) (code_points s)
unfolding glob_escape
glob_escape-Escapes [] = unfold code_points in nil
glob_escape-Escapes (c ∷ []) = elim (pattern_unit-cases c) [
  | inl special ↦ unfold code_points in rw special.0 (escaped c nil)
  | inr same ↦ unfold code_points in rw same.0 (plain c same.1 nil)
]
glob_escape-Escapes (c ∷ d ∷ s) =
    let ih = glob_escape-Escapes s in
    let ih' = glob_escape-Escapes (d ∷ s) in
    elim (Bool-cases (is_high c)) [
      | inl high ↦ elim (Bool-cases (is_low d)) [
        | inl low ↦
            rw (pattern_unit-high c high, pattern_unit-low d low)
              (rw (code_points-pair c d (glob_escape s) high low, code_points-pair c d s high low)
                (plain (0x10000 + (c - 0xd800) * 0x400 + (d - 0xdc00))
                  (astral_literal (0x10000 + (c - 0xd800) * 0x400 + (d - 0xdc00)) (omega arith))
                  ih))
        | inr alone ↦
            rw
              (
                pattern_unit-high c high,
                code_points-alone c d (glob_escape s) alone,
                code_points-lone c d s alone,
              )
              (plain c (high_literal c high) ih')
      ]
      | inr low ↦
          rw (code_points-low c (d ∷ s) low) (Escapes-unit c (glob_escape (d ∷ s)) refl ih' low)
    ]

literals-DotIsExplicit :
    (chars : List ℕ) (name : Text) → code_points name ≡ chars → DotIsExplicit (literals chars) name
literals-DotIsExplicit chars [] = λ _. tt
literals-DotIsExplicit chars (c ∷ name) = λ same e. (
  literals (code_points name),
  ap literals (sym same ∙ code_points-low c name (ground arith))
      ∙ ap (λ (x : ℕ). one (literal x) ∷ literals (code_points name)) e,
)

-- A path that is quoted whole is matched as itself: its pattern compiles to a matcher without magic
-- that accepts, among the safe entry names within the length limit, exactly the names with the same
-- characters. The hypotheses are that the limits are valid, that the pattern passes the guard of
-- `parsePattern`, and that the path has no more characters than tokens are allowed.
pub glob_escape-exact :
    (s : Text) (o : Limits) (name : Text)
    → options_with_limits o ≡ ok o
    → pattern_rejected (glob_escape s) o ≡ false
    → length (code_points s) ≤ o.max_tokens
    → (g : Glob) × (compile_glob (glob_escape s) o ≡ ok g)
      × (g.magic ≡ false)
      × ((test g name ≡ true) ↔ (
          IsEntryName name
          × (length name ≤ o.max_name_length)
          × (code_points name ≡ code_points s)))
glob_escape-exact s o name opts accepted short =
    let g : Glob = record { magic = false; tokens = literals (code_points s); bounds = o } in
    (
      g,
      compile_glob-Escapes (glob_escape s) (code_points s) o (glob_escape-Escapes s) opts accepted
          short,
      refl,
      (
        λ h.
            let (n, len, dot, d) = (test_iff g name).0 h in
            (n, len, Matches-literals (code_points s) (code_points name) d),
        λ (n, len, same). (test_iff g name).1 (
          n,
          len,
          literals-DotIsExplicit (code_points s) name same,
          subst (λ (t : List ℕ). Matches (literals (code_points s)) t) (sym same)
              (literals-Matches (code_points s)),
        ),
      ),
    )
