-- ===== src/Scp/Glob/Literal.antt =====
-- Patterns with every special character escaped: electron/scp/glob.js compiles them to literals.
use mathlib.Core.Path.{ap₂}
use usshtc.Prelude.Text.{Text, code_points}
use usshtc.Prelude.{
  ==_iff, ==_refl, ℕ, zero, suc, ◌+◌, ◌≤◌, ◌≡◌, refl, sym, ◌∙◌, Bool, true, false, not, ◌||◌, List,
  [], ◌∷◌, ◌++◌, append_assoc, append-nil, arith, length, length-append, ◌==◌, ok, le→leb,
}
use usshtc.Scp.Glob.{
  Token, one, literal, parse_loop, next_token, escaped_char, is_magic, Limits, options_with_limits,
  pattern_rejected, parse_pattern, compile_glob, accepts,
}
use usshtc.Scp.Glob.Matches.{Matches, done, char}

-- The characters that `parsePattern` takes literally.
abbrev pub is_literal_char : ℕ → Bool
is_literal_char c = not (c == b'\\' || c == b'*' || c == b'?' || c == b'[')

-- The first list is the second with characters escaped, those that are special among them.
pub data Escapes : List ℕ → List ℕ → Type 0 where
  nil : Escapes [] []
  escaped : {p s : List ℕ} (c : ℕ) → Escapes p s → Escapes (b'\\' ∷ c ∷ p) (c ∷ s)
  plain : {p s : List ℕ} (c : ℕ) → is_literal_char c ≡ true → Escapes p s → Escapes (c ∷ p) (c ∷ s)

-- The tokens that take one text and nothing else.
abbrev pub literals : List ℕ → List Token
literals [] = []
literals (c ∷ chars) = one (literal c) ∷ literals chars

length-literals : (s : List ℕ) → length (literals s) ≡ length s
length-literals [] = refl
length-literals (c ∷ s) = omega (arith, length-literals s)

next_token_plain :
    (c : ℕ) (p : List ℕ) (tokens : List Token)
    → is_literal_char c ≡ true
    → (next_token c p tokens ≡ ok (one (literal c), p)) × (is_magic c ≡ false)
unfolding next_token is_magic
next_token_plain c p tokens h = (ground arith, ground arith)

or_false : (b : Bool) → (b || false) ≡ b
or_false true = refl
or_false false = refl

literal_step :
    (fuel limit c : ℕ) (p : List ℕ) (tokens : List Token) (magic : Bool)
    → is_literal_char c ≡ true
    → length tokens + 1 ≤ limit
    → parse_loop (suc fuel) limit (c ∷ p) tokens magic
      ≡ parse_loop fuel limit p (tokens ++ one (literal c) ∷ []) magic
unfolding parse_loop
literal_step fuel limit c p tokens magic h k =
    let (read, quiet) = next_token_plain c p tokens h in
    rw (read, quiet, le→leb (length tokens + 1) limit k, or_false)

escaped_step :
    (fuel limit c : ℕ) (p : List ℕ) (tokens : List Token) (magic : Bool)
    → length tokens + 1 ≤ limit
    → parse_loop (suc fuel) limit (b'\\' ∷ c ∷ p) tokens magic
      ≡ parse_loop fuel limit p (tokens ++ one (literal c) ∷ []) magic
unfolding parse_loop next_token escaped_char is_magic
escaped_step fuel limit c p tokens magic k = rw (le→leb (length tokens + 1) limit k, or_false)

parse_loop-Escapes :
    {p s : List ℕ} (fuel limit : ℕ) (tokens : List Token) (magic : Bool)
    → Escapes p s
    → length p ≤ fuel
    → length tokens + length s ≤ limit
    → parse_loop fuel limit p tokens magic ≡ ok (tokens ++ literals s, magic)
parse_loop-Escapes fuel limit tokens magic nil h k = unfold parse_loop in rw append-nil
parse_loop-Escapes zero limit tokens magic (escaped c e) h k = absurd (omega arith)
parse_loop-Escapes zero limit tokens magic (plain c l e) h k = absurd (omega arith)
parse_loop-Escapes (suc fuel) limit tokens magic (escaped {p} {s} c e) h k =
    escaped_step fuel limit c p tokens magic (omega arith)
    ∙ parse_loop-Escapes fuel limit (tokens ++ one (literal c) ∷ []) magic e (omega arith)
        (omega (arith, length-append {0} tokens (one (literal c) ∷ [])))
    ∙ rw append_assoc
parse_loop-Escapes (suc fuel) limit tokens magic (plain {p} {s} c l e) h k =
    literal_step fuel limit c p tokens magic l (omega arith)
    ∙ parse_loop-Escapes fuel limit (tokens ++ one (literal c) ∷ []) magic e (omega arith)
        (omega (arith, length-append {0} tokens (one (literal c) ∷ [])))
    ∙ rw append_assoc

-- Literal tokens match their own characters and nothing else.
pub Matches-literals : (s t : List ℕ) → Matches (literals s) t → t ≡ s
unfolding accepts
Matches-literals [] t done = refl
Matches-literals (c ∷ s) t (char h d) = ap₂ ◌∷◌ (sym ((==_iff c _).0 h)) (Matches-literals s _ d)

pub literals-Matches : (s : List ℕ) → Matches (literals s) s
unfolding accepts
literals-Matches [] = done
literals-Matches (c ∷ s) = char (==_refl c) (literals-Matches s)

-- A pattern that escapes the text `s`, once the guard of `parsePattern` lets it through.
pub compile_glob-Escapes :
    (pattern_text : Text) (s : List ℕ) (o : Limits)
    → Escapes (code_points pattern_text) s
    → options_with_limits o ≡ ok o
    → pattern_rejected pattern_text o ≡ false
    → length s ≤ o.max_tokens
    → compile_glob pattern_text o ≡ ok (record { magic = false; tokens = literals s; bounds = o })
unfolding compile_glob parse_pattern
compile_glob-Escapes pattern_text s o e opts accepted short = rw (
  opts,
  accepted,
  parse_loop-Escapes (length (code_points pattern_text)) o.max_tokens [] false e (omega arith)
      (omega arith),
)
