-- ===== src/Scp/Glob/Parse.antt =====
-- What `parsePattern` of electron/scp/glob.js promises of the tokens that it returns, and that its
-- loop ends.
use mathlib.Core.Path.{subst}
use usshtc.Prelude.{
  leb→le, ℕ, zero, suc, ◌+◌, ◌≤◌, ◌≡◌, refl, Bool, true, false, ◌&&◌, ◌||◌, List, [], ◌∷◌, ◌++◌,
  arith, length, length-append, any, any-append, leb, ◌==◌, Result, ok, err, ◌>>=◌, Bool-cases, inl,
  inr,
}
use usshtc.Prelude.Text.{Text, code_points}
use usshtc.Scp.Glob.{
  GlobError, out_of_fuel, invalid_limit, Limits, Member, Ranges, Token, any_char, literal, class,
  star, one, read_members, build_ranges, class_members, after_negation, read_class, ends_in_star,
  escaped_char, next_token, is_magic, parse_loop, parse_pattern, within, pattern_rejected,
  options_with_limits, compile_glob, Glob,
}

-- A value of which `P` holds, or an error that the source throws.
abbrev pub Ends {ℓ} : {A : Type ℓ} → (A → Type 0) → Result GlobError A → Type 0
Ends P (err out_of_fuel) = ⊥
Ends P (err _) = Unit
Ends P (ok value) = P value

module _ {ℓ} {A : Type ℓ} (P : A → Type 0) where
  Ends-map : (Q : A → Type 0) (r : Result GlobError A) → ((a : A) → P a → Q a) → Ends P r → Ends Q r
  Ends-map Q (err out_of_fuel) weaken h = h
  Ends-map Q (err invalid_limit) weaken h = tt
  Ends-map Q (err _) weaken h = tt
  Ends-map Q (ok value) weaken h = weaken value h

  Ends-chain {κ} :
      {B : Type κ} (Q : B → Type 0) (first : Result GlobError A) (next : A → Result GlobError B)
      → Ends P first
      → ((value : A) → P value → Ends Q (next value))
      → Ends Q (first >>= next)
  Ends-chain Q (err out_of_fuel) next h k = h
  Ends-chain Q (err invalid_limit) next h k = tt
  Ends-chain Q (err _) next h k = tt
  Ends-chain Q (ok value) next h k = k value h

-- A token that is no literal character.
abbrev pub is_wild : Token → Bool
is_wild star = true
is_wild (one any_char) = true
is_wild (one (literal c)) = false
is_wild (one (class n r)) = true

abbrev pub is_star : Token → Bool
is_star star = true
is_star (one t) = false

-- No two stars stand side by side.
pub data NoDoubleStar : List Token → Type 0 where
  nil : NoDoubleStar []
  single : (t : Token) → NoDoubleStar (t ∷ [])
  more :
      (t u : Token) (tokens : List Token)
      → (is_star t && is_star u) ≡ false
      → NoDoubleStar (u ∷ tokens)
      → NoDoubleStar (t ∷ u ∷ tokens)

NoDoubleStar-push :
    (t : Token) (tokens : List Token)
    → NoDoubleStar tokens
    → (is_star t && ends_in_star tokens) ≡ false
    → NoDoubleStar (tokens ++ t ∷ [])
unfolding ends_in_star
NoDoubleStar-push t [] nil h = single t
NoDoubleStar-push t (star ∷ []) d h = more star t [] (ground arith) (single t)
NoDoubleStar-push t (one x ∷ []) d h = more (one x) t [] refl (single t)
NoDoubleStar-push t (star ∷ v ∷ tokens) (more _ _ _ k d) h =
    more star v (tokens ++ t ∷ []) k (NoDoubleStar-push t (v ∷ tokens) d h)
NoDoubleStar-push t (one x ∷ v ∷ tokens) (more _ _ _ k d) h =
    more (one x) v (tokens ++ t ∷ []) k (NoDoubleStar-push t (v ∷ tokens) d h)

abbrev LeavesAtMost {ℓ} : {A : Type ℓ} → ℕ → A × List ℕ → Type 0
LeavesAtMost n (_, rest) = length rest ≤ n

read_members-Ends :
    (n : ℕ) (chars : List ℕ) (members : List Member)
    → length chars ≤ n
    → Ends (LeavesAtMost n) (read_members chars members)
unfolding read_members
read_members-Ends n [] members h = tt
read_members-Ends n (c ∷ []) members h = ground arith
read_members-Ends n (c ∷ d ∷ chars) members h = ground (
  arith,
  read_members-Ends n chars (members ++ (d, true) ∷ []),
  read_members-Ends n (d ∷ chars) (members ++ (c, false) ∷ []),
)

build_ranges-Ends :
    (members : List Member) (ranges : Ranges) → Ends (λ _. Unit {0}) (build_ranges members ranges)
unfolding build_ranges
build_ranges-Ends [] ranges = tt
build_ranges-Ends ((a, x) ∷ []) ranges = tt
build_ranges-Ends ((a, x) ∷ (b, y) ∷ []) ranges = tt
build_ranges-Ends ((a, x) ∷ (d, escaped) ∷ (b, quoted) ∷ members) ranges = ground (
  arith,
  build_ranges-Ends members (ranges ++ (a, b) ∷ []),
  build_ranges-Ends ((d, escaped) ∷ (b, quoted) ∷ members) (ranges ++ (a, a) ∷ []),
)

class_members-Ends : (chars : List ℕ) → Ends (LeavesAtMost (length chars)) (class_members chars)
unfolding class_members
class_members-Ends [] = tt
class_members-Ends (c ∷ chars) = ground (
  arith,
  read_members-Ends (suc (length chars)) chars ((c, false) ∷ []),
  read_members-Ends (suc (length chars)) (c ∷ chars) [],
)

length-after_negation : (chars : List ℕ) → length (after_negation chars) ≤ length chars
unfolding after_negation
length-after_negation [] = omega arith
length-after_negation (c ∷ chars) = ground arith

-- What a round of the loop may push: a class is no star, and no character is added.
abbrev Pushes : ℕ → List ℕ → List Token → Token × List ℕ → Type 0
Pushes c chars tokens (t, rest) =
    (length rest ≤ length chars)
    × ((is_star t && ends_in_star tokens) ≡ false)
    × (is_wild t ≡ is_magic c)

abbrev IsClass : List ℕ → Token × List ℕ → Type 0
IsClass chars (t, rest) = (length rest ≤ length chars) × (is_star t ≡ false) × (is_wild t ≡ true)

read_class-Ends : (chars : List ℕ) → Ends (IsClass chars) (read_class chars)
unfolding read_class
read_class-Ends chars =
    Ends-chain (LeavesAtMost (length (after_negation chars))) (IsClass chars)
      (class_members (after_negation chars)) _ (class_members-Ends (after_negation chars))
      λ (members, rest) shorter.
        Ends-chain (λ _. Unit {0}) (IsClass chars) (build_ranges members []) _
          (build_ranges-Ends members [])
          λ ranges _. (omega (arith, length-after_negation chars), refl, refl)

escaped_char-Ends :
    (c : ℕ) (chars : List ℕ) (tokens : List Token)
    → (c == b'\\') ≡ true
    → Ends (Pushes c chars tokens) (escaped_char chars)
unfolding escaped_char is_magic
escaped_char-Ends c [] tokens e = tt
escaped_char-Ends c (d ∷ chars) tokens e = (omega arith, refl, ground arith)

read_class-Pushes :
    (c : ℕ) (chars : List ℕ) (tokens : List Token)
    → (c == b'[') ≡ true
    → Ends (Pushes c chars tokens) (read_class chars)
unfolding is_magic
read_class-Pushes c chars tokens e =
    Ends-map (IsClass chars) (Pushes c chars tokens) (read_class chars)
      (λ (t, rest) (shorter, plain, wild). (shorter, ground arith, ground arith))
      (read_class-Ends chars)

next_token-Ends :
    (c : ℕ) (chars : List ℕ) (tokens : List Token)
    → Ends (Pushes c chars tokens) (next_token c chars tokens)
unfolding next_token is_magic
next_token-Ends c chars tokens =
    ground (arith, escaped_char-Ends c chars tokens, read_class-Pushes c chars tokens)

-- What the loop keeps of the tokens read so far.
abbrev pub Parsed : ℕ → List Token × Bool → Type 0
Parsed limit (tokens, magic) =
    (length tokens ≤ limit) × NoDoubleStar tokens × (magic ≡ any is_wild tokens)

parse_loop-Ends :
    (fuel limit : ℕ) (chars : List ℕ) (tokens : List Token) (magic : Bool)
    → length chars ≤ fuel
    → Parsed limit (tokens, magic)
    → Ends (Parsed limit) (parse_loop fuel limit chars tokens magic)
unfolding parse_loop
parse_loop-Ends fuel limit [] tokens magic h p = p
parse_loop-Ends zero limit (c ∷ chars) tokens magic h p = absurd (omega arith)
parse_loop-Ends (suc fuel) limit (c ∷ chars) tokens magic h (short, apart, wild) =
    Ends-chain (Pushes c chars tokens) (Parsed limit) (next_token c chars tokens) _
      (next_token-Ends c chars tokens)
      λ (t, rest) (shorter, single_star, wild_token).
        elim (Bool-cases (leb (length tokens + 1) limit)) [
          | inl e ↦ rw e (
              parse_loop-Ends fuel limit rest (tokens ++ t ∷ []) (magic || is_magic c) (omega arith)
                (
                  omega (
                    arith,
                    length-append {0} tokens (t ∷ []),
                    leb→le (length tokens + 1) limit e,
                  ),
                  NoDoubleStar-push t tokens apart single_star,
                  ground (arith, any-append is_wild tokens (t ∷ [])),
                ))
          | inr e ↦ rw e tt
        ]

parse_pattern-Ends :
    (pattern_text : Text) (options : Limits)
    → Ends (Parsed options.max_tokens) (parse_pattern pattern_text options)
unfolding parse_pattern
parse_pattern-Ends pattern_text options =
    elim (Bool-cases (pattern_rejected pattern_text options)) [
      | inl e ↦ rw e tt
      | inr e ↦ rw e (
          parse_loop-Ends (length (code_points pattern_text)) options.max_tokens
            (code_points pattern_text) [] false (omega arith) (omega arith, nil, refl))
    ]

-- What a compiled matcher satisfies, for the limits that were asked for.
pub record IsCompiled (o : Limits) (g : Glob) : Type 0 where
  pub same_bounds : g.bounds ≡ o
  pub tokens_bound : length g.tokens ≤ o.max_tokens
  pub cap : o.max_tokens ≤ 256
  pub stars_apart : NoDoubleStar g.tokens
  pub magic_exact : g.magic ≡ any is_wild g.tokens

options_with_limits-Ends :
    (o : Limits) → Ends (λ b. (b ≡ o) × (o.max_tokens ≤ 256)) (options_with_limits o)
unfolding options_with_limits within
options_with_limits-Ends o = ground arith

-- `compileGlob` ends on every pattern and limits, with one of its errors or with a matcher that
-- keeps the limits: at most `maxTokens` tokens, itself at most 256, no star beside a star, and
-- `magic` set exactly when some token is no literal character.
pub compile_glob-IsCompiled :
    (pattern_text : Text) (o : Limits) → Ends (IsCompiled o) (compile_glob pattern_text o)
unfolding compile_glob
compile_glob-IsCompiled pattern_text o =
    Ends-chain (λ b. (b ≡ o) × (o.max_tokens ≤ 256)) (IsCompiled o) (options_with_limits o) _
      (options_with_limits-Ends o)
      λ b (same, capped).
        Ends-chain (Parsed b.max_tokens) (IsCompiled o) (parse_pattern pattern_text b) _
          (parse_pattern-Ends pattern_text b)
          λ (tokens, magic) (short, apart, wild). record {
            same_bounds = same;
            tokens_bound = subst (λ (x : Limits). length tokens ≤ x.max_tokens) same short;
            cap = capped;
            stars_apart = apart;
            magic_exact = wild;
          }
