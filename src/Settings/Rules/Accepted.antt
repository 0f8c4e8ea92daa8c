-- ===== src/Settings/Rules/Accepted.antt =====
-- The values that the parsers of shared/settings-schema.mjs accept.
use usshtc.Prelude.{
  ℕ, ◌≤◌, ◌≡◌, refl, Bool, true, false, not, ◌&&◌, ◌||◌, List, any, all, leb, ltb, leb→le, length,
  Result, ok, err, guard, ◌>>=◌, ◌>>◌, Bool-cases, inl, inr, arith, &&_iff,
}
use usshtc.Prelude.Text.{Text, text_eq, is_empty, is_space}
use usshtc.Prelude.Dynamic.{Value, string, integer, boolean, pos, negsuc, ℤ}
use usshtc.Settings.Clean.{
  Code, integer_range, invalid_token, invalid_host, clean_string, is_line_control, IsClean,
  clean_string-IsClean,
}
use usshtc.Settings.Host.{is_host}
use usshtc.Settings.Rules.{
  Rule, integer_in, token, host, path, startup_command, flag, one_of, clean, in_range, read_integer,
  parse_integer, parse_token, parse_host, parse_boolean, parse_enum, parse_path,
  parse_startup_command, apply, is_token_char, tmux_startup_command,
}
use mathlib.Core.Path.{subst}

-- The values that a rule means to let through.
abbrev pub Meets : Rule → Value → Type 0
Meets (integer_in min max) (integer (pos n)) = (min ≤ n) × (n ≤ max)
Meets (token max_length) (string s) =
    (is_empty s ≡ false) × (length s ≤ max_length) × (all is_token_char s ≡ true)
Meets host (string s) =
    (is_empty s ≡ false) × (length s ≤ 253) × (any is_space s ≡ false) × (is_host s ≡ true)
Meets path (string s) = (length s ≤ 1024) × (any is_line_control s ≡ false)
Meets startup_command (string s) = (is_empty s || text_eq s tmux_startup_command) ≡ true
Meets flag (boolean b) = Unit
Meets (one_of choices) (string s) = any (λ choice. text_eq choice s) choices ≡ true
Meets _ _ = ⊥

-- `apply` gives a value that meets the rule and that it leaves as it is, or an error.
abbrev Fine : Rule → Result Code Value → Type 0
Fine r (err _) = Unit
Fine r (ok v) = Meets r v × (apply r v ≡ ok v)

Fine-guard :
    (r : Rule) (b : Bool) (code : Code) (v : Value)
    → (b ≡ true → Meets r v × (apply r v ≡ ok v))
    → Fine r (guard b code >> ok v)
Fine-guard r true code v h = h refl
Fine-guard r false code v h = tt

-- What is done with a cleaned text, which is clean.
Fine-clean :
    (r : Rule) (code : Code) (v : Value) (next : Text → Result Code Value)
    → ((t : Text) → IsClean code t → Fine r (next t))
    → Fine r (clean v code >>= next)
unfolding clean
Fine-clean r code (string s) next h = on_result (clean_string code s) refl
  where
    on_result : (c : Result Code Text) → clean_string code s ≡ c → Fine r (c >>= next)
    on_result (err _) e = tt
    on_result (ok t) e = h t (clean_string-IsClean code s t e)
Fine-clean r code _ next h = tt

in_range_same :
    (min max n : ℕ)
    → (ltb n min || ltb max n) ≡ false
    → in_range min max (pos n) ≡ ok (integer (pos n))
unfolding in_range
in_range_same min max n h = rw h refl

in_range-Fine : (min max : ℕ) (z : ℤ) → Fine (integer_in min max) (in_range min max z)
unfolding in_range apply parse_integer
in_range-Fine min max (pos n) = elim (Bool-cases (ltb n min || ltb max n)) [
  | inl e ↦ rw e tt
  | inr e ↦ rw e ((ground arith, ground arith), in_range_same min max n e)
]
in_range-Fine min max (negsuc n) = tt

parse_integer-Fine : (min max : ℕ) (v : Value) → Fine (integer_in min max) (parse_integer min max v)
unfolding parse_integer
parse_integer-Fine min max (string s) =
    Fine-clean (integer_in min max) integer_range (string s) _ (λ t _. on_integer (read_integer t))
  where
    on_integer : (c : Result Code ℤ) → Fine (integer_in min max) (c >>= in_range min max)
    on_integer (err _) = tt
    on_integer (ok z) = in_range-Fine min max z
parse_integer-Fine min max (integer z) = in_range-Fine min max z
parse_integer-Fine min max _ = tt

parse_token-Fine : (n : ℕ) (v : Value) → Fine (token n) (parse_token n v)
unfolding parse_token
parse_token-Fine n v = Fine-clean (token n) invalid_token v _ (λ t c.
    Fine-guard (token n) (leb (length t) n && all is_token_char t) invalid_token (string t) (λ h.
      let (short, known) = (&&_iff (leb (length t) n) (all is_token_char t)).0 h in
      ((c.not_empty, leb→le (length t) n short, known), again_token n t c h)))
  where
    again_token :
        (n : ℕ) (t : Text)
        → IsClean invalid_token t
        → (leb (length t) n && all is_token_char t) ≡ true
        → apply (token n) (string t) ≡ ok (string t)
    again_token n t c h = unfold apply clean in rw (c.stays, h) refl

parse_host-Fine : (v : Value) → Fine host (parse_host v)
unfolding parse_host
parse_host-Fine v = Fine-clean host invalid_host v _ (λ t c.
    Fine-guard host (leb (length t) 253 && not (any is_space t) && is_host t) invalid_host
      (string t) (λ h. ((c.not_empty, ground arith, ground arith, ground arith), again_host t c h)))
  where
    again_host :
        (t : Text)
        → IsClean invalid_host t
        → (leb (length t) 253 && not (any is_space t) && is_host t) ≡ true
        → apply host (string t) ≡ ok (string t)
    again_host t c h = unfold apply clean in rw (c.stays, h) refl

parse_boolean-Fine : (v : Value) → Fine flag (parse_boolean v)
unfolding parse_boolean apply
parse_boolean-Fine (boolean b) = (tt, refl)
parse_boolean-Fine (string s) = ground arith
parse_boolean-Fine _ = tt

parse_enum-Fine : (choices : List Text) (v : Value) → Fine (one_of choices) (parse_enum choices v)
unfolding parse_enum apply
parse_enum-Fine choices (string s) =
    Fine-guard (one_of choices) (any (λ choice. text_eq choice s) choices) _ (string s)
      (λ h. (h, rw h refl))
parse_enum-Fine choices _ = tt

parse_path-Fine : (v : Value) → Fine path (parse_path v)
unfolding parse_path apply
parse_path-Fine (string s) =
    Fine-guard path (leb (length s) 1024 && not (any is_line_control s)) _ (string s)
      (λ h. ((ground arith, ground arith), rw h refl))
parse_path-Fine _ = tt

parse_startup_command-Fine : (v : Value) → Fine startup_command (parse_startup_command v)
unfolding parse_startup_command apply
parse_startup_command-Fine (string s) =
    Fine-guard startup_command (is_empty s || text_eq s tmux_startup_command) _ (string s)
      (λ h. (h, rw h refl))
parse_startup_command-Fine _ = tt

apply-Fine : (r : Rule) (v : Value) → Fine r (apply r v)
unfolding apply
apply-Fine (integer_in min max) v = parse_integer-Fine min max v
apply-Fine (token n) v = parse_token-Fine n v
apply-Fine host v = parse_host-Fine v
apply-Fine path v = parse_path-Fine v
apply-Fine startup_command v = parse_startup_command-Fine v
apply-Fine flag v = parse_boolean-Fine v
apply-Fine (one_of choices) v = parse_enum-Fine choices v

-- A setting that is accepted meets its rule, in its range, of its characters and within its length,
-- and when it is validated again it is accepted as it is.
pub apply-Meets : (r : Rule) (v w : Value) → apply r v ≡ ok w → Meets r w × (apply r w ≡ ok w)
apply-Meets r v w h = subst (Fine r) h (apply-Fine r v)
