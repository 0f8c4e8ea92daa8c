-- ===== src/Settings/Rules.antt =====
-- shared/settings-schema.mjs, the parsers of single settings and the table `validators`.
pub mod Accepted
use usshtc.Prelude.{
  ℕ, zero, suc, ◌+◌, ◌-◌, ◌*◌, Bool, true, false, not, ◌&&◌, ◌||◌, List, [], ◌∷◌, ◌++◌, Option,
  none, some, any, all, if◌then◌else◌, leb, ltb, ◌==◌, length, Result, ok, err, guard, ◌>>=◌, ◌>>◌,
}
use usshtc.Prelude.Text.{Text, codes, text_eq, is_empty, is_space}
use usshtc.Prelude.Dynamic.{
  Value, undefined, null, string, integer, boolean, fraction, object, pos, negsuc, ℤ,
}
use usshtc.Settings.Clean.{
  Code, required, integer_range, invalid_token, invalid_host, invalid_boolean, invalid_enum,
  invalid_path, invalid_startup_command, unknown_key, clean_string, is_line_control,
}
use usshtc.Settings.Host.{is_digit, is_alphanumeric, digits_value, is_host}

-- A parser with its bounds or choices.
pub data Rule : Type 0 where
  integer_in : (min max : ℕ) → Rule
  token : (max_length : ℕ) → Rule
  host path startup_command flag : Rule
  one_of : (choices : List Text) → Rule

-- `value == null ? 'required' : code`.
abbrev not_text : Value → Code → Code
not_text undefined code = required
not_text null code = required
not_text _ code = code

-- `cleanString`.
unfoldable pub clean : Value → Code → Result Code Text
unfolding clean_string
clean (string s) code = clean_string code s
clean v code = err (not_text v code)

-- `parsed < min || parsed > max`, for bounds that are not negative.
unfoldable pub in_range : ℕ → ℕ → ℤ → Result Code Value
in_range min max (pos n) =
    if ltb n min || ltb max n then err integer_range else ok (integer (pos n))
in_range min max (negsuc n) = err integer_range

-- `Number` of a text that the pattern accepts.
abbrev negated : ℕ → ℤ
negated zero = pos 0
negated (suc n) = negsuc n

abbrev are_digits : Text → Bool
are_digits s = not (is_empty s) && all is_digit s

-- `/^[+-]?\d+$/`, with the number.
unfoldable pub read_integer : Text → Result Code ℤ
unfolding digits_value
read_integer [] = err integer_range
read_integer (c ∷ s) =
    if c == b'-'
    then guard (are_digits s) integer_range >> ok (negated (digits_value 0 s))
    else if c == b'+'
    then guard (are_digits s) integer_range >> ok (pos (digits_value 0 s))
    else guard (are_digits (c ∷ s)) integer_range >> ok (pos (digits_value 0 (c ∷ s)))

unfoldable pub parse_integer : ℕ → ℕ → Value → Result Code Value
unfolding clean in_range read_integer
parse_integer min max undefined = err required
parse_integer min max null = err required
parse_integer min max (string s) = do
  trimmed ← clean (string s) integer_range
  parsed ← read_integer trimmed
  in_range min max parsed
parse_integer min max (integer z) = in_range min max z
parse_integer min max _ = err integer_range

abbrev pub is_token_char : ℕ → Bool
is_token_char c = is_alphanumeric c || c == b'.' || c == b'_' || c == b'-'

parse_token : ℕ → Value → Result Code Value
unfolding clean
parse_token max_length v = do
  trimmed ← clean v invalid_token
  guard (leb (length trimmed) max_length && all is_token_char trimmed) invalid_token
  ok (string trimmed)

parse_host : Value → Result Code Value
unfolding clean
parse_host v = do
  trimmed ← clean v invalid_host
  guard (leb (length trimmed) 253 && not (any is_space trimmed) && is_host trimmed) invalid_host
  ok (string trimmed)

parse_boolean : Value → Result Code Value
parse_boolean (boolean b) = ok (boolean b)
parse_boolean (string s) =
    if text_eq s (codes "true")
    then ok (boolean true)
    else if text_eq s (codes "false")
    then ok (boolean false)
    else err invalid_boolean
parse_boolean _ = err invalid_boolean

parse_enum : List Text → Value → Result Code Value
parse_enum choices (string s) =
    guard (any (λ choice. text_eq choice s) choices) invalid_enum >> ok (string s)
parse_enum choices _ = err invalid_enum

parse_path : Value → Result Code Value
parse_path (string s) =
    guard (leb (length s) 1024 && not (any is_line_control s)) invalid_path >> ok (string s)
parse_path _ = err invalid_path

abbrev pub tmux_startup_command : Text
tmux_startup_command = codes "tmux new -A -s usshtc"

parse_startup_command : Value → Result Code Value
parse_startup_command (string s) =
    guard (is_empty s || text_eq s tmux_startup_command) invalid_startup_command >> ok (string s)
parse_startup_command _ = err invalid_startup_command

unfoldable pub apply : Rule → Value → Result Code Value
unfolding parse_integer parse_token parse_host parse_boolean parse_enum parse_path
    parse_startup_command
apply (integer_in min max) v = parse_integer min max v
apply (token max_length) v = parse_token max_length v
apply host v = parse_host v
apply path v = parse_path v
apply startup_command v = parse_startup_command v
apply flag v = parse_boolean v
apply (one_of choices) v = parse_enum choices v

abbrev pub validators : List (Text × Rule)
validators =
    (codes "port", integer_in 1 65535)
    ∷ (codes "host", host)
    ∷ (codes "cluster", token 128)
    ∷ (codes "loginNode", host)
    ∷ (codes "path", path)
    ∷ (codes "startupCommand", startup_command)
    ∷ (codes "healthProbeEnabled", flag)
    ∷ (codes "validateTokenPeriodically", flag)
    ∷ (codes "scpMaxFileBytes", integer_in 1 1073741824)
    ∷ (codes "scpNoOverwrite", flag)
    ∷ (codes "cols", integer_in 40 500)
    ∷ (codes "rows", integer_in 10 200)
    ∷ (codes "useRoot", flag)
    ∷ (codes "autoConnect", flag)
    ∷ (codes "sshAlias", token 64)
    ∷ (codes "startMinimized", flag)
    ∷ (codes "theme", one_of (codes "dark" ∷ codes "light" ∷ []))
    ∷ (codes "locale", one_of (codes "en" ∷ codes "zh" ∷ []))
    ∷ (codes "launchAtLogin", flag)
    ∷ (codes "reconnectOnResume", flag)
    ∷ (codes "autoCheckUpdates", flag)
    ∷ (codes "notifyConnections", flag)
    ∷ (codes "notifyAuth", flag)
    ∷ (codes "notifyRecovery", flag)
    ∷ (codes "notifyUpdates", flag)
    ∷ []
