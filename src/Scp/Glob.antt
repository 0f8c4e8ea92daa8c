-- ===== src/Scp/Glob.antt =====
-- electron/scp/glob.js: shell patterns for SCP source paths, compiled and matched by filling a table.
pub mod Matches
pub mod Parse
pub mod Literal
mod Tests
use usshtc.Prelude.{
  ℕ, zero, suc, ◌+◌, ◌≤◌, Bool, true, false, not, ◌&&◌, ◌||◌, List, [], ◌∷◌, ◌++◌, length, any, leb,
  ltb, ◌==◌, if◌then◌else◌, Result, ok, err, ◌>>=◌, ◌>>◌, guard,
}
use usshtc.Prelude.Text.{Text, is_empty, includes, has_control, is_well_formed, code_points}
use usshtc.Prelude.EntryName.{entry_name_rejected}

-- The messages of `globError`; the code is always SCP_INVALID_GLOB. `out_of_fuel` belongs to the
-- model only.
pub data GlobError : Type 0 where
  invalid_limit invalid_pattern unterminated_escape recursive unterminated_class reversed_range
        too_complex out_of_fuel :
      GlobError

pub record Limits : Type 0 where
  pub max_pattern_length : ℕ
  pub max_tokens : ℕ
  pub max_name_length : ℕ

abbrev pub default_limits : Limits
default_limits = record { max_pattern_length = 4096; max_tokens = 256; max_name_length = 4096 }

within : ℕ → ℕ → Bool
within value bound = leb 1 value && leb value bound

-- `optionsWithLimits`, where each option is a non-negative integer.
unfoldable pub options_with_limits : Limits → Result GlobError Limits
unfolding within
options_with_limits o =
    if within o.max_pattern_length 4096 && within o.max_tokens 256 && within o.max_name_length 4096
    then ok o
    else err invalid_limit

abbrev pub Ranges : Type 0
Ranges = List (ℕ × ℕ)

-- A token that takes one character.
pub data Test : Type 0 where
  any_char : Test
  literal : ℕ → Test
  class : Bool → Ranges → Test

pub data Token : Type 0 where
  star : Token
  one : Test → Token

-- An entry of `members`: the character and whether it was escaped.
abbrev pub Member : Type 0
Member = ℕ × Bool

-- The loop that reads a class up to its closing bracket, and what stands behind the bracket.
read_members : List ℕ → List Member → Result GlobError (List Member × List ℕ)
read_members [] members = err unterminated_class
read_members (c ∷ []) members =
    if c == b']'
    then ok (members, [])
    else if c == b'\\'
    then err unterminated_escape
    else err unterminated_class
read_members (c ∷ d ∷ chars) members =
    let escaped = read_members chars (members ++ (d, true) ∷ []) in
    let plain = read_members (d ∷ chars) (members ++ (c, false) ∷ []) in
    if c == b']' then ok (members, d ∷ chars) else if c == b'\\' then escaped else plain

-- The loop that turns members into ranges.
build_ranges : List Member → Ranges → Result GlobError Ranges
build_ranges [] ranges = ok ranges
build_ranges ((a, _) ∷ []) ranges = ok (ranges ++ (a, a) ∷ [])
build_ranges ((a, _) ∷ (b, _) ∷ []) ranges = ok ((ranges ++ (a, a) ∷ []) ++ (b, b) ∷ [])
build_ranges ((a, _) ∷ (d, escaped) ∷ (b, quoted) ∷ members) ranges =
    let range = build_ranges members (ranges ++ (a, b) ∷ []) in
    let single = build_ranges ((d, escaped) ∷ (b, quoted) ∷ members) (ranges ++ (a, a) ∷ []) in
    if d == b'-' && not escaped then if ltb b a then err reversed_range else range else single

starts_negated : List ℕ → Bool
starts_negated (unit ∷ _) = unit == b'!' || unit == b'^'
starts_negated [] = false

after_negation : List ℕ → List ℕ
after_negation [] = []
after_negation (c ∷ chars) = if c == b'!' || c == b'^' then chars else c ∷ chars

-- A bracket in the first place is a member.
class_members : List ℕ → Result GlobError (List Member × List ℕ)
unfolding read_members
class_members [] = err unterminated_class
class_members (c ∷ chars) =
    if c == b']' then read_members chars ((c, false) ∷ []) else read_members (c ∷ chars) []

read_class : List ℕ → Result GlobError (Token × List ℕ)
read_class chars = do
  (members, rest) ← class_members (after_negation chars)
  ranges ← build_ranges members []
  ok (one (class (starts_negated chars) ranges), rest)

ends_in_star : List Token → Bool
ends_in_star [] = false
ends_in_star (star ∷ []) = true
ends_in_star (one _ ∷ []) = false
ends_in_star (_ ∷ t ∷ tokens) = ends_in_star (t ∷ tokens)

escaped_char : List ℕ → Result GlobError (Token × List ℕ)
escaped_char [] = err unterminated_escape
escaped_char (d ∷ chars) = ok (one (literal d), chars)

-- The branches of the loop: the token that is pushed, and the characters behind it.
next_token : ℕ → List ℕ → List Token → Result GlobError (Token × List ℕ)
next_token c chars tokens =
    if c == b'\\'
    then escaped_char chars
    else if c == b'*'
    then (if ends_in_star tokens then err recursive else ok (star, chars))
    else if c == b'?'
    then ok (one any_char, chars)
    else if c == b'['
    then read_class chars
    else ok (one (literal c), chars)

-- `magic` is set by these three characters.
is_magic : ℕ → Bool
is_magic c = c == b'*' || c == b'?' || c == b'['

-- The loop over the pattern. Every round takes a character, so the pattern's length is fuel enough.
parse_loop : ℕ → ℕ → List ℕ → List Token → Bool → Result GlobError (List Token × Bool)
parse_loop fuel limit [] tokens magic = ok (tokens, magic)
parse_loop zero limit (c ∷ chars) tokens magic = err out_of_fuel
parse_loop (suc fuel) limit (c ∷ chars) tokens magic = do
  (token, rest) ← next_token c chars tokens
  guard (leb (length tokens + 1) limit) too_complex
  parse_loop fuel limit rest (tokens ++ token ∷ []) (magic || is_magic c)

unfoldable pub pattern_rejected : Text → Limits → Bool
pattern_rejected pattern_text options =
    is_empty pattern_text
    || ltb options.max_pattern_length (length pattern_text)
    || not (is_well_formed pattern_text)
    || includes pattern_text b'/'
    || has_control pattern_text

-- `parsePattern`.
parse_pattern : Text → Limits → Result GlobError (List Token × Bool)
parse_pattern pattern_text options =
    if pattern_rejected pattern_text options
    then err invalid_pattern
    else parse_loop (length (code_points pattern_text)) options.max_tokens
        (code_points pattern_text) [] false

in_ranges : Ranges → ℕ → Bool
in_ranges ranges c = any (λ (lo, hi). leb lo c && leb c hi) ranges

unfoldable pub accepts : Test → ℕ → Bool
unfolding in_ranges
accepts any_char c = true
accepts (literal x) c = x == c
accepts (class negative ranges) c =
    if negative then not (in_ranges ranges c) else in_ranges ranges c

-- `next` for a star: `next[0] = previous[0]`, `next[i] = previous[i] || next[i - 1]`. The first
-- argument is the entry written last, false before the first.
star_row : Bool → List Bool → List Bool
star_row last [] = []
star_row last (b ∷ previous) = (b || last) ∷ star_row (b || last) previous

-- `next[1]` and on for a token of one character: `previous[i - 1]` and the character is accepted.
char_row : Test → List Bool → List ℕ → List Bool
char_row t [] chars = []
char_row t (b ∷ previous) [] = []
char_row t (b ∷ previous) (c ∷ chars) = (b && accepts t c) ∷ char_row t previous chars

next_row : Token → List Bool → List ℕ → List Bool
next_row star previous chars = star_row false previous
next_row (one t) previous chars = false ∷ char_row t previous chars

table : List Token → List Bool → List ℕ → List Bool
table [] previous chars = previous
table (t ∷ tokens) previous chars = table tokens (next_row t previous chars) chars

-- `new Uint8Array(n)`, all zero.
zeros : List ℕ → List Bool
zeros [] = []
zeros (_ ∷ chars) = false ∷ zeros chars

last_entry : List Bool → Bool
last_entry [] = false
last_entry (b ∷ []) = b
last_entry (_ ∷ c ∷ row) = last_entry (c ∷ row)

pub run_table : List Token → List ℕ → Bool
run_table tokens chars = last_entry (table tokens (true ∷ zeros chars) chars)

starts_with_dot : Text → Bool
starts_with_dot [] = false
starts_with_dot (c ∷ _) = c == b'.'

explicit_dot : List Token → Bool
explicit_dot [] = false
explicit_dot (star ∷ _) = false
explicit_dot (one any_char ∷ _) = false
explicit_dot (one (literal c) ∷ _) = c == b'.'
explicit_dot (one (class _ _) ∷ _) = false

-- The guard of `test`; the length is tested second.
name_rejected : Text → Limits → Bool
name_rejected name bounds = ltb bounds.max_name_length (length name) || entry_name_rejected name

-- The matcher that `compileGlob` returns: its `magic`, and what `test` closes over.
pub record Glob : Type 0 where
  pub magic : Bool
  pub tokens : List Token
  pub bounds : Limits

-- `compileGlob`.
pub compile_glob : Text → Limits → Result GlobError Glob
compile_glob pattern_text options = do
  bounds ← options_with_limits options
  (tokens, magic) ← parse_pattern pattern_text bounds
  ok (record { magic = magic; tokens = tokens; bounds = bounds })

-- `test`.
pub test : Glob → Text → Bool
test g name =
    if name_rejected name g.bounds
    then false
    else if starts_with_dot name && not (explicit_dot g.tokens)
    then false
    else run_table g.tokens (code_points name)

-- `matchGlob`.
pub match_glob : Text → Text → Limits → Result GlobError Bool
unfolding compile_glob test options_with_limits within parse_pattern pattern_rejected parse_loop
    next_token read_class starts_negated after_negation class_members read_members build_ranges
    ends_in_star escaped_char is_magic name_rejected starts_with_dot explicit_dot run_table table
    next_row star_row char_row zeros last_entry accepts
match_glob pattern_text name options = do g ← compile_glob pattern_text options; ok (test g name)

-- `hasGlobMagic`.
pub has_glob_magic : Text → Limits → Result GlobError Bool
has_glob_magic pattern_text options = do
  bounds ← options_with_limits options
  (_, magic) ← parse_pattern pattern_text bounds
  ok magic
