-- ===== src/Scp/Command/Parse.antt =====
-- `parseScpCommand` of electron/scp/command-parser.js.
pub mod Invocation
pub mod Accepted
use usshtc.Prelude.{
  ℕ, ◌+◌, Bool, true, false, not, ◌&&◌, ◌||◌, List, [], ◌∷◌, ◌++◌, Option, none, some, ltb, ◌==◌,
  if◌then◌else◌, Result, ok, err, select, ◌>>=◌,
}
use usshtc.Prelude.Text.{
  Text, codes, is_empty, text_eq, includes, has_control, is_well_formed, is_space, byte_length,
}
use usshtc.Scp.Command.{Word, TokenError, backslash, quote_char, double_quote, tokenize}

-- The segments of a path between its slashes; `current` is the segment that is being read.
pub split_slashes : Text → Text → List Text
split_slashes current [] = current ∷ []
split_slashes current (c ∷ s) =
    let next = split_slashes [] s in
    let more = split_slashes (current ++ c ∷ []) s in if c == b'/' then current ∷ next else more

-- `(?:[^/]+\/)*scp$`, on the segments.
ends_in_scp : List Text → Bool
ends_in_scp [] = false
ends_in_scp (s ∷ []) = text_eq s (codes "scp")
ends_in_scp (s ∷ t ∷ segments) = not (is_empty s) && ends_in_scp (t ∷ segments)

is_absolute_scp : Text → Bool
unfolding split_slashes ends_in_scp
is_absolute_scp [] = false
is_absolute_scp (c ∷ s) = c == b'/' && ends_in_scp (split_slashes [] s)

-- `isScpExecutable`.
unfoldable pub is_scp_executable : Text → Bool
unfolding is_absolute_scp
is_scp_executable value = text_eq value (codes "scp") || is_absolute_scp value

-- A line terminator, which `.` does not match.
is_line_end : ℕ → Bool
is_line_end c = c == 0xa || c == 0xd || c == 0x2028 || c == 0x2029

-- `[^\s'"\\;|&<>]`.
is_prefix_char : ℕ → Bool
is_prefix_char c = not (
    is_space c
    || c == quote_char
    || c == double_quote
    || c == backslash
    || includes (codes ";|&<>") c)

skip_spaces : Text → Text
skip_spaces [] = []
skip_spaces (c ∷ s) = if is_space c then skip_spaces s else c ∷ s

-- The mode of `executable_prefix`: between two alternatives of the group, or behind the quote that
-- opened one.
pub data Inside : Type 0 where
  nothing : Inside
  quoted : ℕ → Inside

-- The longest run of the alternatives. They begin with different characters, so the expression
-- never goes back; `held` is the part of an alternative that is not complete.
executable_prefix : Inside → Text → Text → Text → Text
unfolding is_prefix_char is_line_end
executable_prefix inside [] run held = run
executable_prefix (quoted q) (c ∷ s) run held =
    let closed = executable_prefix nothing s (run ++ held ++ c ∷ []) [] in
    let more = executable_prefix (quoted q) s run (held ++ c ∷ []) in
    if c == q then closed else more
executable_prefix nothing (c ∷ []) run held = if is_prefix_char c then run ++ c ∷ [] else run
executable_prefix nothing (c ∷ d ∷ s) run held =
    let plain = executable_prefix nothing (d ∷ s) (run ++ c ∷ []) [] in
    let escaped = executable_prefix nothing s (run ++ c ∷ d ∷ []) [] in
    let opened = executable_prefix (quoted c) (d ∷ s) run (c ∷ []) in
    if is_prefix_char c
    then plain
    else if c == backslash
    then (if is_line_end d then run else escaped)
    else if c == quote_char || c == double_quote
    then opened
    else run

first_is_scp : List Word → Bool
first_is_scp [] = false
first_is_scp (w ∷ _) = is_scp_executable w.word

names_scp : Result TokenError (List Word) → Bool
names_scp (ok words) = first_is_scp words
names_scp (err e) = false

unfoldable pub recognized : Text → Bool
unfolding executable_prefix skip_spaces names_scp first_is_scp
recognized command = names_scp (tokenize (executable_prefix nothing (skip_spaces command) [] []))

pub data Direction : Type 0 where
  source sink : Direction

-- The messages of `invalid`; the code is always SCP_INVALID_COMMAND.
pub data Invalid : Type 0 where
  too_long bad_characters conflicting_directions unsupported_option no_direction not_one_path
        bad_path_characters remote_to_remote :
      Invalid
  bad_token : TokenError → Invalid

-- The variables of the loop over the words.
pub record Options : Type 0 where
  pub direction : Option Direction
  pub recursive : Bool
  pub preserve : Bool
  pub target_directory : Bool
  pub options : Bool
  pub paths : List Word

abbrev pub no_options : Options
no_options = record {
  direction = none;
  recursive = false;
  preserve = false;
  target_directory = false;
  options = true;
  paths = [];
}

same_direction : Direction → Direction → Bool
same_direction source source = true
same_direction sink sink = true
same_direction source sink = false
same_direction sink source = false

set_direction : Direction → Option Direction → Options → Result Invalid Options
unfolding same_direction
set_direction next none o = ok (record o { direction = some next })
set_direction next (some d) o =
    if same_direction d next
    then ok (record o { direction = some next })
    else err conflicting_directions

one_flag : ℕ → Options → Result Invalid Options
unfolding set_direction
one_flag c o =
    if c == b'f'
    then set_direction source o.direction o
    else if c == b't'
    then set_direction sink o.direction o
    else if c == b'r'
    then ok (record o { recursive = true })
    else if c == b'p'
    then ok (record o { preserve = true })
    else if c == b'd'
    then ok (record o { target_directory = true })
    else if c == b'v' || c == b'q'
    then ok o
    else err unsupported_option

flags : Text → Options → Result Invalid Options
unfolding one_flag
flags [] o = ok o
flags (c ∷ s) o = do o' ← one_flag c o; flags s o'

after_dash : Text → Option Text
after_dash [] = none
after_dash (c ∷ []) = none
after_dash (c ∷ d ∷ s) = if c == b'-' then some (d ∷ s) else none

add_path : Word → Options → Options
add_path w o = record o { options = false; paths = o.paths ++ w ∷ [] }

-- One round of the loop.
one_word : Word → Options → Result Invalid Options
unfolding after_dash flags add_path
one_word w o =
    if o.options && text_eq w.word (codes "--")
    then ok (record o { options = false })
    else if o.options
    then elim (after_dash w.word) [ some letters ↦ flags letters o | none ↦ ok (add_path w o) ]
    else ok (add_path w o)

each_word : List Word → Options → Result Invalid Options
unfolding one_word
each_word [] o = ok o
each_word (w ∷ words) o = do o' ← one_word w o; each_word words o'

-- `/^[^/]*:/u`: a colon before any slash.
unfoldable pub is_remote : Text → Bool
is_remote [] = false
is_remote (c ∷ s) = if c == b':' then true else if c == b'/' then false else is_remote s

letter_eq : ℕ → ℕ → Bool
letter_eq lower c = c == lower || c + 32 == lower

-- `/^scp:\/\//iu`; under these flags U+017F is an s too.
is_scp_url : Text → Bool
unfolding letter_eq
is_scp_url (s ∷ c ∷ p ∷ colon ∷ a ∷ b ∷ _) =
    (letter_eq b's' s || s == 0x17f)
    && letter_eq b'c' c
    && letter_eq b'p' p
    && colon == b':'
    && a == b'/'
    && b == b'/'
is_scp_url _ = false

pub record ScpCommand : Type 0 where
  pub direction : Direction
  pub path : Text
  pub recursive : Bool
  pub preserve : Bool
  pub target_directory : Bool
  pub glob_pattern : Option Text

-- The tests on the one path, and the result.
with_path : Direction → Options → Word → Result Invalid ScpCommand
unfolding is_scp_url is_remote
with_path direction o w =
    if is_empty w.word
    then err not_one_path
    else if has_control w.word
    then err bad_path_characters
    else if is_remote w.word || is_scp_url w.word
    then err remote_to_remote
    else ok (record {
      direction = direction;
      path = w.word;
      recursive = o.recursive;
      preserve = o.preserve;
      target_directory = o.target_directory;
      glob_pattern = elim direction [ source ↦ some w.glob_pattern | sink ↦ none ];
    })

one_path : Direction → Options → List Word → Result Invalid ScpCommand
unfolding with_path
one_path direction o (w ∷ []) = with_path direction o w
one_path direction o _ = err not_one_path

conclude : Options → Option Direction → Result Invalid ScpCommand
unfolding one_path
conclude o none = err no_direction
conclude o (some direction) = one_path direction o o.paths

-- `null`, the invalid result, or the parsed command.
pub data Outcome : Type 0 where
  not_scp : Outcome
  invalid : Invalid → Outcome
  command : ScpCommand → Outcome

to_outcome : Result Invalid ScpCommand → Outcome
to_outcome (ok c) = command c
to_outcome (err e) = invalid e

abbrev pub max_command_bytes : ℕ
max_command_bytes = 32768

arguments : List Word → Outcome
unfolding first_is_scp to_outcome each_word conclude
arguments [] = not_scp
arguments (w ∷ words) =
    if is_scp_executable w.word
    then to_outcome (do o ← each_word words no_options; conclude o o.direction)
    else not_scp

with_tokens : Result TokenError (List Word) → Outcome
unfolding arguments
with_tokens (ok words) = arguments words
with_tokens (err e) = invalid (bad_token e)

-- `parseScpCommand`, on a string.
unfoldable pub parse_scp_command : Text → Outcome
unfolding recognized with_tokens
parse_scp_command text =
    if not (recognized text)
    then not_scp
    else if ltb max_command_bytes (byte_length text)
    then invalid too_long
    else if has_control (select (λ c. not (c == b'\t')) text) || not (is_well_formed text)
    then invalid bad_characters
    else with_tokens (tokenize text)
