-- ===== src/Scp/Command.antt =====
-- electron/scp/command-parser.js: the words of a remote command, and the SCP invocations among them.
pub mod Quoting
pub mod Parse
pub mod Request
mod Tests
use usshtc.Prelude.{
  ℕ, zero, suc, ◌+◌, ◌≤◌, Bool, true, false, not, ◌&&◌, ◌||◌, List, [], ◌∷◌, ◌++◌, Option, none,
  some, length, any, ltb, ◌==◌, if◌then◌else◌, Result, ok, err, ◌>>=◌, ◌>>◌, guard, append-nil,
}
use usshtc.Prelude.Text.{Text, codes, is_empty, text_eq, includes, has_control, is_well_formed}

-- A word with the pattern that stands for it: characters that the shell would take literally are
-- escaped in the pattern.
pub record Word : Type 0 where
  pub word : Text
  pub glob_pattern : Text

pub data TokenError : Type 0 where
  unterminated_escape expansion operator unterminated_quote : TokenError

pub data Quote : Type 0 where
  bare single double : Quote

abbrev pub quote_char : ℕ
quote_char = b'\''

abbrev pub double_quote : ℕ
double_quote = 34

abbrev pub backslash : ℕ
backslash = 92

abbrev pub backtick : ℕ
backtick = 96

-- What `append` adds to `globPattern`.
pub pattern_unit : ℕ → Bool → Text
pattern_unit c literal =
    if c == backslash || (literal && includes (codes "*?[]") c) then backslash ∷ c ∷ [] else c ∷ []

-- The variables of `tokenize`.
pub record State : Type 0 where
  pub words : List Word
  pub word : Text
  pub pattern_text : Text
  pub started : Bool

abbrev pub start : State
start = record { words = []; word = []; pattern_text = []; started = false }

unfoldable pub append : ℕ → Bool → State → State
append c literal s = record s {
  word = s.word ++ c ∷ [];
  pattern_text = s.pattern_text ++ pattern_unit c literal;
}

unfoldable pub begin : State → State
begin s = record s { started = true }

unfoldable pub finish : State → State
finish s =
    let words =
      if s.started
      then s.words ++ (record { word = s.word; glob_pattern = s.pattern_text }) ∷ []
      else s.words in
    record { words = words; word = []; pattern_text = []; started = false }

-- After a backslash in double quotes only these lose it.
escapes_in_double : ℕ → Bool
escapes_in_double c = c == b'$' || c == backtick || c == double_quote || c == backslash

unfoldable pub escape_next : Bool → ℕ → State → State
unfolding escapes_in_double append begin
escape_next in_double next s =
    let kept = if in_double && not (escapes_in_double next) then append backslash true s else s in
    begin (append next true kept)

unfoldable pub is_operator : ℕ → Bool → Bool
is_operator c started =
    includes (codes ";&|<>(){}$`") c || (c == b'~' && not started) || (c == b'#' && not started)

-- The loop of `tokenize`, by the quote that is open. In single quotes every character but the quote
-- is literal; elsewhere a backslash takes the next one.
unfoldable pub scan : Quote → Text → State → Result TokenError (List Word)
scan bare [] s = ok (finish s).words
scan single [] s = err unterminated_quote
scan double [] s = err unterminated_quote
scan single (c ∷ cs) s =
    let closed = scan bare cs s in
    let more = scan single cs (append c true s) in if c == quote_char then closed else more
scan double (c ∷ []) s =
    if c == backslash
    then err unterminated_escape
    else if c == double_quote
    then ok (finish s).words
    else if c == b'$' || c == backtick
    then err expansion
    else err unterminated_quote
scan double (c ∷ d ∷ cs) s =
    let escaped = scan double cs (escape_next true d s) in
    let closed = scan bare (d ∷ cs) s in
    let more = scan double (d ∷ cs) (append c true s) in
    if c == backslash
    then escaped
    else if c == double_quote
    then closed
    else if c == b'$' || c == backtick
    then err expansion
    else more
scan bare (c ∷ []) s =
    if c == backslash
    then err unterminated_escape
    else if c == b' ' || c == b'\t'
    then ok (finish (finish s)).words
    else if c == quote_char || c == double_quote
    then err unterminated_quote
    else if is_operator c s.started
    then err operator
    else ok (finish (begin (append c false s))).words
scan bare (c ∷ d ∷ cs) s =
    let escaped = scan bare cs (escape_next false d s) in
    let next_word = scan bare (d ∷ cs) (finish s) in
    let opened = scan single (d ∷ cs) (begin s) in
    let opened_double = scan double (d ∷ cs) (begin s) in
    let more = scan bare (d ∷ cs) (begin (append c false s)) in
    if c == backslash
    then escaped
    else if c == b' ' || c == b'\t'
    then next_word
    else if c == quote_char
    then opened
    else if c == double_quote
    then opened_double
    else if is_operator c s.started
    then err operator
    else more

-- `tokenize`, with the patterns.
unfoldable pub tokenize : Text → Result TokenError (List Word)
tokenize command = scan bare command start
