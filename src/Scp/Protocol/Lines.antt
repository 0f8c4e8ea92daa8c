-- ===== src/Scp/Protocol/Lines.antt =====
-- The records of electron/scp/protocol.js as lines: the patterns of `readRecord`, and the texts of
-- `writeRecord`.
use usshtc.Prelude.{
  ℕ, ◌+◌, ◌-◌, ◌*◌, ◌/◌, ◌%◌, Bool, not, ◌&&◌, ◌||◌, [], ◌∷◌, ◌++◌, Option, none, some,
  if◌then◌else◌, leb, ◌==◌, any, all, Result, ok, err, guard, ◌>>=◌, ◌>>◌,
}
use usshtc.Prelude.Text.{Text, is_empty, has_control, is_well_formed}
use usshtc.Prelude.EntryName.{entry_name_rejected}
use usshtc.Prelude.Decimal.{is_digit, decimal, value_from}
use usshtc.Scp.Protocol.Limits.{
  ProtocolError, invalid_name, invalid_characters, malformed_entry, malformed_time, unknown_record,
  invalid_number, directory_size, invalid_message, Limits, bounded,
}

pub data Record : Type 0 where
  ack end_entry : Record
  -- whether it is fatal, and the message
  peer_error : Bool → Text → Record
  -- whether it is a directory, the mode, the size and the name
  entry : Bool → ℕ → ℕ → Text → Record
  -- the times of modification and access, each with its microseconds
  times : ℕ → ℕ → ℕ → ℕ → Record

unfoldable pub validate_name : Text → Result ProtocolError Text
validate_name name = if entry_name_rejected name then err invalid_name else ok name

abbrev is_octal : ℕ → Bool
is_octal c = leb b'0' c && leb c b'7'

-- `.` of a regular expression with the flag `u` matches none of these.
abbrev pub is_line_end : ℕ → Bool
is_line_end c = c == 0xa || c == 0xd || c == 0x2028 || c == 0x2029

-- The digits that a text begins with, and the rest.
unfoldable pub split_digits : Text → Text × Text
split_digits [] = ([], [])
split_digits (c ∷ s) =
    let (digits, rest) = split_digits s in if is_digit c then (c ∷ digits, rest) else ([], c ∷ s)

-- `([0-9]+) ` at the start of what `split_digits` has split, and the rest.
unfoldable pub number_of : Text → Text → Option (ℕ × Text)
number_of [] rest = none
number_of (c ∷ digits) [] = none
number_of (c ∷ digits) (d ∷ rest) =
    if d == b' ' then some (value_from 0 (c ∷ digits), rest) else none

unfoldable pub number_field : Text → Option (ℕ × Text)
unfolding split_digits number_of
number_field s = number_of (split_digits s).0 (split_digits s).1

-- `([0-9]+)$`.
unfoldable pub last_number : Text → Option ℕ
last_number s = if all is_digit s && not (is_empty s) then some (value_from 0 s) else none

-- `([0-7]{4}) `, and the rest.
unfoldable pub mode_field : Text → Option (ℕ × Text)
mode_field (a ∷ b ∷ c ∷ d ∷ e ∷ rest) =
    if is_octal a && is_octal b && is_octal c && is_octal d && e == b' '
    then some ((a - b'0') * 512 + (b - b'0') * 64 + (c - b'0') * 8 + (d - b'0'), rest)
    else none
mode_field _ = none

infixl 5 ◌>>=?◌
abbrev ◌>>=?◌ {ℓ κ} : {A : Type ℓ} {B : Type κ} → Option A → (A → Option B) → Option B
none >>=? next = none
some value >>=? next = next value

-- `/^([0-7]{4}) ([0-9]+) (.+)$/u`.
unfoldable pub entry_match : Text → Option (ℕ × ℕ × Text)
unfolding mode_field number_field
entry_match s = mode_field s >>=? λ mode. number_field mode.1 >>=? λ size.
    if not (is_empty size.1) && not (any is_line_end size.1)
    then some (mode.0, size.0, size.1)
    else none

-- `/^([0-9]+) ([0-9]+) ([0-9]+) ([0-9]+)$/u`.
unfoldable pub time_match : Text → Option (ℕ × ℕ × ℕ × ℕ)
unfolding number_field last_number
time_match s = number_field s >>=? λ a. number_field a.1 >>=? λ b.
    number_field b.1 >>=? λ c. last_number c.1 >>=? λ d. some (a.0, b.0, c.0, d)

unfoldable pub entry_record : Bool → Limits → Option (ℕ × ℕ × Text) → Result ProtocolError Record
unfolding bounded validate_name
entry_record directory limits none = err malformed_entry
entry_record directory limits (some (mode, size, name)) = do
  checked ← bounded size limits.max_file_bytes invalid_number
  guard (not (directory && not (checked == 0))) directory_size
  safe ← validate_name name
  ok (entry directory mode checked safe)

abbrev pub max_microseconds : ℕ
max_microseconds = 999999

abbrev pub max_integer : ℕ
max_integer = 9007199254740991

unfoldable pub time_record : Option (ℕ × ℕ × ℕ × ℕ) → Result ProtocolError Record
unfolding bounded
time_record none = err malformed_time
time_record (some (mtime, mtime_usec, atime, atime_usec)) = do
  a ← bounded mtime max_integer invalid_number
  b ← bounded mtime_usec max_microseconds invalid_number
  c ← bounded atime max_integer invalid_number
  d ← bounded atime_usec max_microseconds invalid_number
  ok (times a b c d)

-- `readRecord` after the line of a type other than 0.
unfoldable pub parse_line : Limits → ℕ → Text → Result ProtocolError Record
unfolding entry_match time_match entry_record time_record
parse_line limits type line =
    if has_control line
    then err invalid_characters
    else if type == 1 || type == 2
    then ok (peer_error (type == 2) line)
    else if type == 69 && is_empty line
    then ok end_entry
    else if type == 67 || type == 68
    then entry_record (type == 68) limits (entry_match line)
    else if type == 84
    then time_record (time_match line)
    else err unknown_record

-- `mode.toString(8).padStart(4, '0')` of a mode of four digits.
unfoldable pub octal : ℕ → Text
octal mode =
    (b'0' + mode / 512 % 8)
    ∷ (b'0' + mode / 64 % 8)
    ∷ (b'0' + mode / 8 % 8)
    ∷ (b'0' + mode % 8)
    ∷ []

abbrev pub space : Text → Text → Text
space s t = s ++ b' ' ∷ t

unfoldable pub message_checked : Text → Result ProtocolError Text
message_checked message =
    if is_empty message || not (is_well_formed message) || has_control message
    then err invalid_message
    else ok message

-- The type and the text of the line that `writeRecord` writes; an acknowledgement has none.
unfoldable pub print_line : Limits → Record → Result ProtocolError (Option (ℕ × Text))
unfolding bounded validate_name octal message_checked
print_line limits ack = ok none
print_line limits end_entry = ok (some (69, []))
print_line limits (peer_error fatal message) = do
  checked ← message_checked message
  ok (some (if fatal then 2 else 1, checked))
print_line limits (entry directory mode size name) = do
  checked ← bounded mode 4095 invalid_number
  n ← bounded size limits.max_file_bytes invalid_number
  guard (not (directory && not (n == 0))) directory_size
  safe ← validate_name name
  ok (some (if directory then 68 else 67, space (octal checked) (space (decimal n) safe)))
print_line limits (times mtime mtime_usec atime atime_usec) = do
  a ← bounded mtime max_integer invalid_number
  b ← bounded mtime_usec max_microseconds invalid_number
  c ← bounded atime max_integer invalid_number
  d ← bounded atime_usec max_microseconds invalid_number
  ok (some (84, space (decimal a) (space (decimal b) (space (decimal c) (decimal d)))))
