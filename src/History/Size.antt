-- ===== src/History/Size.antt =====
-- electron/session-history-store.js, `serializedBytes`: the UTF-8 bytes of what
-- `JSON.stringify(documentFor(sessions), null, 2)` writes, with the line feed after it.
use usshtc.Prelude.{
  ℕ, zero, suc, ◌+◌, ◌/◌, ◌≡◌, ◌&&◌, ◌||◌, List, [], ◌∷◌, Option, none, some, ltb, ◌==◌,
  if◌then◌else◌, length, arith,
}
use usshtc.Prelude.Text.{Text, codes, is_high, is_low}
use usshtc.History.Records.{Session}

-- A character of a JSON string: some have an escape of two bytes, the other controls one of six, and
-- so has a lone surrogate.
char_bytes : ℕ → ℕ
char_bytes c =
    if c == 0x22 || c == 0x5c || c == 0x8 || c == 0x9 || c == 0xa || c == 0xc || c == 0xd
    then 2
    else if ltb c 0x20 || is_high c || is_low c
    then 6
    else if ltb c 0x80
    then 1
    else if ltb c 0x800
    then 2
    else 3

chars_bytes : Text → ℕ
unfolding char_bytes
chars_bytes [] = 0
chars_bytes (c ∷ []) = char_bytes c
chars_bytes (c ∷ d ∷ s) =
    let paired = chars_bytes s in
    let single = chars_bytes (d ∷ s) in
    if is_high c && is_low d then 4 + paired else char_bytes c + single

string_bytes : Text → ℕ
unfolding chars_bytes
string_bytes s = 2 + chars_bytes s

-- The decimal digits of `n`, which are not more than the fuel `suc n`.
digits : ℕ → ℕ → ℕ
digits zero n = 1
digits (suc fuel) n = let rest = digits fuel (n / 10) in if ltb n 10 then 1 else suc rest

number_bytes : ℕ → ℕ
unfolding digits
number_bytes n = digits n n

maybe_number_bytes : Option ℕ → ℕ
unfolding number_bytes
maybe_number_bytes none = 4
maybe_number_bytes (some n) = number_bytes n

maybe_string_bytes : Option Text → ℕ
unfolding string_bytes
maybe_string_bytes none = 4
maybe_string_bytes (some s) = string_bytes s

-- A property on a line of its own, indented by six: the name in quotes, a colon and a space.
property_bytes : Text → ℕ → ℕ
property_bytes name value = 6 + (length name + 2) + 2 + value

-- An item, indented by four: the braces on lines of their own, and eight of `,\\n` between the nine
-- properties.
record_bytes : Session → ℕ
unfolding property_bytes string_bytes number_bytes maybe_number_bytes maybe_string_bytes
record_bytes r =
    6
    + 6
    + 16
    + property_bytes (codes "id") (string_bytes r.id)
    + property_bytes (codes "profileId") (string_bytes r.profile_id)
    + property_bytes (codes "kind") (string_bytes r.kind)
    + property_bytes (codes "startedAt") (number_bytes r.started_at)
    + property_bytes (codes "endedAt") (maybe_number_bytes r.ended_at)
    + property_bytes (codes "bytesSent") (number_bytes r.bytes_sent)
    + property_bytes (codes "bytesReceived") (number_bytes r.bytes_received)
    + property_bytes (codes "exitCode") (maybe_number_bytes r.exit_code)
    + property_bytes (codes "reason") (maybe_string_bytes r.reason)

items_bytes : List Session → ℕ
unfolding record_bytes
items_bytes [] = 0
items_bytes (r ∷ []) = record_bytes r
items_bytes (r ∷ s ∷ rest) = record_bytes r + 2 + items_bytes (s ∷ rest)

-- The document without items: two braces, the line of the version and the line of `[]`.
unfoldable pub envelope : ℕ
envelope = 2 + (2 + 15 + 2 + 1 + 2) + (2 + 10 + 2 + 2 + 1) + 2

-- The brackets of a list with items stand apart by a line feed, and a line feed and two spaces.
pub serialized_bytes : List Session → ℕ
unfolding items_bytes envelope
serialized_bytes [] = envelope
serialized_bytes (r ∷ rest) = envelope + 4 + items_bytes (r ∷ rest)

-- The bytes of a session with those of a separator.
unfoldable pub with_separator : Session → ℕ
unfolding record_bytes
with_separator r = record_bytes r + 2

unfoldable pub all_with_separators : List Session → ℕ
unfolding with_separator
all_with_separators [] = 0
all_with_separators (r ∷ rest) = with_separator r + all_with_separators rest

items_bytes-all :
    (r : Session) (rest : List Session)
    → items_bytes (r ∷ rest) + 2 ≡ all_with_separators (r ∷ rest)
unfolding items_bytes all_with_separators with_separator
items_bytes-all r [] = omega arith
items_bytes-all r (s ∷ rest) = omega (arith, items_bytes-all s rest)

-- The size of a document that has items is a sum over its items.
pub serialized_bytes-items :
    (r : Session) (rest : List Session)
    → serialized_bytes (r ∷ rest) ≡ serialized_bytes [] + 2 + all_with_separators (r ∷ rest)
unfolding serialized_bytes
serialized_bytes-items r rest = omega (arith, items_bytes-all r rest)
