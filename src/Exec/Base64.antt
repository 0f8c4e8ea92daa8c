-- ===== src/Exec/Base64.antt =====
-- The base64 text that electron/exec-codec.js checks and that Node's `Buffer` decodes for it.
use usshtc.Prelude.{
  ℕ, zero, suc, ◌+◌, ◌-◌, ◌*◌, ◌/◌, ◌%◌, Bool, true, false, ◌&&◌, ◌||◌, List, [], ◌∷◌, ◌++◌, leb,
  ltb, ◌==◌, if◌then◌else◌,
}
use usshtc.Prelude.Text.{Text}

is_upper : ℕ → Bool
is_upper c = leb b'A' c && leb c b'Z'

is_lower : ℕ → Bool
is_lower c = leb b'a' c && leb c b'z'

pub is_digit : ℕ → Bool
is_digit c = leb b'0' c && leb c b'9'

-- `[A-Za-z0-9+/]`.
pub is_sextet : ℕ → Bool
unfolding is_upper is_lower is_digit
is_sextet c = is_upper c || is_lower c || is_digit c || c == b'+' || c == b'/'

pub is_newline : ℕ → Bool
is_newline c = c == b'\r' || c == b'\n'

-- `[A-Za-z0-9+/=\r\n]`.
unfoldable pub is_wire_char : ℕ → Bool
unfolding is_sextet is_newline
is_wire_char c = is_sextet c || c == b'=' || is_newline c

-- `/^[A-Za-z0-9+/]*={0,2}$/`.
only_padding : ℕ → Text → Bool
only_padding n [] = true
only_padding zero (c ∷ s) = false
only_padding (suc n) (c ∷ s) = c == b'=' && only_padding n s

unfoldable pub is_base64 : Text → Bool
unfolding is_sextet only_padding
is_base64 [] = true
is_base64 (c ∷ s) = if is_sextet c then is_base64 s else only_padding 2 (c ∷ s)

sextet : ℕ → ℕ
unfolding is_upper is_lower is_digit
sextet c =
    if is_upper c
    then c - b'A'
    else if is_lower c
    then c - b'a' + 26
    else if is_digit c
    then c - b'0' + 52
    else if c == b'+'
    then 62
    else 63

digit : ℕ → ℕ
digit v =
    if ltb v 26
    then b'A' + v
    else if ltb v 52
    then b'a' + (v - 26)
    else if ltb v 62
    then b'0' + (v - 52)
    else if v == 62
    then b'+'
    else b'/'

-- One group of four characters; padding stands at its end only.
group_bytes : ℕ → ℕ → ℕ → ℕ → List ℕ
unfolding sextet
group_bytes a b c d =
    let first = sextet a * 4 + sextet b / 16 in
    let second = sextet b % 16 * 16 + sextet c / 4 in
    let third = sextet c % 4 * 64 + sextet d in
    if c == b'='
    then first ∷ []
    else if d == b'='
    then first ∷ second ∷ []
    else first ∷ second ∷ third ∷ []

-- `Buffer.from(groups, 'base64')`, for a text of whole groups.
unfoldable pub decode : Text → List ℕ
unfolding group_bytes
decode (a ∷ b ∷ c ∷ d ∷ groups) = group_bytes a b c d ++ decode groups
decode _ = []

-- `bytes.toString('base64')`.
unfoldable pub encode : List ℕ → Text
unfolding digit
encode [] = []
encode (x ∷ []) = digit (x / 4) ∷ digit (x % 4 * 16) ∷ b'=' ∷ b'=' ∷ []
encode (x ∷ y ∷ []) = digit (x / 4) ∷ digit (x % 4 * 16 + y / 16) ∷ digit (y % 16 * 4) ∷ b'=' ∷ []
encode (x ∷ y ∷ z ∷ bytes) =
    digit (x / 4)
    ∷ digit (x % 4 * 16 + y / 16)
    ∷ digit (y % 16 * 4 + z / 64)
    ∷ digit (z % 64)
    ∷ encode bytes
