-- ===== src/Settings/Host.antt =====
-- shared/settings-schema.mjs, `isIpv4`, `isIpv6` and the labels of `parseHost`.
pub mod Dotted
use usshtc.Prelude.{
  ℕ, zero, suc, ◌+◌, ◌-◌, ◌*◌, Bool, true, false, not, ◌&&◌, ◌||◌, List, [], ◌∷◌, ◌++◌, Option,
  none, some, any, all, if◌then◌else◌, leb, ltb, ◌==◌, length,
}
use usshtc.Prelude.Text.{Text, codes, includes, is_empty, is_space}

abbrev pub is_digit : ℕ → Bool
is_digit c = leb b'0' c && leb c b'9'

abbrev is_upper : ℕ → Bool
is_upper c = leb b'A' c && leb c b'Z'

abbrev is_lower : ℕ → Bool
is_lower c = leb b'a' c && leb c b'z'

abbrev pub is_alphanumeric : ℕ → Bool
is_alphanumeric c = is_digit c || is_upper c || is_lower c

abbrev is_hex : ℕ → Bool
is_hex c = is_digit c || (leb b'a' c && leb c b'f') || (leb b'A' c && leb c b'F')

abbrev add_first : ℕ → List Text → List Text
add_first c [] = (c ∷ []) ∷ []
add_first c (part ∷ parts) = (c ∷ part) ∷ parts

-- `value.split(separator)`, for a separator of one unit.
unfoldable pub split : ℕ → Text → List Text
split separator [] = [] ∷ []
split separator (c ∷ s) =
    let rest = split separator s in if c == separator then [] ∷ rest else add_first c rest

-- `Number(text)` of digits, with the value of the digits before.
unfoldable pub digits_value : ℕ → Text → ℕ
digits_value before [] = before
digits_value before (c ∷ s) = digits_value (before * 10 + (c - b'0')) s

-- `/^(?:0|[1-9]\d{0,2})$/`.
abbrev no_leading_zero : Text → Bool
no_leading_zero [] = false
no_leading_zero (c ∷ s) = not (c == b'0') || is_empty s

unfoldable pub is_octet : Text → Bool
unfolding digits_value
is_octet part =
    all is_digit part
    && no_leading_zero part
    && leb (length part) 3
    && leb (digits_value 0 part) 255

unfoldable pub is_ipv4 : Text → Bool
unfolding is_octet split
is_ipv4 value = let parts = split b'.' value in length parts == 4 && all is_octet parts

-- The text to the last colon, that included, and the text after it, if there is a colon.
split_last : Text → Option (Text × Text)
split_last [] = none
split_last (c ∷ s) = elim (split_last s) [
  | some (before, after) ↦ some (c ∷ before, after)
  | none ↦ if c == b':' then some (c ∷ [], s) else none
]

-- The texts before and after the first `::`.
split_double : Text → Option (Text × Text)
split_double [] = none
split_double (_ ∷ []) = none
split_double (c ∷ d ∷ s) =
    let rest = split_double (d ∷ s) in
    if c == b':' && d == b':'
    then some ([], s)
    else elim rest [ none ↦ none | some (left, right) ↦ some (c ∷ left, right) ]

-- `/^[0-9a-f]{1,4}$/i`.
is_group : Text → Bool
is_group s = not (is_empty s) && leb (length s) 4 && all is_hex s

groups_of : Text → List Text
unfolding split
groups_of s = if is_empty s then [] else split b':' s

abbrev is_absent : Option (Text × Text) → Bool
is_absent none = true
is_absent (some _) = false

-- An address without an IPv4 suffix.
is_ipv6_groups : Text → Bool
unfolding split_double is_group groups_of split
is_ipv6_groups address =
    not (is_empty address)
    && all (λ c. is_hex c || c == b':') address
    && elim (split_double address) [
      | some (left, right) ↦
          let groups = groups_of left ++ groups_of right in
          is_absent (split_double right) && ltb (length groups) 8 && all is_group groups
      | none ↦ let groups = split b':' address in length groups == 8 && all is_group groups
    ]

pub is_ipv6 : Text → Bool
unfolding is_ipv4 split_last is_ipv6_groups
is_ipv6 value =
    if includes value b'.'
    then elim (split_last value) [
      | none ↦ false
      | some (before, after) ↦ is_ipv4 after && is_ipv6_groups (before ++ codes "0:0")
    ]
    else is_ipv6_groups value

last_is_alphanumeric : Text → Bool
last_is_alphanumeric [] = false
last_is_alphanumeric (c ∷ []) = is_alphanumeric c
last_is_alphanumeric (_ ∷ s) = last_is_alphanumeric s

first_is_alphanumeric : Text → Bool
first_is_alphanumeric [] = false
first_is_alphanumeric (c ∷ _) = is_alphanumeric c

unfoldable pub is_label : Text → Bool
unfolding first_is_alphanumeric last_is_alphanumeric
is_label s =
    leb (length s) 63
    && first_is_alphanumeric s
    && last_is_alphanumeric s
    && all (λ c. is_alphanumeric c || c == b'-') s

-- `parseHost` on a text that is cleaned and has no space.
pub is_host : Text → Bool
unfolding is_ipv6 is_ipv4 is_label split
is_host s =
    if includes s b':'
    then is_ipv6 s
    else if all (λ c. is_digit c || c == b'.') s && includes s b'.'
    then is_ipv4 s
    else all is_label (split b'.' s)
