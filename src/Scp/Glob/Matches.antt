-- ===== src/Scp/Glob/Matches.antt =====
-- What it means for a name to match a pattern, with no table in it, and the proof that the table of
-- electron/scp/glob.js decides it.
use mathlib.Core.Path.{subst}
use usshtc.Prelude.{
  ◌≤◌, ◌==◌, ==_iff, ℕ, suc, ◌≡◌, refl, sym, ◌↔◌, ◌⊎◌, inl, inr, Bool, true, false, not, ◌&&◌, ◌||◌,
  List, [], ◌∷◌, arith, length, Bool-cases,
}
use usshtc.Prelude.Text.{Text, code_points}
use usshtc.Prelude.EntryName.{IsEntryName, IsEntryName-iff}
use usshtc.Scp.Glob.{
  any_char, literal, class, Test, Token, any_char, literal, class, star, one, accepts, star_row,
  char_row, next_row, table, zeros, last_entry, run_table, Glob, test, name_rejected,
  starts_with_dot, explicit_dot,
}

pub data Matches : List Token → List ℕ → Type 0 where
  done : Matches [] []
  char :
      {t : Test} {c : ℕ} {tokens : List Token} {chars : List ℕ}
      → accepts t c ≡ true
      → Matches tokens chars
      → Matches (one t ∷ tokens) (c ∷ chars)
  leave :
      {tokens : List Token} {chars : List ℕ} → Matches tokens chars → Matches (star ∷ tokens) chars
  take :
      {c : ℕ} {tokens : List Token} {chars : List ℕ}
      → Matches (star ∷ tokens) chars
      → Matches (star ∷ tokens) (c ∷ chars)

-- Entry i of the row is set, and the tokens that are left match the characters from i on, for some i.
abbrev Live : List Bool → List ℕ → List Token → Type 0
Live [] chars tokens = ⊥
Live (b ∷ row) [] tokens = (b ≡ true) × Matches tokens []
Live (b ∷ row) (c ∷ chars) tokens =
    ((b ≡ true) × Matches tokens (c ∷ chars)) ⊎ Live row chars tokens

star_end : (tokens : List Token) → Matches (star ∷ tokens) [] → Matches tokens []
star_end tokens (leave d) = d

one_end : {t : Test} {tokens : List Token} → ¬ Matches (one t ∷ tokens) []
one_end d = elim d [ ]

star_split :
    {c : ℕ} {tokens : List Token} {chars : List ℕ}
    → Matches (star ∷ tokens) (c ∷ chars)
    → Matches tokens (c ∷ chars) ⊎ Matches (star ∷ tokens) chars
star_split (leave d) = inl d
star_split (take d) = inr d

one_split :
    {t : Test} {c : ℕ} {tokens : List Token} {chars : List ℕ}
    → Matches (one t ∷ tokens) (c ∷ chars)
    → (accepts t c ≡ true) × Matches tokens chars
one_split (char h d) = (h, d)

Live-first :
    (b : Bool) (row : List Bool) (chars : List ℕ) (tokens : List Token)
    → Live (b ∷ row) chars tokens
    → ((b ≡ true) × Matches tokens chars) ⊎ Live (false ∷ row) chars tokens
Live-first b row [] tokens h = inl h
Live-first b row (c ∷ chars) tokens (inl h) = inl h
Live-first b row (c ∷ chars) tokens (inr h) = inr (inr h)

Live-here :
    (row : List Bool) (chars : List ℕ) (tokens : List Token)
    → Matches tokens chars
    → Live (true ∷ row) chars tokens
Live-here row [] tokens d = (refl, d)
Live-here row (c ∷ chars) tokens d = inl (refl, d)

Live-later :
    (b : Bool) (row : List Bool) (chars : List ℕ) (tokens : List Token)
    → Live (false ∷ row) chars tokens
    → Live (b ∷ row) chars tokens
Live-later b row [] tokens (h, d) = cc
Live-later b row (c ∷ chars) tokens (inl (h, d)) = cc
Live-later b row (c ∷ chars) tokens (inr h) = inr h

char_row_sound :
    (t : Test) (row : List Bool) (chars : List ℕ) (tokens : List Token)
    → Live (false ∷ char_row t row chars) chars tokens
    → Live row chars (one t ∷ tokens)
unfolding char_row
char_row_sound t [] [] tokens (h, d) = cc
char_row_sound t (b ∷ row) [] tokens (h, d) = cc
char_row_sound t [] (c ∷ chars) tokens (inl (h, d)) = cc
char_row_sound t [] (c ∷ chars) tokens (inr h) = absurd h
char_row_sound t (b ∷ row) (c ∷ chars) tokens (inl (h, d)) = cc
char_row_sound t (b ∷ row) (c ∷ chars) tokens (inr h) =
    elim (Live-first (b && accepts t c) (char_row t row chars) chars tokens h) [
      | inl p ↦ inl (ground arith, char (ground arith) p.1)
      | inr q ↦ inr (char_row_sound t row chars tokens q)
    ]

char_row_complete :
    (t : Test) (row : List Bool) (chars : List ℕ) (tokens : List Token)
    → Live row chars (one t ∷ tokens)
    → Live (false ∷ char_row t row chars) chars tokens
unfolding char_row
char_row_complete t [] chars tokens h = absurd h
char_row_complete t (b ∷ row) [] tokens (h, d) = absurd (one_end d)
char_row_complete t (true ∷ row) (c ∷ chars) tokens (inl (h, d)) =
    let (a, m) = one_split d in
    inr (
      subst (λ b. Live (b ∷ char_row t row chars) chars tokens) (sym a)
        (Live-here (char_row t row chars) chars tokens m))
char_row_complete t (false ∷ row) (c ∷ chars) tokens (inl (h, d)) = cc
char_row_complete t (b ∷ row) (c ∷ chars) tokens (inr h) = inr (
    Live-later (b && accepts t c) (char_row t row chars) chars tokens
      (char_row_complete t row chars tokens h))

star_row_sound :
    (last : Bool) (row : List Bool) (chars : List ℕ) (tokens : List Token)
    → Live (star_row last row) chars tokens
    → ((last ≡ true) × Matches (star ∷ tokens) chars) ⊎ Live row chars (star ∷ tokens)
unfolding star_row
star_row_sound last [] chars tokens h = absurd h
star_row_sound last (true ∷ row) [] tokens (h, d) = inr (refl, leave d)
star_row_sound last (false ∷ row) [] tokens (h, d) = inl (h, leave d)
star_row_sound last (true ∷ row) (c ∷ chars) tokens (inl (h, d)) = inr (inl (refl, leave d))
star_row_sound last (false ∷ row) (c ∷ chars) tokens (inl (h, d)) = inl (h, leave d)
star_row_sound last (true ∷ row) (c ∷ chars) tokens (inr h) =
    elim (star_row_sound true row chars tokens h) [
      | inl p ↦ inr (inl (refl, take p.1))
      | inr q ↦ inr (inr q)
    ]
star_row_sound last (false ∷ row) (c ∷ chars) tokens (inr h) =
    elim (star_row_sound last row chars tokens h) [
      | inl p ↦ inl (p.0, take p.1)
      | inr q ↦ inr (inr q)
    ]

-- With the carried entry set, every star match shows in the row.
star_row-carried :
    (row : List Bool) (chars : List ℕ) (tokens : List Token)
    → length row ≡ suc (length chars)
    → Matches (star ∷ tokens) chars
    → Live (star_row true row) chars tokens
unfolding star_row
star_row-carried [] chars tokens e d = absurd (omega arith)
star_row-carried (true ∷ row) [] tokens e d = (refl, star_end tokens d)
star_row-carried (false ∷ row) [] tokens e d = (refl, star_end tokens d)
star_row-carried (true ∷ row) (c ∷ chars) tokens e d = elim (star_split d) [
  | inl m ↦ inl (refl, m)
  | inr m ↦ inr (star_row-carried row chars tokens (omega arith) m)
]
star_row-carried (false ∷ row) (c ∷ chars) tokens e d = elim (star_split d) [
  | inl m ↦ inl (refl, m)
  | inr m ↦ inr (star_row-carried row chars tokens (omega arith) m)
]

star_row_complete :
    (last : Bool) (row : List Bool) (chars : List ℕ) (tokens : List Token)
    → length row ≡ suc (length chars)
    → Live row chars (star ∷ tokens)
    → Live (star_row last row) chars tokens
unfolding star_row
star_row_complete last [] chars tokens e h = absurd h
star_row_complete last (true ∷ row) [] tokens e (h, d) = (refl, star_end tokens d)
star_row_complete last (false ∷ row) [] tokens e (h, d) = cc
star_row_complete last (true ∷ row) (c ∷ chars) tokens e (inl (h, d)) = elim (star_split d) [
  | inl m ↦ inl (refl, m)
  | inr m ↦ inr (star_row-carried row chars tokens (omega arith) m)
]
star_row_complete last (false ∷ row) (c ∷ chars) tokens e (inl (h, d)) = cc
star_row_complete last (true ∷ row) (c ∷ chars) tokens e (inr h) =
    inr (star_row_complete true row chars tokens (omega arith) h)
star_row_complete last (false ∷ row) (c ∷ chars) tokens e (inr h) =
    inr (star_row_complete last row chars tokens (omega arith) h)

length-star_row : (last : Bool) (row : List Bool) → length (star_row last row) ≡ length row
unfolding star_row
length-star_row last [] = refl
length-star_row last (b ∷ row) = omega (arith, length-star_row (b || last) row)

length-char_row :
    (t : Test) (row : List Bool) (chars : List ℕ)
    → length row ≡ suc (length chars)
    → length (char_row t row chars) ≡ length chars
unfolding char_row
length-char_row t [] chars e = absurd (omega arith)
length-char_row t (b ∷ row) [] e = refl
length-char_row t (b ∷ row) (c ∷ chars) e = omega (arith, length-char_row t row chars (omega arith))

length-next_row :
    (t : Token) (row : List Bool) (chars : List ℕ)
    → length row ≡ suc (length chars)
    → length (next_row t row chars) ≡ suc (length chars)
unfolding next_row
length-next_row star row chars e = omega (arith, length-star_row false row)
length-next_row (one t) row chars e = omega (arith, length-char_row t row chars e)

next_row_iff :
    (t : Token) (row : List Bool) (chars : List ℕ) (tokens : List Token)
    → length row ≡ suc (length chars)
    → Live (next_row t row chars) chars tokens ↔ Live row chars (t ∷ tokens)
unfolding next_row
next_row_iff star row chars tokens e = (
  λ h. elim (star_row_sound false row chars tokens h) [ inl p ↦ absurd (cc p.0) | inr q ↦ q ],
  star_row_complete false row chars tokens e,
)
next_row_iff (one t) row chars tokens e =
    (char_row_sound t row chars tokens, char_row_complete t row chars tokens)

-- The last entry is the only one from which no token is left for no character.
last_entry_iff :
    (row : List Bool) (chars : List ℕ)
    → length row ≡ suc (length chars)
    → (last_entry row ≡ true) ↔ Live row chars []
unfolding last_entry
last_entry_iff [] chars e = absurd (omega arith)
last_entry_iff (b ∷ []) [] e = (λ h. (h, done), λ h. h.0)
last_entry_iff (b ∷ []) (c ∷ chars) e = absurd (omega arith)
last_entry_iff (b ∷ c ∷ row) [] e = absurd (omega arith)
last_entry_iff (b ∷ c ∷ row) (x ∷ chars) e =
    let (sound, complete) = last_entry_iff (c ∷ row) chars (omega arith) in
    (λ h. inr (sound h), λ h. elim h [ inl p ↦ elim p.1 [ ] | inr q ↦ complete q ])

table_iff :
    (tokens : List Token) (row : List Bool) (chars : List ℕ)
    → length row ≡ suc (length chars)
    → (last_entry (table tokens row chars) ≡ true) ↔ Live row chars tokens
unfolding table
table_iff [] row chars e = last_entry_iff row chars e
table_iff (t ∷ tokens) row chars e =
    let (sound, complete) =
      table_iff tokens (next_row t row chars) chars (length-next_row t row chars e) in
    let (back, forth) = next_row_iff t row chars tokens e in
    (λ h. back (sound h), λ h. complete (forth h))

length-zeros : (chars : List ℕ) → length (zeros chars) ≡ length chars
unfolding zeros
length-zeros [] = refl
length-zeros (c ∷ chars) = omega (arith, length-zeros chars)

zeros-not-Live : (chars : List ℕ) (tokens : List Token) → ¬ Live (false ∷ zeros chars) chars tokens
unfolding zeros
zeros-not-Live [] tokens (h, d) = cc
zeros-not-Live (c ∷ chars) tokens (inl (h, d)) = cc
zeros-not-Live (c ∷ chars) tokens (inr h) = zeros-not-Live chars tokens h

-- The table answers true exactly for the character lists that match the tokens.
pub run_table_iff :
    (tokens : List Token) (chars : List ℕ) → (run_table tokens chars ≡ true) ↔ Matches tokens chars
unfolding run_table
run_table_iff tokens chars =
    let (sound, complete) =
      table_iff tokens (true ∷ zeros chars) chars (omega (arith, length-zeros chars)) in
    (
      λ h. elim (Live-first true (zeros chars) chars tokens (sound h)) [
        | inl p ↦ p.1
        | inr q ↦ absurd (zeros-not-Live chars tokens q)
      ],
      λ d. complete (Live-here (zeros chars) chars tokens d),
    )

-- A leading period of the name is matched by a literal period in front of the pattern.
abbrev pub DotIsExplicit : List Token → Text → Type 0
DotIsExplicit tokens [] = Unit
DotIsExplicit tokens (c ∷ name) =
    c ≡ b'.' → (rest : List Token) × (tokens ≡ one (literal b'.') ∷ rest)

explicit_dot-shape :
    (tokens : List Token)
    → explicit_dot tokens ≡ true
    → (rest : List Token) × (tokens ≡ one (literal b'.') ∷ rest)
unfolding explicit_dot
explicit_dot-shape [] h = cc
explicit_dot-shape (star ∷ tokens) h = cc
explicit_dot-shape (one any_char ∷ tokens) h = cc
explicit_dot-shape (one (literal c) ∷ tokens) h = (tokens, cc ((==_iff c b'.').0 h))
explicit_dot-shape (one (class n r) ∷ tokens) h = cc

dot_iff :
    (tokens : List Token) (name : Text)
    → ((starts_with_dot name && not (explicit_dot tokens)) ≡ false) ↔ DotIsExplicit tokens name
unfolding starts_with_dot
dot_iff tokens [] = (λ _. tt, λ _. refl)
dot_iff tokens (c ∷ name) = (sound, complete)
  where
    sound : ((c == b'.') && not (explicit_dot tokens)) ≡ false → DotIsExplicit tokens (c ∷ name)
    sound h e = explicit_dot-shape tokens (ground arith)

    complete : DotIsExplicit tokens (c ∷ name) → ((c == b'.') && not (explicit_dot tokens)) ≡ false
    complete d = elim (Bool-cases (c == b'.')) [
      | inl e ↦
          let (rest, shape) = d ((==_iff c b'.').0 e) in rw (e, shape) (unfold explicit_dot in refl)
      | inr e ↦ rw e
    ]

-- `test` answers true exactly for a safe entry name within the length limit whose leading period,
-- if it has one, is explicit in the pattern, and whose characters match the tokens.
pub test_iff :
    (g : Glob) (name : Text)
    → (test g name ≡ true) ↔ (
        IsEntryName name
        × (length name ≤ g.bounds.max_name_length)
        × DotIsExplicit g.tokens name
        × Matches g.tokens (code_points name))
unfolding test name_rejected
test_iff g name = (sound, complete)
  where
    sound :
        test g name ≡ true
        → IsEntryName name
          × (length name ≤ g.bounds.max_name_length)
          × DotIsExplicit g.tokens name
          × Matches g.tokens (code_points name)
    sound h = (
      (IsEntryName-iff name).0 (ground arith),
      ground arith,
      (dot_iff g.tokens name).0 (ground arith),
      (run_table_iff g.tokens (code_points name)).0 (ground arith),
    )

    complete :
        (IsEntryName name
          × (length name ≤ g.bounds.max_name_length)
          × DotIsExplicit g.tokens name
          × Matches g.tokens (code_points name))
        → test g name ≡ true
    complete (n, len, dot, d) = ground (
      arith,
      (IsEntryName-iff name).1 n,
      (dot_iff g.tokens name).1 dot,
      (run_table_iff g.tokens (code_points name)).1 d,
    )
