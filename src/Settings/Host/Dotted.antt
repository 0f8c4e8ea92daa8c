-- ===== src/Settings/Host/Dotted.antt =====
-- The addresses that `isIpv4` of shared/settings-schema.mjs accepts.
use usshtc.Prelude.{
  ℕ, ◌+◌, ◌-◌, ◌*◌, ◌/◌, ◌%◌, ◌≤◌, ◌≡◌, ◌↔◌, refl, sym, ap, ◌∙◌, Bool, true, false, not, ◌&&◌, ◌||◌,
  List, [], ◌∷◌, ◌++◌, if◌then◌else◌, ltb, ◌==◌, length, all, any, Bool-cases, inl, inr, arith,
  ==_iff, ==_refl,
}
use usshtc.Prelude.Text.{Text}
use usshtc.Settings.Host.{is_digit, split, digits_value, is_octet, is_ipv4}

-- The decimal text of a number below 1000.
abbrev pub decimal : ℕ → Text
decimal n =
    if ltb n 10
    then (b'0' + n) ∷ []
    else if ltb n 100
    then (b'0' + n / 10) ∷ (b'0' + n % 10) ∷ []
    else (b'0' + n / 100) ∷ (b'0' + n / 10 % 10) ∷ (b'0' + n % 10) ∷ []

one_digit : (c : ℕ) → is_digit c ≡ true → decimal (c - b'0') ≡ c ∷ []
one_digit c h = ground arith

two_digits :
    (c d : ℕ)
    → is_digit c ≡ true
    → is_digit d ≡ true
    → not (c == b'0') ≡ true
    → decimal ((c - b'0') * 10 + (d - b'0')) ≡ c ∷ d ∷ []
two_digits c d h k n = ground arith

three_digits :
    (c d e : ℕ)
    → is_digit c ≡ true
    → is_digit d ≡ true
    → is_digit e ≡ true
    → not (c == b'0') ≡ true
    → decimal (((c - b'0') * 10 + (d - b'0')) * 10 + (e - b'0')) ≡ c ∷ d ∷ e ∷ []
three_digits c d e h k l n = ground arith

decimal-is_octet : (n : ℕ) → n ≤ 255 → is_octet (decimal n) ≡ true
unfolding is_octet digits_value
decimal-is_octet n h = ground arith

decimal-no_dot : (n : ℕ) → n ≤ 255 → any (λ c. c == b'.') (decimal n) ≡ false
decimal-no_dot n h = ground arith

-- A text is the decimal text of a number up to 255.
abbrev Octet : Text → Type 0
Octet t = (n : ℕ) × (n ≤ 255) × (t ≡ decimal n)

is_octet-Octet : (t : Text) → is_octet t ≡ true → Octet t
unfolding is_octet digits_value
is_octet-Octet [] h = cc
is_octet-Octet (c ∷ []) h = (c - b'0', ground arith, sym (one_digit c (ground arith)))
is_octet-Octet (c ∷ d ∷ []) h = (
  (c - b'0') * 10 + (d - b'0'),
  ground arith,
  sym (two_digits c d (ground arith) (ground arith) (ground arith)),
)
is_octet-Octet (c ∷ d ∷ e ∷ []) h = (
  ((c - b'0') * 10 + (d - b'0')) * 10 + (e - b'0'),
  ground arith,
  sym (three_digits c d e (ground arith) (ground arith) (ground arith) (ground arith)),
)
is_octet-Octet (c ∷ d ∷ e ∷ f ∷ t) h = ground arith

-- `parts.join(separator)`.
abbrev pub join : ℕ → List Text → Text
join separator [] = []
join separator (part ∷ []) = part
join separator (part ∷ q ∷ parts) = part ++ separator ∷ join separator (q ∷ parts)

abbrev pub dotted : ℕ → ℕ → ℕ → ℕ → Text
dotted a b c d = join b'.' (decimal a ∷ decimal b ∷ decimal c ∷ decimal d ∷ [])

split-cons : (c : ℕ) (s : Text) → (p : Text) × ((ps : List Text) × (split c s ≡ p ∷ ps))
unfolding split
split-cons c [] = ([], ([], refl))
split-cons c (x ∷ s) = elim (Bool-cases (x == c)) [
  | inl e ↦ ([], (split c s, rw e refl))
  | inr e ↦ let (p, (ps, f)) = split-cons c s in (x ∷ p, (ps, rw (e, f) refl))
]

join-first : (c x : ℕ) (p : Text) (ps : List Text) → join c ((x ∷ p) ∷ ps) ≡ x ∷ join c (p ∷ ps)
join-first c x p [] = refl
join-first c x p (q ∷ ps) = refl

join-split : (c : ℕ) (s : Text) → join c (split c s) ≡ s
unfolding split
join-split c [] = refl
join-split c (x ∷ s) =
    let (p, (ps, f)) = split-cons c s in
    let rest : join c (p ∷ ps) ≡ s = rw (sym f) (join-split c s) in
    elim (Bool-cases (x == c)) [
      | inl e ↦ rw (e, f, (==_iff x c).0 e) (ap (λ t. c ∷ t) rest)
      | inr e ↦ rw (e, f, join-first c x p ps, rest) refl
    ]

apart : (a b : Bool) → (a || b) ≡ false → (a ≡ false) × (b ≡ false)
apart a b h = ground arith

split-append :
    (c : ℕ) (p s : Text) → any (λ x. x == c) p ≡ false → split c (p ++ c ∷ s) ≡ p ∷ split c s
unfolding split
split-append c [] s h = rw (==_refl c) refl
split-append c (x ∷ p) s h =
    let (e, none_left) = apart (x == c) (any (λ y. y == c) p) h in
    rw (e, split-append c p s none_left) refl

split-single : (c : ℕ) (p : Text) → any (λ x. x == c) p ≡ false → split c p ≡ p ∷ []
unfolding split
split-single c [] h = refl
split-single c (x ∷ p) h =
    let (e, none_left) = apart (x == c) (any (λ y. y == c) p) h in
    rw (e, split-single c p none_left) refl

-- Four numbers up to 255, in decimal without leading zeros, with dots between them.
abbrev pub IsDotted : Text → Type 0
IsDotted s =
    (a : ℕ) × (b : ℕ) × (c : ℕ) × (d : ℕ) × ((a ≤ 255)
      × (b ≤ 255)
      × (c ≤ 255)
      × (d ≤ 255)
      × (s ≡ dotted a b c d))

join_same :
    {p q r t p' q' r' t' : Text}
    → p ≡ p'
    → q ≡ q'
    → r ≡ r'
    → t ≡ t'
    → join b'.' (p ∷ q ∷ r ∷ t ∷ []) ≡ join b'.' (p' ∷ q' ∷ r' ∷ t' ∷ [])
join_same h k l m = cc

quad-IsDotted :
    (parts : List Text) (s : Text)
    → (length parts == 4 && all is_octet parts) ≡ true
    → join b'.' parts ≡ s
    → IsDotted s
quad-IsDotted (p ∷ q ∷ r ∷ t ∷ []) s h e =
    let (a, a_le, pe) = is_octet-Octet p (ground arith) in
    let (b, b_le, qe) = is_octet-Octet q (ground arith) in
    let (c, c_le, re) = is_octet-Octet r (ground arith) in
    let (d, d_le, te) = is_octet-Octet t (ground arith) in
    (a, b, c, d, (a_le, b_le, c_le, d_le, sym e ∙ join_same pe qe re te))
quad-IsDotted [] s h e = cc
quad-IsDotted (p ∷ []) s h e = cc
quad-IsDotted (p ∷ q ∷ []) s h e = cc
quad-IsDotted (p ∷ q ∷ r ∷ []) s h e = cc
quad-IsDotted (p ∷ q ∷ r ∷ t ∷ u ∷ parts) s h e = ground arith

split-dotted :
    (a b c d : ℕ)
    → a ≤ 255
    → b ≤ 255
    → c ≤ 255
    → d ≤ 255
    → split b'.' (dotted a b c d) ≡ decimal a ∷ decimal b ∷ decimal c ∷ decimal d ∷ []
split-dotted a b c d ha hb hc hd =
    rw
      (
        split-append b'.' (decimal a) (join b'.' (decimal b ∷ decimal c ∷ decimal d ∷ []))
            (decimal-no_dot a ha),
        split-append b'.' (decimal b) (join b'.' (decimal c ∷ decimal d ∷ []))
            (decimal-no_dot b hb),
        split-append b'.' (decimal c) (decimal d) (decimal-no_dot c hc),
        split-single b'.' (decimal d) (decimal-no_dot d hd),
      )
      refl

dotted-is_ipv4 : (s : Text) → IsDotted s → is_ipv4 s ≡ true
unfolding is_ipv4
dotted-is_ipv4 s (a, b, c, d, (ha, hb, hc, hd, e)) =
    rw
      (
        e,
        split-dotted a b c d ha hb hc hd,
        decimal-is_octet a ha,
        decimal-is_octet b hb,
        decimal-is_octet c hc,
        decimal-is_octet d hd,
      )
      refl

-- `isIpv4` accepts exactly the texts of four numbers up to 255, in decimal without leading zeros,
-- with dots between them.
pub is_ipv4-exact : (s : Text) → (is_ipv4 s ≡ true) ↔ IsDotted s
unfolding is_ipv4
is_ipv4-exact s = (λ h. quad-IsDotted (split b'.' s) s h (join-split b'.' s), dotted-is_ipv4 s)
