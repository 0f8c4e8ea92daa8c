-- ===== src/Scp/Command/Quoting.antt =====
-- Words quoted by `quotePosix` of electron/exec-codec.js, read by the tokenizer of
-- electron/scp/command-parser.js.
use mathlib.Core.Logic.{◌≢◌}
use mathlib.Core.Path.{subst}
use usshtc.Prelude.{
  ==_iff, ℕ, ◌≡◌, refl, ap, ◌∙◌, true, false, List, [], ◌∷◌, ◌++◌, append_assoc, append-nil, ◌==◌,
  Result, ok, Bool-cases, inl, inr,
}
use usshtc.Prelude.Text.{Text, includes}
use usshtc.Exec.Quote.{CodecError, replace_quotes, quote_posix}
use usshtc.Scp.Command.{
  Word, State, bare, single, quote_char, pattern_unit, start, append, begin, finish, scan,
  escape_next, tokenize,
}

-- The pattern of a word that is quoted whole.
unfoldable pub glob_escape : Text → Text
glob_escape [] = []
glob_escape (c ∷ s) = pattern_unit c true ++ glob_escape s

abbrev state : List Word → Text → Text → State
state words word pattern_text = record {
  words = words;
  word = word;
  pattern_text = pattern_text;
  started = true;
}

-- One character moved from the text that is left to the word.
regroup :
    (c : ℕ) (s rest : Text) (words : List Word) (word pattern_text : Text)
    → scan bare rest (
        state words
          ((word ++ c ∷ []) ++ s)
          ((pattern_text ++ pattern_unit c true) ++ glob_escape s))
      ≡ scan bare rest
          (state words (word ++ c ∷ s) (pattern_text ++ (pattern_unit c true ++ glob_escape s)))
regroup c s rest words word pattern_text =
    cc (
      append_assoc word (c ∷ []) s,
      append_assoc pattern_text (pattern_unit c true) (glob_escape s),
    )

-- A quote is closed, escaped and opened again.
scan-escaped_quote :
    (cs : Text) (words : List Word) (word pattern_text : Text)
    → cs ≢ []
    → scan single (b'\'' ∷ b'\\' ∷ b'\'' ∷ b'\'' ∷ cs) (state words word pattern_text)
      ≡ scan single cs (state words (word ++ b'\'' ∷ []) (pattern_text ++ pattern_unit b'\'' true))
unfolding scan escape_next append begin
scan-escaped_quote [] words word pattern_text ne = absurd (ne refl)
scan-escaped_quote (d ∷ cs) words word pattern_text ne = refl

scan-plain :
    (c : ℕ) (cs : Text) (words : List Word) (word pattern_text : Text)
    → (c == quote_char) ≡ false
    → scan single (c ∷ cs) (state words word pattern_text)
      ≡ scan single cs (state words (word ++ c ∷ []) (pattern_text ++ pattern_unit c true))
unfolding scan append
scan-plain c cs words word pattern_text e = rw e

append-cons-ne {ℓ} : {A : Type ℓ} (xs ys : List A) (y : A) → xs ++ y ∷ ys ≢ []
append-cons-ne [] ys y e = cc
append-cons-ne (x ∷ xs) ys y e = cc

scan-replace_quotes :
    (s rest : Text) (words : List Word) (word pattern_text : Text)
    → scan single (replace_quotes s ++ quote_char ∷ rest) (state words word pattern_text)
      ≡ scan bare rest (state words (word ++ s) (pattern_text ++ glob_escape s))
unfolding replace_quotes glob_escape
scan-replace_quotes [] rest words word pattern_text =
    ap (λ x. x) (unfold scan in cc (append-nil word, append-nil pattern_text))
scan-replace_quotes (c ∷ s) rest words word pattern_text =
    let ih =
      scan-replace_quotes s rest words (word ++ c ∷ []) (pattern_text ++ pattern_unit c true) in
    elim (Bool-cases (c == quote_char)) [
      | inl e ↦
          let same = (==_iff c quote_char).0 e in
          rw same (
            scan-escaped_quote (replace_quotes s ++ quote_char ∷ rest) words word pattern_text
              (append-cons-ne (replace_quotes s) rest quote_char)
            ∙ scan-replace_quotes s rest words (word ++ quote_char ∷ [])
                (pattern_text ++ pattern_unit quote_char true)
            ∙ regroup quote_char s rest words word pattern_text)
      | inr e ↦
          rw e (
            scan-plain c _ words word pattern_text e
            ∙ ih
            ∙ regroup c s rest words word pattern_text)
    ]

unfoldable pub clean : List Word → State
clean words = record { words = words; word = []; pattern_text = []; started = false }

scan-opened :
    (cs : Text) (words : List Word)
    → cs ≢ []
    → scan bare (quote_char ∷ cs) (clean words) ≡ scan single cs (state words [] [])
unfolding scan begin clean
scan-opened [] words ne = absurd (ne refl)
scan-opened (c ∷ cs) words ne = refl

-- A quoted text stands for one word, after any words.
pub scan-quoted :
    (s : Text) (words : List Word)
    → scan bare (quote_char ∷ replace_quotes s ++ quote_char ∷ []) (clean words)
      ≡ ok (words ++ (record { word = s; glob_pattern = glob_escape s }) ∷ [])
scan-quoted s words =
    scan-opened (replace_quotes s ++ quote_char ∷ []) words
      (append-cons-ne (replace_quotes s) [] quote_char)
    ∙ scan-replace_quotes s [] words [] []
    ∙ unfold scan finish in refl

ok_inj : {a b : Text} → ◌≡◌ {A = Result CodecError Text} (ok a) (ok b) → a ≡ b
ok_inj h = cc

-- The shell text that `quotePosix` builds is read back as one word, the text itself, whose pattern
-- escapes every character that is special in a pattern.
pub tokenize-quote_posix :
    (s quoted : Text)
    → quote_posix s ≡ ok quoted
    → tokenize quoted ≡ ok ((record { word = s; glob_pattern = glob_escape s }) ∷ [])
unfolding tokenize quote_posix
tokenize-quote_posix s quoted h = elim (Bool-cases (includes s 0)) [
  | inl e ↦ cc (rw e at h)
  | inr e ↦
      subst
        (λ (t : Text).
          scan bare t start ≡ ok ((record { word = s; glob_pattern = glob_escape s }) ∷ []))
        (ok_inj (rw e at h)) (unfold clean in scan-quoted s [])
]
