-- ===== src/Scp/Protocol/Streams.antt =====
-- The line that the reader of electron/scp/protocol.js reads, whatever chunks its stream gives.
use usshtc.Prelude.{
  ℕ, ◌≤◌, ◌≡◌, refl, sym, ap, ◌∙◌, ◌⊎◌, inl, inr, false, List, [], ◌∷◌, ◌++◌, append_assoc, none,
  some, ltb, any, Result, ok, length, length-append, arith,
}
use usshtc.Prelude.Utf8.{is_newline}
use usshtc.Scp.Protocol.Limits.{ProtocolError}
use usshtc.Scp.Protocol.Reader.{
  Input, chunk, failure, Reader, byte_from, cut_line, line_part, line_chunks, line_bytes,
}
use mathlib.Core.Path.{subst}

-- The bytes that come before the stream fails or ends.
abbrev pub bytes_of : List Input → List ℕ
bytes_of [] = []
bytes_of (chunk b bytes ∷ inputs) = b ∷ bytes ++ bytes_of inputs
bytes_of (failure error ∷ inputs) = []

abbrev pub stream : Reader → List ℕ
stream r = r.buffer ++ bytes_of r.inputs

-- How the first newline of a stream lies to the buffer at its start.
abbrev Cut : List ℕ → List ℕ → List ℕ → List ℕ → Type 0
Cut buffer later line rest =
    ((left : List ℕ) × (cut_line buffer ≡ (line, some left)) × (left ++ later ≡ rest))
    ⊎ ((more : List ℕ) × (cut_line buffer ≡ (buffer, none))
        × (line ≡ buffer ++ more)
        × (later ≡ more ++ 10 ∷ rest))

cut :
    (buffer later line rest : List ℕ)
    → any is_newline line ≡ false
    → buffer ++ later ≡ line ++ 10 ∷ rest
    → Cut buffer later line rest
unfolding cut_line
cut [] later line rest n e = inr (line, refl, refl, e)
cut (b ∷ buffer) later [] rest n e = inl (buffer, ground arith, cc)
cut (b ∷ buffer) later (c ∷ line) rest n e = elim (cut buffer later line rest (ground arith) cc) [
  | inl (left, p, q) ↦ inl (left, ground arith, q)
  | inr (more, p, q, r) ↦ inr (more, ground arith, ground arith, r)
]

fits :
    (known buffer line tail : List ℕ) (maximum : ℕ)
    → length (known ++ line) ≤ maximum
    → line ≡ buffer ++ tail
    → ltb maximum (length (known ++ buffer)) ≡ false
fits known buffer line tail maximum b q =
    let total = length-append known line in
    let part = length-append known buffer in
    let whole = length-append buffer tail in
    let same = ap length q in ground (arith, total, part, whole, same)

-- A line was read, and the rest of the stream is still there.
abbrev pub Gives : Result ProtocolError (List ℕ × Reader) → List ℕ → List ℕ → Type 0
Gives result line rest = (r : Reader) × (result ≡ ok (line, r)) × (stream r ≡ rest)

no_newline_after : (xs ys : List ℕ) → any is_newline (xs ++ ys) ≡ false → any is_newline ys ≡ false
no_newline_after [] ys h = h
no_newline_after (x ∷ xs) ys h = no_newline_after xs ys (ground arith)

module _ (inputs : List Input) (maximum : ℕ) (rest : List ℕ) where
  line_part-Gives :
      (more : List ℕ → Result ProtocolError (List ℕ × Reader)) (known buffer line : List ℕ)
      → any is_newline line ≡ false
      → buffer ++ bytes_of inputs ≡ line ++ 10 ∷ rest
      → length (known ++ line) ≤ maximum
      → ((tail : List ℕ)
          → line ≡ buffer ++ tail
          → bytes_of inputs ≡ tail ++ 10 ∷ rest
          → Gives (more (known ++ buffer)) (known ++ line) rest)
      → Gives (line_part more inputs maximum known (cut_line buffer)) (known ++ line) rest
  unfolding line_part
  line_part-Gives more known buffer line n e b k =
      elim (cut buffer (bytes_of inputs) line rest n e) [
        | inl (left, p, q) ↦ (record { buffer = left; inputs = inputs }, rw p (ground arith), q)
        | inr (tail, p, q, r) ↦
            subst (λ x. Gives (line_part more inputs maximum known x) (known ++ line) rest) (sym p)
              (rw (fits known buffer line tail maximum b q) (k tail q r))
      ]

line_chunks-Gives :
    (maximum : ℕ) (rest : List ℕ) (inputs : List Input) (known line : List ℕ)
    → any is_newline line ≡ false
    → bytes_of inputs ≡ line ++ 10 ∷ rest
    → length (known ++ line) ≤ maximum
    → Gives (line_chunks inputs maximum known) (known ++ line) rest
unfolding line_chunks
line_chunks-Gives maximum rest [] known [] n e b = cc
line_chunks-Gives maximum rest [] known (c ∷ line) n e b = cc
line_chunks-Gives maximum rest (failure error ∷ inputs) known [] n e b = cc
line_chunks-Gives maximum rest (failure error ∷ inputs) known (c ∷ line) n e b = cc
line_chunks-Gives maximum rest (chunk c bytes ∷ inputs) known line n e b =
    line_part-Gives inputs maximum rest (line_chunks inputs maximum) known (c ∷ bytes) line n e b
      λ tail q r.
        let whole : (known ++ c ∷ bytes) ++ tail ≡ known ++ line =
          append_assoc known (c ∷ bytes) tail ∙ ap (λ (t : List ℕ). known ++ t) (sym q) in
        subst (λ (t : List ℕ). Gives (line_chunks inputs maximum (known ++ c ∷ bytes)) t rest) whole
          (line_chunks-Gives maximum rest inputs (known ++ c ∷ bytes) tail
            (no_newline_after (c ∷ bytes) tail
              (subst (λ (t : List ℕ). any is_newline t ≡ false) q n))
            r (subst (λ (t : List ℕ). length t ≤ maximum) (sym whole) b))

pub line_bytes-Gives :
    (maximum : ℕ) (rest : List ℕ) (r : Reader) (line : List ℕ)
    → any is_newline line ≡ false
    → stream r ≡ line ++ 10 ∷ rest
    → length line ≤ maximum
    → Gives (line_bytes maximum r) line rest
unfolding line_bytes
line_bytes-Gives maximum rest r line n e b =
    line_part-Gives r.inputs maximum rest (line_chunks r.inputs maximum) [] r.buffer line n e b
      λ tail q later.
        subst (λ (t : List ℕ). Gives (line_chunks r.inputs maximum r.buffer) t rest) (sym q)
          (line_chunks-Gives maximum rest r.inputs r.buffer tail
            (no_newline_after r.buffer tail (subst (λ (t : List ℕ). any is_newline t ≡ false) q n))
            later (subst (λ (t : List ℕ). length t ≤ maximum) q b))

pub byte-Gives :
    (b : ℕ) (rest buffer : List ℕ) (inputs : List Input)
    → buffer ++ bytes_of inputs ≡ b ∷ rest
    → (r : Reader) × (byte_from buffer inputs ≡ ok (some (b, r))) × (stream r ≡ rest)
unfolding byte_from
byte-Gives b rest (c ∷ buffer) inputs e =
    (record { buffer = buffer; inputs = inputs }, ground arith, cc)
byte-Gives b rest [] [] e = cc
byte-Gives b rest [] (failure error ∷ inputs) e = cc
byte-Gives b rest [] (chunk c bytes ∷ inputs) e =
    (record { buffer = bytes; inputs = inputs }, ground arith, cc)
