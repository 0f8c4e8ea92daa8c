-- ===== src/Scp/Protocol/RoundTrip.antt =====
-- A record that electron/scp/protocol.js writes is read again, whatever chunks carry its bytes.
use usshtc.Prelude.{
  ℕ, ◌≤◌, ◌<◌, ◌≡◌, refl, sym, ap, ◌∙◌, false, List, [], ◌∷◌, ◌++◌, append_assoc, Option, none,
  some, ◌==◌, any, Result, ok, ◌>>=◌, arith, Holds, first_of_chain,
}
use usshtc.Prelude.Text.{Text, byte_length, has_control}
use usshtc.Prelude.Utf8.{
  encode, decode-encode, length-encode, newline-encode, is_newline, encode-ascii, encode-line,
  byte_length-ascii,
}
use usshtc.Scp.Protocol.Limits.{ProtocolError, Limits}
use usshtc.Scp.Protocol.Reader.{Reader, line}
use usshtc.Scp.Protocol.Lines.{Record, ack, print_line}
use usshtc.Scp.Protocol.Records.{read_line, read_typed, read_record, line_of, record_bytes}
use usshtc.Scp.Protocol.Fields.{IsPlainText}
use usshtc.Scp.Protocol.Parsing.{IsPrintable, IsLineOf, Printed, print_line-Printed, read_back}
use usshtc.Scp.Protocol.Streams.{stream, line_bytes-Gives, byte-Gives}
use mathlib.Core.Path.{subst}

no_newline : (s : Text) → has_control s ≡ false → any is_newline s ≡ false
no_newline [] h = refl
no_newline (c ∷ s) h = ground (arith, no_newline s)

-- The outcome of one line was read, and the rest of the stream is still there.
abbrev pub Reads : Limits → Reader → Result ProtocolError Record → List ℕ → Type 0
Reads limits r outcome rest =
    (r' : Reader) × (read_record limits r ≡ (outcome >>= λ written. ok (some (written, r'))))
    × (stream r' ≡ rest)

line-plain :
    (maximum : ℕ) (r : Reader) (text : Text) (rest : List ℕ)
    → IsPlainText text
    → byte_length text ≤ maximum
    → stream r ≡ encode text ++ 10 ∷ rest
    → (r' : Reader) × (line maximum r ≡ ok (text, r')) × (stream r' ≡ rest)
unfolding line
line-plain maximum r text rest p b e =
    let (r', read, left) =
      line_bytes-Gives maximum rest r (encode text)
        (newline-encode text (no_newline text p.uncontrolled)) e
        (omega (arith, length-encode text p.units)) in
    (r', rw (read, decode-encode text p.units p.well_formed) refl, left)

-- What `line_of` writes of a line that fits.
line_of-bytes :
    (limits : Limits) (type : ℕ) (text : Text) (bytes : List ℕ)
    → type < 0x80
    → line_of limits (some (type, text)) ≡ ok bytes
    → (byte_length text ≤ limits.max_line_bytes) × (bytes ≡ type ∷ (encode text ++ 10 ∷ []))
unfolding line_of
line_of-bytes limits type text bytes t h =
    let first = encode-ascii type (text ++ 10 ∷ []) t in
    let last = encode-line text in
    let long = byte_length-ascii type text t in (ground (arith, long), ground (arith, first, last))

line-Reads :
    (limits : Limits) (outcome : Result ProtocolError Record) (type : ℕ) (text : Text) (r : Reader)
    (rest : List ℕ)
    → IsLineOf limits outcome type text
    → byte_length text ≤ limits.max_line_bytes
    → stream r ≡ type ∷ (encode text ++ 10 ∷ rest)
    → Reads limits r outcome rest
unfolding read_record read_typed read_line
line-Reads limits outcome type text r rest l b e =
    let (r', first, left) = byte-Gives type (encode text ++ 10 ∷ rest) r.buffer r.inputs e in
    let (r'', read, left') = line-plain limits.max_line_bytes r' text rest l.plain b left in
    let typed : (type == 0) ≡ false = ground (arith, l.typed.0) in
    (r'', rw (first, typed, read, l.parsed) refl, left')

ack_bytes : (limits : Limits) (bytes : List ℕ) → line_of limits none ≡ ok bytes → bytes ≡ 0 ∷ []
unfolding line_of
ack_bytes limits bytes h = cc

ack-Reads :
    (limits : Limits) (r : Reader) (rest : List ℕ)
    → stream r ≡ 0 ∷ rest
    → Reads limits r (ok ack) rest
unfolding read_record read_typed
ack-Reads limits r rest e =
    let (r', first, left) = byte-Gives 0 rest r.buffer r.inputs e in (r', rw (first) refl, left)

Printed-Reads :
    (limits : Limits) (written : Record) (printed : Option (ℕ × Text)) (bytes : List ℕ) (r : Reader)
    (rest : List ℕ)
    → Printed limits written printed
    → line_of limits printed ≡ ok bytes
    → stream r ≡ bytes ++ rest
    → Reads limits r (read_back written) rest
Printed-Reads limits written none bytes r rest p h e =
    let zero_byte = ack_bytes limits bytes h in
    subst (λ w. Reads limits r (read_back w) rest) (sym p)
      (ack-Reads limits r rest (e ∙ ap (λ (t : List ℕ). t ++ rest) zero_byte))
Printed-Reads limits written (some (type, text)) bytes r rest p h e =
    let (fits, same) = line_of-bytes limits type text bytes p.typed.1 h in
    line-Reads limits (read_back written) type text r rest p fits (
      e
      ∙ ap (λ (t : List ℕ). t ++ rest) same
      ∙ ap (λ (t : List ℕ). type ∷ t) (append_assoc (encode text) (10 ∷ []) rest))

-- A record that is written within the limits of both ends is read again as the same record from any
-- stream that gives the written bytes first, however they are cut into chunks, and nothing after them
-- is consumed; but an entry whose name holds U+2028 or U+2029, which the writer takes, is refused by
-- the reader as malformed.
pub read_record-record_bytes :
    (limits : Limits) (written : Record) (bytes : List ℕ) (r : Reader) (rest : List ℕ)
    → IsPrintable written
    → record_bytes limits written ≡ ok bytes
    → stream r ≡ bytes ++ rest
    → Reads limits r (read_back written) rest
unfolding record_bytes
read_record-record_bytes limits written bytes r rest p h e =
    let (printed, first, line_written) =
      first_of_chain (print_line limits written) (line_of limits) h in
    Printed-Reads limits written printed bytes r rest
      (subst (Holds (Printed limits written)) first (print_line-Printed limits written p))
      line_written e
