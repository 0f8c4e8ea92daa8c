-- ===== src/Scp/Protocol/Reader.antt =====
-- The reader of electron/scp/protocol.js over the chunks that its stream gives.
use usshtc.Prelude.{
  ℕ, zero, suc, ◌-◌, List, [], ◌∷◌, ◌++◌, Option, none, some, if◌then◌else◌, ltb, leb, ◌==◌, Result,
  ok, err, ◌>>=◌, length, take, drop,
}
use usshtc.Prelude.Text.{Text}
use usshtc.Prelude.Utf8.{decode}
use usshtc.Scp.Protocol.Limits.{
  ProtocolError, invalid_utf8, line_limit, unexpected_eof, invalid_number, Limits, bounded,
}

-- What the stream does next: it gives a chunk of at least one byte, or the endpoint fails while it
-- waits. Where the inputs end, the stream has ended.
pub data Input : Type 0 where
  chunk : ℕ → List ℕ → Input
  failure : ProtocolError → Input

-- The part of the buffer from `offset` on, and what comes after it.
pub record Reader : Type 0 where
  pub buffer : List ℕ
  pub inputs : List Input

-- `fill`, on an empty buffer: `none` at the end of the stream.
unfoldable pub fill_from : List Input → Result ProtocolError (Option Reader)
fill_from [] = ok none
fill_from (chunk b bytes ∷ inputs) = ok (some (record { buffer = b ∷ bytes; inputs = inputs }))
fill_from (failure error ∷ inputs) = err error

-- `byte`: `none` at the end of the stream, which only some callers allow.
unfoldable pub byte_from : List ℕ → List Input → Result ProtocolError (Option (ℕ × Reader))
byte_from (b ∷ buffer) inputs = ok (some (b, record { buffer = buffer; inputs = inputs }))
byte_from [] [] = ok none
byte_from [] (chunk b bytes ∷ inputs) = ok (some (b, record { buffer = bytes; inputs = inputs }))
byte_from [] (failure error ∷ inputs) = err error

-- The bytes of a buffer before its first newline, and those after it if there is one.
unfoldable pub cut_line : List ℕ → List ℕ × Option (List ℕ)
cut_line [] = ([], none)
cut_line (b ∷ bytes) =
    let (part, rest) = cut_line bytes in if b == 10 then ([], some bytes) else (b ∷ part, rest)

-- The next chunk of a line: the bytes so far, the part that the buffer adds, and what is left of it.
unfoldable pub line_part :
    (List ℕ → Result ProtocolError (List ℕ × Reader))
    → List Input
    → ℕ
    → List ℕ
    → List ℕ × Option (List ℕ)
    → Result ProtocolError (List ℕ × Reader)
line_part more inputs maximum known (part, rest) =
    if ltb maximum (length (known ++ part)) then err line_limit else elim rest [
      | none ↦ more (known ++ part)
      | some left ↦ ok (known ++ part, record { buffer = left; inputs = inputs })
    ]

-- The loop of `line` after the first buffer.
unfoldable pub line_chunks : List Input → ℕ → List ℕ → Result ProtocolError (List ℕ × Reader)
unfolding line_part cut_line
line_chunks [] maximum known = err unexpected_eof
line_chunks (failure error ∷ inputs) maximum known = err error
line_chunks (chunk b bytes ∷ inputs) maximum known =
    line_part (line_chunks inputs maximum) inputs maximum known (cut_line (b ∷ bytes))

-- The bytes of `line`, which starts in the buffer if that is not empty.
unfoldable pub line_bytes : ℕ → Reader → Result ProtocolError (List ℕ × Reader)
unfolding line_part line_chunks cut_line
line_bytes maximum r =
    line_part (line_chunks r.inputs maximum) r.inputs maximum [] (cut_line r.buffer)

unfoldable pub decoded : Option Text → Reader → Result ProtocolError (Text × Reader)
decoded none r = err invalid_utf8
decoded (some text) r = ok (text, r)

unfoldable pub line : ℕ → Reader → Result ProtocolError (Text × Reader)
unfolding line_bytes decoded
line maximum r = line_bytes maximum r >>= λ read. decoded (decode read.0) read.1

-- The loop of `readPayload`: the parts that its consumer is called with, and the reader after it.
unfoldable pub payload_chunks :
    List Input → ℕ → List (List ℕ) → Result ProtocolError (List (List ℕ) × Reader)
payload_chunks inputs zero parts = ok (parts, record { buffer = []; inputs = inputs })
payload_chunks [] (suc n) parts = err unexpected_eof
payload_chunks (failure error ∷ inputs) (suc n) parts = err error
payload_chunks (chunk b bytes ∷ inputs) (suc n) parts =
    let part = take (suc n) (b ∷ bytes) in
    let rest = drop (suc n) (b ∷ bytes) in
    let more = payload_chunks inputs (suc n - length part) (parts ++ part ∷ []) in
    if leb (length (b ∷ bytes)) n
    then more
    else ok (parts ++ part ∷ [], record { buffer = rest; inputs = inputs })

unfoldable pub payload_from :
    List ℕ → ℕ → List Input → Result ProtocolError (List (List ℕ) × Reader)
unfolding payload_chunks
payload_from [] remaining inputs = payload_chunks inputs remaining []
payload_from (b ∷ bytes) zero inputs = ok ([], record { buffer = b ∷ bytes; inputs = inputs })
payload_from (b ∷ bytes) (suc n) inputs = payload_chunks (chunk b bytes ∷ inputs) (suc n) []

unfoldable pub read_payload : Limits → ℕ → Reader → Result ProtocolError (List (List ℕ) × Reader)
unfolding payload_from bounded
read_payload limits size r =
    bounded size limits.max_file_bytes invalid_number >>= λ n. payload_from r.buffer n r.inputs
