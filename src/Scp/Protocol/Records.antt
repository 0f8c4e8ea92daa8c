-- ===== src/Scp/Protocol/Records.antt =====
-- `readRecord`, `readAck`, `writeRecord` and `writePayload` of electron/scp/protocol.js.
use usshtc.Prelude.{
  ℕ, zero, suc, ◌+◌, ◌-◌, Bool, not, List, [], ◌∷◌, ◌++◌, Option, none, some, if◌then◌else◌, ltb,
  ◌==◌, Result, ok, err, guard, ◌>>=◌, ◌>>◌, length, take, drop,
}
use usshtc.Prelude.Text.{Text, byte_length}
use usshtc.Prelude.Utf8.{encode}
use usshtc.Scp.Protocol.Limits.{
  ProtocolError, line_limit, buffer_limit, stream_error, unexpected_eof, expected_ack,
  invalid_number, peer_fatal, Limits, bounded,
}
use usshtc.Scp.Protocol.Limits as Limit
use usshtc.Scp.Protocol.Reader.{Reader, byte_from, line}
use usshtc.Scp.Protocol.Lines.{Record, ack, peer_error, parse_line, print_line}

-- `null` at the end of the stream.
abbrev pub Read : Type 0
Read = Option (Record × Reader)

unfoldable pub read_line : Limits → ℕ → Reader → Result ProtocolError Read
unfolding line parse_line
read_line limits type r = do
  (text, r') ← line limits.max_line_bytes r
  parsed ← parse_line limits type text
  ok (some (parsed, r'))

unfoldable pub read_typed : Limits → Option (ℕ × Reader) → Result ProtocolError Read
unfolding read_line
read_typed limits none = ok none
read_typed limits (some (type, r)) =
    if type == 0 then ok (some (ack, r)) else read_line limits type r

unfoldable pub read_record : Limits → Reader → Result ProtocolError Read
unfolding byte_from read_typed
read_record limits r = byte_from r.buffer r.inputs >>= read_typed limits

unfoldable pub acknowledged : Read → Result ProtocolError Reader
acknowledged none = err unexpected_eof
acknowledged (some (ack, r)) = ok r
acknowledged (some (peer_error fatal message, r)) =
    err (if fatal then peer_fatal else Limit.peer_error)
acknowledged (some (_, r)) = err expected_ack

unfoldable pub read_ack : Limits → Reader → Result ProtocolError Reader
unfolding read_record acknowledged
read_ack limits r = read_record limits r >>= acknowledged

-- The stream at one write: whether it can be written to, how many bytes it holds, and how the write
-- ends.
pub record Sink : Type 0 where
  pub writable : Bool
  pub held : ℕ
  pub done : Result ProtocolError (Unit {0})

-- The chunks that were written, and the sinks of the next writes; a stream accepts where no sink is
-- given.
unfoldable pub write_chunk : Limits → List ℕ → List Sink → Result ProtocolError (List Sink)
write_chunk limits bytes [] =
    guard (not (ltb limits.max_buffer_bytes (length bytes))) buffer_limit >> ok []
write_chunk limits bytes (sink ∷ sinks) = do
  guard sink.writable stream_error
  guard (not (ltb limits.max_buffer_bytes (sink.held + length bytes))) buffer_limit
  sink.done
  ok sinks

-- `bytes.subarray(offset, offset + maxChunkBytes)` for each offset; as much fuel as there are bytes.
unfoldable pub chunks : ℕ → ℕ → List ℕ → List (List ℕ)
chunks zero size bytes = []
chunks (suc fuel) size [] = []
chunks (suc fuel) size (b ∷ bytes) =
    take size (b ∷ bytes) ∷ chunks fuel size (drop size (b ∷ bytes))

unfoldable pub write_chunks : Limits → List (List ℕ) → List Sink → Result ProtocolError (List Sink)
unfolding write_chunk
write_chunks limits [] sinks = ok sinks
write_chunks limits (bytes ∷ more) sinks =
    write_chunk limits bytes sinks >>= λ rest. write_chunks limits more rest

unfoldable pub write_payload : Limits → List ℕ → List Sink → Result ProtocolError (List (List ℕ))
unfolding bounded chunks write_chunks
write_payload limits bytes sinks = do
  bounded (length bytes) limits.max_file_bytes invalid_number >>= λ _. ok tt
  let parts = chunks (length bytes) limits.max_chunk_bytes bytes
  write_chunks limits parts sinks >>= λ _. ok parts

-- The bytes of a record. The bound is on the line without its type and its newline.
unfoldable pub line_of : Limits → Option (ℕ × Text) → Result ProtocolError (List ℕ)
line_of limits none = ok (0 ∷ [])
line_of limits (some (type, text)) =
    if ltb limits.max_line_bytes (byte_length (type ∷ text) - 1)
    then err line_limit
    else ok (encode (type ∷ (text ++ 10 ∷ [])))

unfoldable pub record_bytes : Limits → Record → Result ProtocolError (List ℕ)
unfolding print_line line_of
record_bytes limits r = print_line limits r >>= line_of limits

unfoldable pub write_record : Limits → Record → List Sink → Result ProtocolError (List (List ℕ))
unfolding record_bytes chunks write_chunks
write_record limits r sinks = do
  bytes ← record_bytes limits r
  let parts = chunks (length bytes) limits.max_chunk_bytes bytes
  write_chunks limits parts sinks >>= λ _. ok parts
