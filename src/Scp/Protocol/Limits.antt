-- ===== src/Scp/Protocol/Limits.antt =====
-- The errors of electron/scp/protocol.js, and the limits of an endpoint.
use usshtc.Prelude.{
  ℕ, min, not, ◌&&◌, ◌||◌, Option, none, some, if◌then◌else◌, ltb, leb, ◌==◌, Result, ok, err,
  guard, ◌>>=◌, ◌>>◌, ◌*◌,
}
use usshtc.Prelude.Dynamic.{Value, integer, pos, max_safe_integer}

-- The messages with the code SCP_PROTOCOL_ERROR, and the other codes.
pub data ProtocolError : Type 0 where
  invalid_name invalid_utf8 invalid_limit limits_exceed_buffer : ProtocolError
  invalid_characters malformed_entry malformed_time unknown_record : ProtocolError
  invalid_number directory_size invalid_message expected_ack concurrent : ProtocolError
  line_limit buffer_limit unexpected_eof peer_error peer_fatal : ProtocolError
  stream_error closed aborted timed_out : ProtocolError

-- `integer(value, label, maximum)`, for a value of any type.
unfoldable pub integer_value : Value → ℕ → ProtocolError → Result ProtocolError ℕ
integer_value (integer (pos n)) maximum error =
    if leb n max_safe_integer && leb n maximum then ok n else err error
integer_value _ maximum error = err error

-- `integer` of a natural number.
unfoldable pub bounded : ℕ → ℕ → ProtocolError → Result ProtocolError ℕ
bounded n maximum error = if leb n max_safe_integer && leb n maximum then ok n else err error

pub record Limits : Type 0 where
  pub timeout_ms : ℕ
  pub max_buffer_bytes : ℕ
  pub max_line_bytes : ℕ
  pub max_chunk_bytes : ℕ
  pub max_file_bytes : ℕ

abbrev pub default_limits : Limits
default_limits = record {
  timeout_ms = 30000;
  max_buffer_bytes = 2 * (2 * 1024 * 1024);
  max_line_bytes = 16 * 1024;
  max_chunk_bytes = 64 * 1024;
  max_file_bytes = max_safe_integer;
}

-- The options of an endpoint; `none` is an option that is left out.
pub record Options : Type 0 where
  pub timeout_ms : Option Value
  pub max_buffer_bytes : Option Value
  pub max_line_bytes : Option Value
  pub max_chunk_bytes : Option Value
  pub max_file_bytes : Option Value

unfoldable pub option_or : Option Value → ℕ → Value
option_or none n = integer (pos n)
option_or (some value) n = value

-- `Math.min(default, maxBufferBytes)`, which is NaN, and refused, where the bound is no number; a
-- bound that is no natural number is refused by itself.
unfoldable pub default_below : ℕ → Value → Value
default_below n (integer (pos bound)) = integer (pos (min n bound))
default_below n value = value

unfoldable pub option_below : Option Value → ℕ → Value → Value
unfolding default_below
option_below none n bound = default_below n bound
option_below (some value) n bound = value

-- A limit that is not zero.
unfoldable pub positive : Value → Result ProtocolError ℕ
unfolding integer_value
positive value = integer_value value max_safe_integer invalid_limit >>= λ n.
    if n == 0 then err invalid_limit else ok n

-- The tests of the five limits, in their order, and of the two that are bounded by a third.
unfoldable pub checked_limits :
    (timeout buffer line chunk file : Result ProtocolError ℕ) → Result ProtocolError Limits
checked_limits timeout buffer line chunk file = do
  timeout_ms ← timeout
  max_buffer ← buffer
  max_line ← line
  max_chunk ← chunk
  max_file ← file
  guard (not (ltb max_buffer max_chunk || ltb max_buffer max_line)) limits_exceed_buffer
  ok (record {
    timeout_ms = timeout_ms;
    max_buffer_bytes = max_buffer;
    max_line_bytes = max_line;
    max_chunk_bytes = max_chunk;
    max_file_bytes = max_file;
  })

unfoldable pub limits : Options → Result ProtocolError Limits
unfolding option_or option_below integer_value positive checked_limits
limits options =
    let buffer = option_or options.max_buffer_bytes default_limits.max_buffer_bytes in
    checked_limits
      (integer_value (option_or options.timeout_ms default_limits.timeout_ms) max_safe_integer
        invalid_limit)
      (positive buffer)
      (positive (option_below options.max_line_bytes default_limits.max_line_bytes buffer))
      (positive (option_below options.max_chunk_bytes default_limits.max_chunk_bytes buffer))
      (positive (option_or options.max_file_bytes default_limits.max_file_bytes))
