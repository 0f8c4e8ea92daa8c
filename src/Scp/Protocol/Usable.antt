-- ===== src/Scp/Protocol/Usable.antt =====
-- What electron/scp/protocol.js promises of the limits of an endpoint, whatever its options are.
use usshtc.Prelude.{ℕ, ◌≤◌, ◌<◌, not, ◌||◌, ltb, Result, ok, err, Holds, Holds-guard, arith}
use usshtc.Prelude.Dynamic.{Value, undefined, integer, pos, max_safe_integer}
use usshtc.Scp.Protocol.Limits.{
  ProtocolError, invalid_limit, limits_exceed_buffer, integer_value, positive, Limits, Options,
  default_limits, option_or, option_below, limits, checked_limits,
}

-- A record and a chunk fit into the buffer, and neither is empty.
pub record IsUsable (l : Limits) : Type 0 where
  pub lines_fit : (0 < l.max_line_bytes) × (l.max_line_bytes ≤ l.max_buffer_bytes)
  pub chunks_fit : (0 < l.max_chunk_bytes) × (l.max_chunk_bytes ≤ l.max_buffer_bytes)
  pub files : (0 < l.max_file_bytes) × (l.max_file_bytes ≤ max_safe_integer)

abbrev IsPositive : ℕ → Type 0
IsPositive n = (0 < n) × (n ≤ max_safe_integer)

Holds-positive : (value : Value) → Holds IsPositive (positive value)
unfolding positive
Holds-positive undefined = tt
Holds-positive (integer (pos n)) = ground arith
Holds-positive _ = tt

checked_limits-IsUsable :
    (timeout buffer line chunk file : Result ProtocolError ℕ)
    → Holds IsPositive line
    → Holds IsPositive chunk
    → Holds IsPositive file
    → Holds IsUsable (checked_limits timeout buffer line chunk file)
unfolding checked_limits
checked_limits-IsUsable (ok t) (ok b) (ok l) (ok c) (ok f) p q r =
    Holds-guard IsUsable (not (ltb b c || ltb b l)) limits_exceed_buffer _ λ g. ground arith
checked_limits-IsUsable (err e) buffer line chunk file p q r = tt
checked_limits-IsUsable (ok t) (err e) line chunk file p q r = tt
checked_limits-IsUsable (ok t) (ok b) (err e) chunk file p q r = tt
checked_limits-IsUsable (ok t) (ok b) (ok l) (err e) file p q r = tt
checked_limits-IsUsable (ok t) (ok b) (ok l) (ok c) (err e) p q r = tt

-- The limits that an endpoint works with, whatever options it is given: no limit of lines, chunks and
-- files is zero, and a line and a chunk are not longer than the buffer.
pub limits-IsUsable : (options : Options) → Holds IsUsable (limits options)
unfolding limits
limits-IsUsable options =
    let buffer = option_or options.max_buffer_bytes default_limits.max_buffer_bytes in
    checked_limits-IsUsable
      (integer_value (option_or options.timeout_ms default_limits.timeout_ms) max_safe_integer
        invalid_limit)
      (positive buffer)
      (positive (option_below options.max_line_bytes default_limits.max_line_bytes buffer))
      (positive (option_below options.max_chunk_bytes default_limits.max_chunk_bytes buffer))
      (positive (option_or options.max_file_bytes default_limits.max_file_bytes))
      (Holds-positive (option_below options.max_line_bytes default_limits.max_line_bytes buffer))
      (Holds-positive (option_below options.max_chunk_bytes default_limits.max_chunk_bytes buffer))
      (Holds-positive (option_or options.max_file_bytes default_limits.max_file_bytes))
