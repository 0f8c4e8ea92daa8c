-- ===== src/Scp/Protocol/Tests.antt =====
-- Tests of the model of electron/scp/protocol.js, and the theorems at concrete inputs.
use usshtc.Prelude.{
  ℕ, ◌≡◌, refl, ◌≤◌, false, List, [], ◌∷◌, ◌++◌, none, some, ok, err, length, All, Holds, arith,
}
use usshtc.Prelude.Text.{codes, is_well_formed, byte_length}
use usshtc.Prelude.Dynamic.{integer, pos}
use usshtc.Prelude.Utf8.{encode, decode}
use usshtc.Scp.Protocol.Limits.{Limits, default_limits, Options, limits, limits_exceed_buffer}
use usshtc.Scp.Protocol.Reader.{chunk, Reader, read_payload}
use usshtc.Scp.Protocol.Lines.{Record, entry, times}
use usshtc.Scp.Protocol.Records.{record_bytes, read_record, write_payload}
use usshtc.Scp.Protocol.Parsing.{read_back}
use usshtc.Scp.Protocol.RoundTrip.{Reads, read_record-record_bytes}
use usshtc.Scp.Protocol.Payload.{Takes, read_payload-write_payload}
use usshtc.Scp.Protocol.Usable.{IsUsable, limits-IsUsable}
use usshtc.Prelude.Decimal.{decimal, value_from}

abbrev header : Record
header = entry false 420 3 (codes "a b")

abbrev header_bytes : List ℕ
header_bytes = codes "C0644 3 a b" ++ 10 ∷ []

header_written : record_bytes default_limits header ≡ ok header_bytes
unfolding record_bytes encode byte_length is_well_formed decimal
header_written = refl

time_written :
    record_bytes default_limits (times 1700000000 0 17 999999)
    ≡ ok (codes "T1700000000 0 17 999999" ++ 10 ∷ [])
unfolding record_bytes encode byte_length decimal
time_written = refl

-- The same bytes in three chunks, with the content behind them.
abbrev in_chunks : Reader
in_chunks = record {
  buffer = 67 ∷ 48 ∷ [];
  inputs =
      chunk 54 (52 ∷ 52 ∷ 32 ∷ 51 ∷ [])
      ∷ chunk 32 (97 ∷ 32 ∷ 98 ∷ 10 ∷ 120 ∷ [])
      ∷ chunk 121 (122 ∷ [])
      ∷ [];
}

header_read :
    read_record default_limits in_chunks
    ≡ ok (some (header, record { buffer = 120 ∷ []; inputs = chunk 121 (122 ∷ []) ∷ [] }))
unfolding read_record decode is_well_formed value_from
header_read = refl

read_record-record_bytes_example : Reads default_limits in_chunks (read_back header) (codes "xyz")
read_record-record_bytes_example =
    read_record-record_bytes default_limits header header_bytes in_chunks (codes "xyz")
      (omega arith) header_written refl

-- U+20AC, U+1F600 and a surrogate that stands alone.
utf8_bytes :
    encode (0x20ac ∷ 0xd83d ∷ 0xde00 ∷ 0xd800 ∷ [])
    ≡ 0xe2 ∷ 0x82 ∷ 0xac ∷ 0xf0 ∷ 0x9f ∷ 0x98 ∷ 0x80 ∷ 0xef ∷ 0xbf ∷ 0xbd ∷ []
unfolding encode
utf8_bytes = refl

utf8_overlong : decode (0xc0 ∷ 0xaf ∷ []) ≡ none
unfolding decode
utf8_overlong = refl

abbrev small : Limits
small = record {
  timeout_ms = 0;
  max_buffer_bytes = 8;
  max_line_bytes = 8;
  max_chunk_bytes = 2;
  max_file_bytes = 100;
}

payload_written :
    write_payload small (codes "hello") [] ≡ ok (codes "he" ∷ codes "ll" ∷ codes "o" ∷ [])
unfolding write_payload
payload_written = refl

read_payload-write_payload_example :
    All (λ part. length part ≤ 2) (codes "he" ∷ codes "ll" ∷ codes "o" ∷ [])
    × Takes
        (read_payload small 5
          (record { buffer = codes "hel"; inputs = chunk b'l' (codes "o!") ∷ [] }))
        (codes "hello")
        (codes "!")
read_payload-write_payload_example =
    read_payload-write_payload small (codes "hello") (codes "!") []
      (codes "he" ∷ codes "ll" ∷ codes "o" ∷ [])
      (record { buffer = codes "hel"; inputs = chunk b'l' (codes "o!") ∷ [] }) (omega arith)
      payload_written refl

abbrev options : Options
options = record {
  timeout_ms = none;
  max_buffer_bytes = some (integer (pos 100));
  max_line_bytes = none;
  max_chunk_bytes = some (integer (pos 200));
  max_file_bytes = none;
}

chunk_too_long : limits options ≡ err limits_exceed_buffer
unfolding limits
chunk_too_long = refl

limits-IsUsable_example : Holds IsUsable (limits (record options { max_chunk_bytes = none }))
limits-IsUsable_example = limits-IsUsable (record options { max_chunk_bytes = none })
