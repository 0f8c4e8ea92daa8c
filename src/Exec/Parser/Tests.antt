-- ===== src/Exec/Parser/Tests.antt =====
-- A run of the parser of electron/exec-codec.js, and its theorems at concrete inputs.
use usshtc.Prelude.{◌≡◌, refl, List, [], ◌∷◌, ◌++◌, some}
use usshtc.Prelude.Text.{Text, codes, byte_length}
use usshtc.Exec.Base64.{encode, decode, is_base64, is_wire_char}
use usshtc.Exec.Parser.{
  Parser, on_ready, on_start, on_output, on_complete, exec_framing_failed, default_limits, fresh,
  frame, write, then_do, consume_chunks, consume, consume_in, consume_prelude, consume_ready,
  consume_frame, consume_base64, read_groups, decode_groups, decode_output, read_code, emit, kept,
  finish, find_marker, index_of_padding, keep_from, is_done, exit_code,
}
use usshtc.Exec.Parser.Order.{IsSound, writes, writes-IsSound}

abbrev nonce : Text
nonce = codes "ab"

-- READY and START, the second in two pieces, and `hi` with the exit code 7 in base64.
abbrev session : List Text
session =
    (codes "motd" ++ frame nonce (codes "READY" ++ 0x1f ∷ []) ++ 0x1e ∷ codes "USSH")
    ∷ (codes "TC_ab:START" ++ 0x1f ∷ [])
    ∷ encode (codes "hi" ++ frame nonce (codes "END:7") ++ 0x1f ∷ [])
    ∷ []

writes-IsSound_example : IsSound default_limits (writes nonce default_limits session fresh)
writes-IsSound_example = writes-IsSound nonce default_limits session

session_calls :
    (writes nonce default_limits session fresh).calls
    ≡ on_complete 7 ∷ on_output (codes "hi") ∷ on_start ∷ on_ready ∷ []
unfolding writes write then_do consume_chunks consume consume_in consume_prelude consume_ready
    consume_frame consume_base64 read_groups decode_groups decode_output read_code emit kept finish
    find_marker index_of_padding is_done exit_code is_base64 decode encode is_wire_char byte_length
    keep_from
session_calls = refl

abbrev broken : Parser
broken = record fresh { failed = some exec_framing_failed }
