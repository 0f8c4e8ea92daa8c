-- ===== src/Exec/Parser.antt =====
-- `createExecParser` of electron/exec-codec.js: the framed output of a remote command, read in chunks.
pub mod Bounds
pub mod Order
mod Tests
use usshtc.Prelude.{
  ℕ, zero, suc, ◌+◌, ◌-◌, ◌*◌, ◌/◌, ◌%◌, ◌≤◌, Bool, true, false, not, ◌&&◌, ◌||◌, List, [], ◌∷◌,
  ◌++◌, Option, none, some, leb, ltb, ◌==◌, if◌then◌else◌, all, any, length, take, drop, select,
  min, map,
}
use usshtc.Prelude.Text.{Text, codes, text_eq, byte_length, is_empty}
use usshtc.Exec.Base64.{is_digit, is_newline, is_wire_char, is_base64, decode, encode}

pub data ExecError : Type 0 where
  exec_setup_failed exec_output_limit exec_framing_failed : ExecError

-- `START` is left within the step that enters it, so it has no constructor.
pub data Phase : Type 0 where
  prelude ready base64_output complete : Phase

-- The calls of `onReady`, `onStart`, `onOutput` and `onComplete`.
pub data Call : Type 0 where
  on_ready on_start : Call
  on_output : List ℕ → Call
  on_complete : ℕ → Call

pub record Limits : Type 0 where
  pub max_prelude_bytes : ℕ
  pub max_output_bytes : ℕ
  pub max_encoded_bytes : ℕ

-- The options' defaults.
abbrev pub default_limits : Limits
default_limits = record {
  max_prelude_bytes = 1048576;
  max_output_bytes = 8388608;
  max_encoded_bytes = 2 * 8388608 + 65536;
}

-- The variables of the closure. `calls` has the latest call first.
pub record Parser : Type 0 where
  pub phase : Phase
  pub prelude_carry : Text
  pub prelude_bytes : ℕ
  pub encoded_bytes : ℕ
  pub output_bytes : ℕ
  pub base64_carry : Text
  pub padded : Bool
  pub decoded_carry : List ℕ
  pub complete_code : Option ℕ
  pub failed : Option ExecError
  pub calls : List Call

abbrev pub fresh : Parser
fresh = record {
  phase = prelude;
  prelude_carry = [];
  prelude_bytes = 0;
  encoded_bytes = 0;
  output_bytes = 0;
  base64_carry = [];
  padded = false;
  decoded_carry = [];
  complete_code = none;
  failed = none;
  calls = [];
}

abbrev max_chunk : ℕ
max_chunk = 65536

-- `fail` throws: what follows it in a call does not happen.
pub fail : ExecError → Parser → Parser
fail e p = record p { failed = some e }

-- Two statements in a row, the second unless the first has thrown.
pub then_do : Parser → (Parser → Parser) → Parser
then_do p next = elim p.failed [ none ↦ next p | some e ↦ p ]

starts_with : Text → Text → Bool
starts_with [] s = true
starts_with (m ∷ marker) [] = false
starts_with (m ∷ marker) (c ∷ s) = m == c && starts_with marker s

-- `indexOf`, with what stands before and behind the first occurrence.
find_marker : Text → Text → Option (Text × Text)
unfolding starts_with
find_marker marker [] = if starts_with marker [] then some ([], []) else none
find_marker marker (c ∷ s) =
    let later = find_marker marker s in
    if starts_with marker (c ∷ s)
    then some ([], drop (length marker) (c ∷ s))
    else elim later [ none ↦ none | some (before, rest) ↦ some (c ∷ before, rest) ]

-- `data.endsWith(marker.slice(0, keep))`.
ends_with_prefix : ℕ → Text → Text → Bool
ends_with_prefix keep marker s = text_eq (drop (length s - keep) s) (take keep marker)

-- `while (keep && !data.endsWith(marker.slice(0, keep))) keep--`.
keep_from : ℕ → Text → Text → ℕ
unfolding ends_with_prefix
keep_from zero marker s = 0
keep_from (suc k) marker s =
    let fewer = keep_from k marker s in if ends_with_prefix (suc k) marker s then suc k else fewer

kept : Text → Text → ℕ
kept marker s = keep_from (min (length marker - 1) (length s)) marker s

-- `emit`.
pub emit : Limits → List ℕ → Parser → Parser
emit l [] p = p
emit l (b ∷ bytes) p =
    if ltb l.max_output_bytes (p.output_bytes + length (b ∷ bytes))
    then fail exec_output_limit p
    else record p {
      output_bytes = p.output_bytes + length (b ∷ bytes);
      calls = on_output (b ∷ bytes) ∷ p.calls;
    }

decimal : ℕ → Text → ℕ
decimal acc [] = acc
decimal acc (c ∷ s) = decimal (acc * 10 + (c - b'0')) s

-- `/^(?:0|[1-9]\d{0,2})$/` and at most 255.
exit_code : Text → Option ℕ
unfolding decimal
exit_code [] = none
exit_code (c ∷ s) =
    if (c == b'0' && is_empty s) || (leb b'1' c && leb c b'9' && all is_digit s && leb (length s) 2)
    then (if leb (decimal 0 (c ∷ s)) 255 then some (decimal 0 (c ∷ s)) else none)
    else none

-- The part of `decodeOutput` behind an END prefix.
read_code : Text → List ℕ → Parser → Parser
read_code end_prefix suffix p = elim (find_marker (0x1f ∷ []) suffix) [
  | none ↦
      if ltb 3 (length suffix) || not (all is_digit suffix)
      then fail exec_framing_failed p
      else record p { decoded_carry = end_prefix ++ suffix }
  | some (code_text, behind) ↦ elim (exit_code code_text) [
    | none ↦ fail exec_framing_failed p
    | some code ↦
        if is_empty behind
        then record p { complete_code = some code; decoded_carry = [] }
        else fail exec_framing_failed p
  ]
]

-- `decodeOutput`.
decode_output : Text → Limits → List ℕ → Parser → Parser
decode_output end_prefix l bytes p =
    let content = p.decoded_carry ++ bytes in
    elim (find_marker end_prefix content) [
      | some (before, suffix) ↦ then_do (emit l before p) (read_code end_prefix suffix)
      | none ↦
          let keep = kept end_prefix content in
          then_do (emit l (take (length content - keep) content) p)
            (λ q. record q { decoded_carry = drop (length content - keep) content })
    ]

index_of_padding : Text → Option ℕ
index_of_padding [] = none
index_of_padding (c ∷ s) =
    if c == b'=' then some 0 else elim (index_of_padding s) [ none ↦ none | some n ↦ some (suc n) ]

-- The part of `consumeBase64` behind the carry.
decode_groups : Text → Limits → Text → Parser → Parser
decode_groups end_prefix l groups p = elim (index_of_padding groups) [
  | none ↦ decode_output end_prefix l (decode groups) p
  | some at ↦
      if not (is_empty p.base64_carry) || ltb at (length groups - 2)
      then fail exec_framing_failed p
      else if not (text_eq (encode (decode groups)) groups)
      then fail exec_framing_failed (record p { padded = true })
      else decode_output end_prefix l (decode groups) (record p { padded = true })
]

is_done : Option ℕ → Bool
is_done none = false
is_done (some code) = true

read_groups : Text → Limits → Text → Parser → Parser
read_groups end_prefix l content p =
    let whole = length content - length content % 4 in
    if not (is_base64 content)
    then fail exec_framing_failed p
    else if whole == 0
    then record p { base64_carry = content }
    else decode_groups end_prefix l (take whole content)
        (record p { base64_carry = drop whole content })

-- `consumeBase64`.
pub consume_base64 : Text → Limits → Text → Parser → Parser
consume_base64 end_prefix l text p =
    let q = record p { encoded_bytes = p.encoded_bytes + length text } in
    let compact = select (λ c. not (is_newline c)) text in
    if ltb l.max_encoded_bytes q.encoded_bytes
    then fail exec_output_limit q
    else if not (all is_wire_char text)
    then fail exec_framing_failed q
    else if is_empty compact
    then q
    else if q.padded || is_done q.complete_code
    then fail exec_framing_failed q
    else read_groups end_prefix l (q.base64_carry ++ compact) q

-- The frame that `consume` looks for in the first two phases. A marker that is cut off at the end
-- of the text is kept for the next chunk.
consume_frame : Text → Limits → Text → (Text → Parser → Parser) → Parser → Parser
consume_frame marker l text found p =
    let content = p.prelude_carry ++ text in
    elim (find_marker marker content) [
      | none ↦
          let discarded = length content - kept marker content in
          let q = record p {
            prelude_bytes = p.prelude_bytes + byte_length (take discarded content);
          } in
          if ltb l.max_prelude_bytes q.prelude_bytes
          then fail exec_output_limit q
          else record q { prelude_carry = drop discarded content }
      | some (before, rest) ↦
          let q = record p { prelude_bytes = p.prelude_bytes + byte_length before } in
          if ltb l.max_prelude_bytes q.prelude_bytes
          then fail exec_output_limit q
          else found rest (record q { prelude_carry = [] })
    ]

abbrev frame : Text → Text → Text
frame nonce name = 0x1e ∷ codes "USSHTC_" ++ nonce ++ b':' ∷ name

abbrev end_prefix_of : Text → Text
end_prefix_of nonce = frame nonce (codes "END:")

-- `consume`, by the phase that it meets; each call of itself is in the next phase.
consume_ready : Text → Limits → Text → Parser → Parser
consume_ready nonce l text =
    consume_frame (frame nonce (codes "START" ++ 0x1f ∷ [])) l text (λ rest p.
      consume_base64 (end_prefix_of nonce) l rest
        (record p { phase = base64_output; calls = on_start ∷ p.calls }))

consume_prelude : Text → Limits → Text → Parser → Parser
consume_prelude nonce l text =
    consume_frame (frame nonce (codes "READY" ++ 0x1f ∷ [])) l text (λ rest p.
      consume_ready nonce l rest (record p { phase = ready; calls = on_ready ∷ p.calls }))

consume_in : Phase → Text → Limits → Text → Parser → Parser
consume_in complete nonce l text p = if all is_newline text then p else fail exec_framing_failed p
consume_in prelude nonce l text p = consume_prelude nonce l text p
consume_in ready nonce l text p = consume_ready nonce l text p
consume_in base64_output nonce l text p = consume_base64 (end_prefix_of nonce) l text p

pub consume : Text → Limits → Text → Parser → Parser
consume nonce l text p = consume_in p.phase nonce l text p

-- The loop of `write` over chunks of `MAX_CHUNK` characters; every round takes one at least.
consume_chunks : ℕ → Text → Limits → Text → Parser → Parser
consume_chunks zero nonce l text p = p
consume_chunks (suc fuel) nonce l [] p = p
consume_chunks (suc fuel) nonce l (c ∷ text) p =
    then_do (consume nonce l (take max_chunk (c ∷ text)) p)
      (consume_chunks fuel nonce l (drop max_chunk (c ∷ text)))

finish : Phase → Option ℕ → Parser → Parser
finish complete code p = p
finish _ none p = p
finish _ (some code) p =
    if is_empty p.base64_carry
    then record p { phase = complete; calls = on_complete code ∷ p.calls }
    else fail exec_framing_failed p

-- `write`, on a string: the error that it throws, if any, is in `failed`.
pub write : Text → Limits → Text → Parser → Parser
write nonce l text p = then_do p (λ q.
    then_do (consume_chunks (length text) nonce l text q) (λ r. finish r.phase r.complete_code r))

is_complete : Phase → Bool
is_complete complete = true
is_complete _ = false

-- `end`.
pub end : Parser → Parser
end p = then_do p (λ q.
    if is_complete q.phase
    then q
    else (elim q.phase [ prelude ↦ fail exec_setup_failed q | _ ↦ fail exec_framing_failed q ]))
