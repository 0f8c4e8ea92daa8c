-- ===== src/Exec/Parser/Bounds.antt =====
-- What holds of the parser of electron/exec-codec.js after every sequence of writes: the limits, and
-- the order of its callbacks.
use mathlib.Core.Path.{subst}
use usshtc.Prelude.{
  ℕ, ◌+◌, ◌≤◌, ◌≡◌, inl, inr, Bool, true, false, not, ◌||◌, List, [], ◌∷◌, ◌++◌, Option, none, some,
  arith, length, ltb, if◌then◌else◌, Bool-cases, Option-cases, all, sym,
}
use usshtc.Prelude.Text.{Text, is_empty}
use usshtc.Exec.Base64.{is_digit, decode}
use usshtc.Exec.Parser.{
  ExecError, exec_output_limit, exec_framing_failed, Phase, prelude, ready, base64_output, complete,
  Call, on_ready, on_start, on_output, on_complete, Limits, Parser, fail, then_do, find_marker,
  emit, exit_code, read_code, decode_output, index_of_padding, decode_groups, read_groups,
  consume_base64,
}

-- The bytes that were passed to `onOutput`.
abbrev pub emitted : List Call → ℕ
emitted [] = 0
emitted (on_output bytes ∷ calls) = length bytes + emitted calls
emitted (on_ready ∷ calls) = emitted calls
emitted (on_start ∷ calls) = emitted calls
emitted (on_complete code ∷ calls) = emitted calls

-- READY, START and then output only, never empty; the latest call is in front.
pub data Streaming : List Call → Type 0 where
  started : Streaming (on_start ∷ on_ready ∷ [])
  output :
      {calls : List Call} (b : ℕ) (bytes : List ℕ)
      → Streaming calls
      → Streaming (on_output (b ∷ bytes) ∷ calls)

-- The calls that a phase allows.
abbrev pub Trace : Phase → List Call → Type 0
Trace prelude calls = calls ≡ []
Trace ready calls = calls ≡ on_ready ∷ []
Trace base64_output calls = Streaming calls
Trace complete calls =
    (code : ℕ) × (rest : List Call) × (calls ≡ on_complete code ∷ rest)
    × (code ≤ 255)
    × Streaming rest

abbrev pub SmallCode : Option ℕ → Type 0
SmallCode none = Unit
SmallCode (some code) = code ≤ 255

-- A completion code is known only while output is read, or behind it.
abbrev pub Coded : Phase → Option ℕ → Type 0
Coded base64_output code = SmallCode code
Coded complete code = SmallCode code
Coded prelude none = Unit
Coded prelude (some code) = ⊥
Coded ready none = Unit
Coded ready (some code) = ⊥

pub then_do-none : (p : Parser) (next : Parser → Parser) → p.failed ≡ none → then_do p next ≡ next p
unfolding then_do
then_do-none p next e = ground arith

pub then_do-some :
    (p : Parser) (next : Parser → Parser) {x : ExecError} → p.failed ≡ some x → then_do p next ≡ p
unfolding then_do
then_do-some p next e = ground arith

pub then_do-keeps {ℓ} :
    (P : Parser → Type ℓ) (p : Parser) (next : Parser → Parser)
    → P p
    → ((q : Parser) → P q → P (next q))
    → P (then_do p next)
then_do-keeps P p next h k = elim (Option-cases p.failed) [
  | inl e ↦ subst P (sym (then_do-none p next e)) (k p h)
  | inr (x, e) ↦ subst P (sym (then_do-some p next e)) h
]

module _ (l : Limits) where
  -- The parser while it reads output.
  pub record Streams (p : Parser) : Type 0 where
    pub streaming : p.phase ≡ base64_output
    pub bounded : p.output_bytes ≤ l.max_output_bytes
    pub exact : emitted p.calls ≡ p.output_bytes
    pub small_code : SmallCode p.complete_code
    pub trace : Streaming p.calls
    pub prelude_small : p.failed ≡ none → p.prelude_bytes ≤ l.max_prelude_bytes
    pub encoded_small : p.failed ≡ none → p.encoded_bytes ≤ l.max_encoded_bytes

  pub fail-Streams : (e : ExecError) (p : Parser) → Streams p → Streams (fail e p)
  unfolding fail
  fail-Streams e p s = record {
    streaming = s.streaming;
    bounded = s.bounded;
    exact = s.exact;
    small_code = s.small_code;
    trace = s.trace;
    prelude_small = λ h. cc;
    encoded_small = λ h. cc;
  }

  emit-Streams : (bytes : List ℕ) (p : Parser) → Streams p → Streams (emit l bytes p)
  unfolding emit
  emit-Streams [] p s = s
  emit-Streams (b ∷ bytes) p s =
      elim (Bool-cases (ltb l.max_output_bytes (p.output_bytes + length (b ∷ bytes)))) [
        | inl e ↦ rw e (fail-Streams exec_output_limit p s)
        | inr e ↦ rw e (record {
          streaming = s.streaming;
          bounded = ground arith;
          exact = omega (arith, s.exact);
          small_code = s.small_code;
          trace = output b bytes s.trace;
          prelude_small = s.prelude_small;
          encoded_small = s.encoded_small;
        })
      ]

  exit_code-small : (s : Text) → SmallCode (exit_code s)
  unfolding exit_code
  exit_code-small [] = tt
  exit_code-small (c ∷ s) = ground arith

  -- The carries may change.
  carry-Streams :
      (p : Parser) (decoded : List ℕ) (pending : Text) (padded : Bool)
      → Streams p
      → Streams (record p { decoded_carry = decoded; base64_carry = pending; padded = padded })
  carry-Streams p decoded pending padded s = record {
    streaming = s.streaming;
    bounded = s.bounded;
    exact = s.exact;
    small_code = s.small_code;
    trace = s.trace;
    prelude_small = s.prelude_small;
    encoded_small = s.encoded_small;
  }

  code-Streams :
      (p : Parser) (code : ℕ)
      → code ≤ 255
      → Streams p
      → Streams (record p { complete_code = some code; decoded_carry = [] })
  code-Streams p code h s = record {
    streaming = s.streaming;
    bounded = s.bounded;
    exact = s.exact;
    small_code = h;
    trace = s.trace;
    prelude_small = s.prelude_small;
    encoded_small = s.encoded_small;
  }

  if-Streams : (b : Bool) (p q : Parser) → Streams p → Streams q → Streams (if b then p else q)
  if-Streams true p q s t = s
  if-Streams false p q s t = t

  read_code-Streams :
      (end_prefix : Text) (suffix : List ℕ) (p : Parser)
      → Streams p
      → Streams (read_code end_prefix suffix p)
  unfolding read_code
  read_code-Streams end_prefix suffix p s = elim (Option-cases (find_marker (0x1f ∷ []) suffix)) [
    | inl e ↦
        rw (e, read_code)
          (if-Streams (ltb 3 (length suffix) || not (all is_digit suffix)) _ _
            (fail-Streams exec_framing_failed p s)
            (carry-Streams p (end_prefix ++ suffix) p.base64_carry p.padded s))
    | inr (found, e) ↦
        rw (e, read_code)
          (elim (Option-cases (exit_code found.0)) [
            | inl none_read ↦ rw (none_read) (fail-Streams exec_framing_failed p s)
            | inr (code, read) ↦
                let small : code ≤ 255 = subst SmallCode read (exit_code-small found.0) in
                rw read (
                  if-Streams (is_empty found.1) _ _ (code-Streams p code small s)
                    (fail-Streams exec_framing_failed p s))
          ])
  ]

  decode_output-Streams :
      (end_prefix : Text) (bytes : List ℕ) (p : Parser)
      → Streams p
      → Streams (decode_output end_prefix l bytes p)
  unfolding decode_output
  decode_output-Streams end_prefix bytes p s =
      elim (Option-cases (find_marker end_prefix (p.decoded_carry ++ bytes))) [
        | inl e ↦
            rw (e, decode_output)
              (then_do-keeps Streams _ _ (emit-Streams _ p s)
                (λ q t. carry-Streams q _ q.base64_carry q.padded t))
        | inr (found, e) ↦
            rw (e, decode_output)
              (then_do-keeps Streams _ _ (emit-Streams found.0 p s)
                (λ q t. read_code-Streams end_prefix found.1 q t))
      ]

  decode_groups-Streams :
      (end_prefix groups : Text) (p : Parser)
      → Streams p
      → Streams (decode_groups end_prefix l groups p)
  unfolding decode_groups
  decode_groups-Streams end_prefix groups p s = elim (Option-cases (index_of_padding groups)) [
    | inl e ↦ rw (e, decode_groups) (decode_output-Streams end_prefix (decode groups) p s)
    | inr (at, e) ↦
        let t = carry-Streams p p.decoded_carry p.base64_carry true s in
        rw (e, decode_groups)
          (if-Streams _ _ _ (fail-Streams exec_framing_failed p s) (
            if-Streams _ _ _ (fail-Streams exec_framing_failed _ t)
              (decode_output-Streams end_prefix (decode groups) _ t)))
  ]

  read_groups-Streams :
      (end_prefix content : Text) (p : Parser)
      → Streams p
      → Streams (read_groups end_prefix l content p)
  unfolding read_groups
  read_groups-Streams end_prefix content p s =
      if-Streams _ _ _ (fail-Streams exec_framing_failed p s) (
        if-Streams _ _ _ (carry-Streams p p.decoded_carry content p.padded s)
          (decode_groups-Streams end_prefix _ _ (carry-Streams p p.decoded_carry _ p.padded s)))

  -- The count of encoded characters is tested at once.
  pub consume_base64-Streams :
      (end_prefix text : Text) (p : Parser)
      → Streams p
      → Streams (consume_base64 end_prefix l text p)
  unfolding consume_base64
  consume_base64-Streams end_prefix text p s =
      elim (Bool-cases (ltb l.max_encoded_bytes (p.encoded_bytes + length text))) [
        | inl e ↦ rw e (
            unfold fail in
            record {
              streaming = s.streaming;
              bounded = s.bounded;
              exact = s.exact;
              small_code = s.small_code;
              trace = s.trace;
              prelude_small = λ h. cc;
              encoded_small = λ h. cc;
            })
        | inr e ↦
            let q : Parser = record p { encoded_bytes = p.encoded_bytes + length text } in
            let t : Streams q = record {
              streaming = s.streaming;
              bounded = s.bounded;
              exact = s.exact;
              small_code = s.small_code;
              trace = s.trace;
              prelude_small = s.prelude_small;
              encoded_small = λ h. ground arith;
            } in
            rw e (
              if-Streams _ _ _ (fail-Streams exec_framing_failed q t) (
                if-Streams _ _ _ t (
                  if-Streams _ _ _ (fail-Streams exec_framing_failed q t)
                    (read_groups-Streams end_prefix _ q t))))
      ]
