-- ===== src/Exec/Parser/Order.antt =====
-- Every sequence of writes keeps the limits of the parser of electron/exec-codec.js and the order of
-- its callbacks.
use mathlib.Core.Path.{subst}
use usshtc.Prelude.{
  ℕ, zero, suc, ◌+◌, ◌-◌, ◌≤◌, ◌≡◌, refl, sym, Bool, true, false, List, [], ◌∷◌, ◌++◌, Option, none,
  some, arith, inl, inr, length, take, drop, ltb, if◌then◌else◌, Bool-cases, Option-cases,
}
use usshtc.Prelude.Text.{Text, byte_length, is_empty}
use usshtc.Exec.Parser.{
  ExecError, exec_output_limit, exec_framing_failed, Phase, prelude, ready, base64_output, complete,
  Call, on_ready, on_start, on_complete, Limits, Parser, fresh, fail, find_marker, kept,
  consume_frame, end_prefix_of, consume_ready, consume_prelude, consume_in, consume, consume_chunks,
  finish, write, max_chunk,
}
use usshtc.Exec.Parser.Bounds.{
  emitted, Streaming, started, Trace, SmallCode, Coded, Streams, then_do-keeps,
  consume_base64-Streams,
}

module _ (l : Limits) where
  -- What holds between two writes. While nothing has failed, the two counts are within their limits.
  pub record IsSound (p : Parser) : Type 0 where
    pub bounded : p.output_bytes ≤ l.max_output_bytes
    pub exact : emitted p.calls ≡ p.output_bytes
    pub coded : Coded p.phase p.complete_code
    pub trace : Trace p.phase p.calls
    pub prelude_small : p.failed ≡ none → p.prelude_bytes ≤ l.max_prelude_bytes
    pub encoded_small : p.failed ≡ none → p.encoded_bytes ≤ l.max_encoded_bytes

  fail-IsSound : (e : ExecError) (p : Parser) → IsSound p → IsSound (fail e p)
  unfolding fail
  fail-IsSound e p s = record {
    bounded = s.bounded;
    exact = s.exact;
    coded = s.coded;
    trace = s.trace;
    prelude_small = λ h. cc;
    encoded_small = λ h. cc;
  }

  Streams-IsSound : (p : Parser) → Streams l p → IsSound p
  Streams-IsSound p s = record {
    bounded = s.bounded;
    exact = s.exact;
    coded = subst (λ (x : Phase). Coded x p.complete_code) (sym s.streaming) s.small_code;
    trace = subst (λ (x : Phase). Trace x p.calls) (sym s.streaming) s.trace;
    prelude_small = s.prelude_small;
    encoded_small = s.encoded_small;
  }

  IsSound-Streams : (p : Parser) → p.phase ≡ base64_output → IsSound p → Streams l p
  IsSound-Streams p e s = record {
    streaming = e;
    bounded = s.bounded;
    exact = s.exact;
    small_code = subst (λ (x : Phase). Coded x p.complete_code) e s.coded;
    trace = subst (λ (x : Phase). Trace x p.calls) e s.trace;
    prelude_small = s.prelude_small;
    encoded_small = s.encoded_small;
  }

  if-IsSound : (b : Bool) (p q : Parser) → IsSound p → IsSound q → IsSound (if b then p else q)
  if-IsSound true p q s t = s
  if-IsSound false p q s t = t

  -- The bytes in front of a frame are counted and tested at once.
  consume_frame-IsSound :
      (marker text : Text) (found : Text → Parser → Parser) (p : Parser)
      → IsSound p
      → ((rest : Text) (q : Parser) → q.phase ≡ p.phase → IsSound q → IsSound (found rest q))
      → IsSound (consume_frame marker l text found p)
  unfolding consume_frame
  consume_frame-IsSound marker text found p s k =
      elim (Option-cases (find_marker marker (p.prelude_carry ++ text))) [
        | inl e ↦
            rw (e, consume_frame)
              (counted
                (p.prelude_bytes
                  + byte_length (
                      take
                        (length (p.prelude_carry ++ text) - kept marker (p.prelude_carry ++ text))
                        (p.prelude_carry ++ text)))
                (λ q. record q {
                  prelude_carry =
                      drop
                        (length (p.prelude_carry ++ text) - kept marker (p.prelude_carry ++ text))
                        (p.prelude_carry ++ text);
                })
                (λ q _ t. carried q _ t))
        | inr (parts, e) ↦
            rw (e, consume_frame)
              (counted (p.prelude_bytes + byte_length parts.0)
                (λ q. found parts.1 (record q { prelude_carry = [] }))
                (λ q same t. k parts.1 (record q { prelude_carry = [] }) same (carried q [] t)))
      ]
    where
      carried :
          (q : Parser) (carry : Text) → IsSound q → IsSound (record q { prelude_carry = carry })
      carried q carry t = record {
        bounded = t.bounded;
        exact = t.exact;
        coded = t.coded;
        trace = t.trace;
        prelude_small = t.prelude_small;
        encoded_small = t.encoded_small;
      }

      counted :
          (n : ℕ) (next : Parser → Parser)
          → ((q : Parser) → q.phase ≡ p.phase → IsSound q → IsSound (next q))
          → IsSound (
              if ltb l.max_prelude_bytes n
              then fail exec_output_limit (record p { prelude_bytes = n })
              else next (record p { prelude_bytes = n }))
      counted n next keep = elim (Bool-cases (ltb l.max_prelude_bytes n)) [
        | inl e ↦ rw e (
            unfold fail in
            record {
              bounded = s.bounded;
              exact = s.exact;
              coded = s.coded;
              trace = s.trace;
              prelude_small = λ h. cc;
              encoded_small = λ h. cc;
            })
        | inr e ↦ rw e (
            keep (record p { prelude_bytes = n }) refl
              (record {
                bounded = s.bounded;
                exact = s.exact;
                coded = s.coded;
                trace = s.trace;
                prelude_small = λ h. ground arith;
                encoded_small = s.encoded_small;
              }))
      ]

  Coded-ready : (code : Option ℕ) → Coded ready code → SmallCode code
  Coded-ready none h = tt
  Coded-ready (some code) h = absurd h

  Coded-prelude : (code : Option ℕ) → Coded prelude code → Coded ready code
  Coded-prelude none h = tt
  Coded-prelude (some code) h = h

  consume_ready-IsSound :
      (nonce text : Text) (p : Parser)
      → p.phase ≡ ready
      → IsSound p
      → IsSound (consume_ready nonce l text p)
  unfolding consume_ready
  consume_ready-IsSound nonce text p e s = consume_frame-IsSound _ text _ p s λ rest q same t.
      let at : q.phase ≡ ready = cc in
      let before : q.calls ≡ on_ready ∷ [] = subst (λ (x : Phase). Trace x q.calls) at t.trace in
      Streams-IsSound _ (
        consume_base64-Streams l (end_prefix_of nonce) rest _ (record {
          streaming = refl;
          bounded = t.bounded;
          exact = t.exact;
          small_code =
              Coded-ready q.complete_code
                (subst (λ (x : Phase). Coded x q.complete_code) at t.coded);
          trace = subst (λ (calls : List Call). Streaming (on_start ∷ calls)) (sym before) started;
          prelude_small = t.prelude_small;
          encoded_small = t.encoded_small;
        }))

  consume_prelude-IsSound :
      (nonce text : Text) (p : Parser)
      → p.phase ≡ prelude
      → IsSound p
      → IsSound (consume_prelude nonce l text p)
  unfolding consume_prelude
  consume_prelude-IsSound nonce text p e s = consume_frame-IsSound _ text _ p s λ rest q same t.
      let at : q.phase ≡ prelude = cc in
      let before : q.calls ≡ [] = subst (λ (x : Phase). Trace x q.calls) at t.trace in
      consume_ready-IsSound nonce rest _ refl (record {
        bounded = t.bounded;
        exact = t.exact;
        coded =
            Coded-prelude q.complete_code
              (subst (λ (x : Phase). Coded x q.complete_code) at t.coded);
        trace = cc;
        prelude_small = t.prelude_small;
        encoded_small = t.encoded_small;
      })

  consume_in-IsSound :
      (phase : Phase) (nonce text : Text) (p : Parser)
      → p.phase ≡ phase
      → IsSound p
      → IsSound (consume_in phase nonce l text p)
  unfolding consume_in
  consume_in-IsSound complete nonce text p e s =
      if-IsSound _ _ _ s (fail-IsSound exec_framing_failed p s)
  consume_in-IsSound prelude nonce text p e s = consume_prelude-IsSound nonce text p e s
  consume_in-IsSound ready nonce text p e s = consume_ready-IsSound nonce text p e s
  consume_in-IsSound base64_output nonce text p e s =
      Streams-IsSound _
        (consume_base64-Streams l (end_prefix_of nonce) text p (IsSound-Streams p e s))

  consume-IsSound : (nonce text : Text) (p : Parser) → IsSound p → IsSound (consume nonce l text p)
  unfolding consume
  consume-IsSound nonce text p s = consume_in-IsSound p.phase nonce text p refl s

  consume_chunks-IsSound :
      (fuel : ℕ) (nonce text : Text) (p : Parser)
      → IsSound p
      → IsSound (consume_chunks fuel nonce l text p)
  unfolding consume_chunks
  consume_chunks-IsSound zero nonce text p s = s
  consume_chunks-IsSound (suc fuel) nonce [] p s = s
  consume_chunks-IsSound (suc fuel) nonce (c ∷ text) p s =
      then_do-keeps IsSound _ _ (consume-IsSound nonce (take max_chunk (c ∷ text)) p s)
        (consume_chunks-IsSound fuel nonce (drop max_chunk (c ∷ text)))

  finish-IsSound :
      (phase : Phase) (code : Option ℕ) (p : Parser)
      → p.phase ≡ phase
      → p.complete_code ≡ code
      → IsSound p
      → IsSound (finish phase code p)
  unfolding finish
  finish-IsSound complete code p e f s = s
  finish-IsSound prelude none p e f s = s
  finish-IsSound ready none p e f s = s
  finish-IsSound base64_output none p e f s = s
  finish-IsSound prelude (some code) p e f s = absurd (
      subst (λ (x : Phase). Coded x (some code)) e
        (subst (λ (x : Option ℕ). Coded p.phase x) f s.coded))
  finish-IsSound ready (some code) p e f s = absurd (
      subst (λ (x : Phase). Coded x (some code)) e
        (subst (λ (x : Option ℕ). Coded p.phase x) f s.coded))
  finish-IsSound base64_output (some code) p e f s =
      let t = IsSound-Streams p e s in
      let q : Parser = record p { phase = complete; calls = on_complete code ∷ p.calls } in
      let u : IsSound q = record {
        bounded = s.bounded;
        exact = s.exact;
        coded = t.small_code;
        trace = (code, p.calls, refl, subst SmallCode f t.small_code, t.trace);
        prelude_small = s.prelude_small;
        encoded_small = s.encoded_small;
      } in
      if-IsSound (is_empty p.base64_carry) q _ u (fail-IsSound exec_framing_failed p s)

  write-IsSound : (nonce text : Text) (p : Parser) → IsSound p → IsSound (write nonce l text p)
  unfolding write
  write-IsSound nonce text p s = then_do-keeps IsSound p _ s λ q t.
      then_do-keeps IsSound _ _ (consume_chunks-IsSound (length text) nonce text q t)
        λ r u. finish-IsSound r.phase r.complete_code r refl refl u

-- Writes in a row.
unfoldable pub writes : Text → Limits → List Text → Parser → Parser
writes nonce l [] p = p
writes nonce l (text ∷ texts) p = writes nonce l texts (write nonce l text p)

writes-keeps :
    (nonce : Text) (l : Limits) (texts : List Text) (p : Parser)
    → IsSound l p
    → IsSound l (writes nonce l texts p)
unfolding writes
writes-keeps nonce l [] p s = s
writes-keeps nonce l (text ∷ texts) p s =
    writes-keeps nonce l texts (write nonce l text p) (write-IsSound l nonce text p s)

-- However the text is cut into writes: no more than `maxOutputBytes` bytes are passed to `onOutput`,
-- and `outputBytes` is their number; `onReady`, `onStart`, the outputs and `onComplete` come in this
-- order, the others once each and the completion with a code of at most 255, as far as the phase says;
-- and unless the parser has failed, the prelude and the encoded text are within their limits too.
pub writes-IsSound :
    (nonce : Text) (l : Limits) (texts : List Text) → IsSound l (writes nonce l texts fresh)
writes-IsSound nonce l texts = writes-keeps nonce l texts fresh (record {
  bounded = omega arith;
  exact = refl;
  coded = tt;
  trace = refl;
  prelude_small = λ _. omega arith;
  encoded_small = λ _. omega arith;
})
