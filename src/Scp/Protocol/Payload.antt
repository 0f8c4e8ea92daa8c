-- ===== src/Scp/Protocol/Payload.antt =====
-- The bytes of a file through electron/scp/protocol.js: the chunks that `writePayload` writes, and
-- what `readPayload` gives its consumer.
use usshtc.Prelude.{
  ℕ, zero, suc, ◌+◌, ◌-◌, ◌≤◌, ◌<◌, ◌≡◌, refl, sym, ap, ◌∙◌, inl, inr, List, [], ◌∷◌, ◌++◌,
  append_assoc, append-nil, leb, Result, ok, err, ◌>>=◌, length, length-append, take, drop, All,
  arith, Bool-cases, ◌>>◌,
}
use mathlib.Core.Path.{subst}
use usshtc.Scp.Protocol.Limits.{ProtocolError, invalid_number, Limits, bounded}
use usshtc.Scp.Protocol.Reader.{
  Input, chunk, failure, Reader, payload_chunks, payload_from, read_payload,
}
use usshtc.Scp.Protocol.Records.{Sink, chunks, write_chunks, write_payload}
use usshtc.Scp.Protocol.Streams.{bytes_of, stream}

abbrev pub join : List (List ℕ) → List ℕ
join [] = []
join (part ∷ parts) = part ++ join parts

join-snoc : (parts : List (List ℕ)) (part : List ℕ) → join (parts ++ part ∷ []) ≡ join parts ++ part
join-snoc [] part = append-nil part
join-snoc (p ∷ parts) part =
    ap (λ (t : List ℕ). p ++ t) (join-snoc parts part) ∙ sym (append_assoc p (join parts) part)

take-drop : (n : ℕ) (xs : List ℕ) → take n xs ++ drop n xs ≡ xs
take-drop zero xs = refl
take-drop (suc n) [] = refl
take-drop (suc n) (x ∷ xs) = ap (λ (t : List ℕ). x ∷ t) (take-drop n xs)

length-take :
    (n : ℕ) (xs : List ℕ) → (length (take n xs) ≤ n) × (length (drop n xs) + n ≤ length xs + n)
length-take zero xs = (omega arith, omega arith)
length-take (suc n) [] = (omega arith, omega arith)
length-take (suc n) (x ∷ xs) =
    (omega (arith, (length-take n xs).0), omega (arith, (length-take n xs).1))

length-drop_lt : (n : ℕ) (x : ℕ) (xs : List ℕ) → 0 < n → length (drop n (x ∷ xs)) ≤ length xs
length-drop_lt zero x xs h = absurd (omega arith)
length-drop_lt (suc n) x xs h = omega (arith, (length-take n xs).1)

-- The chunks are the bytes, and none is too long.
join-chunks :
    (fuel size : ℕ) (bytes : List ℕ)
    → 0 < size
    → length bytes ≤ fuel
    → (join (chunks fuel size bytes) ≡ bytes)
      × All (λ part. length part ≤ size) (chunks fuel size bytes)
unfolding chunks
join-chunks zero size [] h l = (refl, tt)
join-chunks zero size (b ∷ bytes) h l = absurd (omega arith)
join-chunks (suc fuel) size [] h l = (refl, tt)
join-chunks (suc fuel) size (b ∷ bytes) h l =
    let shorter = length-drop_lt size b bytes h in
    let (same, small) = join-chunks fuel size (drop size (b ∷ bytes)) h (omega (arith, shorter)) in
    (
      ap (λ (t : List ℕ). take size (b ∷ bytes) ++ t) same ∙ take-drop size (b ∷ bytes),
      ((length-take size (b ∷ bytes)).0, small),
    )

-- The consumer was given these bytes, and the rest of the stream is still there.
abbrev pub Takes : Result ProtocolError (List (List ℕ) × Reader) → List ℕ → List ℕ → Type 0
Takes result bytes rest =
    (parts : List (List ℕ)) × (r : Reader) × (result ≡ ok (parts, r))
    × (join parts ≡ bytes)
    × (stream r ≡ rest)

-- Two ways to divide a list, where the first of one is the shorter.
divide_more :
    (xs ys zs ws : List ℕ)
    → xs ++ ys ≡ zs ++ ws
    → length xs ≤ length zs
    → (t : List ℕ) × (zs ≡ xs ++ t) × (ys ≡ t ++ ws)
divide_more [] ys zs ws e h = (zs, refl, e)
divide_more (x ∷ xs) ys [] ws e h = absurd (omega arith)
divide_more (x ∷ xs) ys (z ∷ zs) ws e h =
    let tails : xs ++ ys ≡ zs ++ ws = cc in
    let (t, p, q) = divide_more xs ys zs ws tails (omega arith) in (t, cc, q)

divide_less :
    (n : ℕ) (xs ys zs ws : List ℕ)
    → xs ++ ys ≡ zs ++ ws
    → length zs ≡ n
    → n ≤ length xs
    → (take n xs ≡ zs) × (drop n xs ++ ys ≡ ws)
divide_less zero xs ys [] ws e l h = (refl, e)
divide_less zero xs ys (z ∷ zs) ws e l h = absurd (omega arith)
divide_less (suc n) xs ys [] ws e l h = absurd (omega arith)
divide_less (suc n) [] ys (z ∷ zs) ws e l h = absurd (omega arith)
divide_less (suc n) (x ∷ xs) ys (z ∷ zs) ws e l h =
    let tails : xs ++ ys ≡ zs ++ ws = cc in
    let (p, q) = divide_less n xs ys zs ws tails (omega arith) (omega arith) in (cc, q)

take_all : (n : ℕ) (xs : List ℕ) → length xs ≤ n → take n xs ≡ xs
take_all zero [] h = refl
take_all zero (x ∷ xs) h = absurd (omega arith)
take_all (suc n) [] h = refl
take_all (suc n) (x ∷ xs) h = ap (λ (t : List ℕ). x ∷ t) (take_all n xs (omega arith))

left_over :
    (bytes tail payload part : List ℕ) (n : ℕ)
    → payload ≡ bytes ++ tail
    → part ≡ bytes
    → length payload ≡ suc n
    → length tail ≡ suc n - length part
left_over bytes tail payload part n p w l =
    omega (arith, ap length p, ap length w, length-append bytes tail)

payload_chunks-Takes :
    (rest : List ℕ) (inputs : List Input) (n : ℕ) (parts : List (List ℕ)) (payload : List ℕ)
    → bytes_of inputs ≡ payload ++ rest
    → length payload ≡ n
    → Takes (payload_chunks inputs n parts) (join parts ++ payload) rest
unfolding payload_chunks
payload_chunks-Takes rest inputs zero parts (x ∷ payload) e l = absurd (omega arith)
payload_chunks-Takes rest inputs zero parts [] e l =
    (parts, record { buffer = []; inputs = inputs }, refl, sym (append-nil (join parts)), e)
payload_chunks-Takes rest [] (suc n) parts [] e l = absurd (omega arith)
payload_chunks-Takes rest [] (suc n) parts (x ∷ payload) e l = cc
payload_chunks-Takes rest (failure error ∷ inputs) (suc n) parts [] e l = absurd (omega arith)
payload_chunks-Takes rest (failure error ∷ inputs) (suc n) parts (x ∷ payload) e l = cc
payload_chunks-Takes rest (chunk b bytes ∷ inputs) (suc n) parts payload e l =
    let part = take (suc n) (b ∷ bytes) in
    elim (Bool-cases (leb (length (b ∷ bytes)) n)) [
      | inl short ↦
          let (tail, p, q) =
            divide_more (b ∷ bytes) (bytes_of inputs) payload rest e (ground arith) in
          let whole : part ≡ b ∷ bytes = take_all (suc n) (b ∷ bytes) (ground arith) in
          let all_bytes : join (parts ++ part ∷ []) ++ tail ≡ join parts ++ payload =
            ap (λ (t : List ℕ). t ++ tail) (join-snoc parts part)
            ∙ append_assoc (join parts) part tail
            ∙ ap (λ (t : List ℕ). join parts ++ t) (ap (λ (t : List ℕ). t ++ tail) whole ∙ sym p) in
          let more =
            payload_chunks-Takes rest inputs (suc n - length part) (parts ++ part ∷ []) tail q
              (left_over (b ∷ bytes) tail payload part n p whole l) in
          rw short (
            subst
              (λ (t : List ℕ).
                Takes (payload_chunks inputs (suc n - length part) (parts ++ part ∷ [])) t rest)
              all_bytes more)
      | inr long ↦
          let (p, q) =
            divide_less (suc n) (b ∷ bytes) (bytes_of inputs) payload rest e l (ground arith) in
          (
            parts ++ part ∷ [],
            record { buffer = drop (suc n) (b ∷ bytes); inputs = inputs },
            rw long refl,
            join-snoc parts part ∙ ap (λ (t : List ℕ). join parts ++ t) p,
            q,
          )
    ]

payload_from-Takes :
    (payload rest buffer : List ℕ) (inputs : List Input) (n : ℕ)
    → buffer ++ bytes_of inputs ≡ payload ++ rest
    → length payload ≡ n
    → Takes (payload_from buffer n inputs) payload rest
unfolding payload_from
payload_from-Takes payload rest [] inputs n e l = payload_chunks-Takes rest inputs n [] payload e l
payload_from-Takes [] rest (b ∷ bytes) inputs zero e l =
    ([], record { buffer = b ∷ bytes; inputs = inputs }, refl, refl, e)
payload_from-Takes (x ∷ payload) rest (b ∷ bytes) inputs zero e l = absurd (omega arith)
payload_from-Takes payload rest (b ∷ bytes) inputs (suc n) e l =
    payload_chunks-Takes rest (chunk b bytes ∷ inputs) (suc n) [] payload e l

kept :
    (result : Result ProtocolError (List Sink)) (known parts : List (List ℕ))
    → (result >>= λ _. ok known) ≡ ok parts
    → parts ≡ known
kept (ok sinks) known parts h = cc
kept (err error) known parts h = cc

fitting :
    (n maximum : ℕ) (next : Result ProtocolError (List (List ℕ))) (parts : List (List ℕ))
    → ((bounded n maximum invalid_number >>= λ _. ok tt) >> next) ≡ ok parts
    → (bounded n maximum invalid_number ≡ ok n) × (next ≡ ok parts)
unfolding bounded
fitting n maximum next parts h = ground arith

-- `writePayload` cuts the bytes into chunks that are not too long, and `readPayload` of as many bytes
-- gives them all to its consumer, in order, from any stream that carries them; it takes no byte of
-- what comes after them.
pub read_payload-write_payload :
    (limits : Limits) (bytes rest : List ℕ) (sinks : List Sink) (parts : List (List ℕ)) (r : Reader)
    → 0 < limits.max_chunk_bytes
    → write_payload limits bytes sinks ≡ ok parts
    → stream r ≡ join parts ++ rest
    → All (λ part. length part ≤ limits.max_chunk_bytes) parts
      × Takes (read_payload limits (length bytes) r) bytes rest
unfolding write_payload read_payload
read_payload-write_payload limits bytes rest sinks parts r positive h e =
    let cut = chunks (length bytes) limits.max_chunk_bytes bytes in
    let (fits, written) =
      fitting (length bytes) limits.max_file_bytes (write_chunks limits cut sinks >>= λ _. ok cut)
        parts h in
    let same = kept (write_chunks limits cut sinks) cut parts written in
    let (whole, small) =
      join-chunks (length bytes) limits.max_chunk_bytes bytes positive (omega arith) in
    (
      subst (All (λ part. length part ≤ limits.max_chunk_bytes)) (sym same) small,
      rw fits (
          payload_from-Takes bytes rest r.buffer r.inputs (length bytes)
            (e ∙ ap (λ (t : List ℕ). t ++ rest) (ap join same ∙ whole)) refl),
    )
