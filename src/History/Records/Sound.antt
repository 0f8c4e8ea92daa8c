-- ===== src/History/Records/Sound.antt =====
-- What the checks of electron/session-history-store.js accept.
use usshtc.Prelude.{
  ℕ, ◌≤◌, ◌≡◌, refl, Bool, true, false, not, List, [], ◌∷◌, Option, none, some, arith, All,
  Bool-cases, inl, inr, leb, leb→le, ok, err, guard, ◌>>=◌, ◌>>◌, length, ◌==◌, ◌&&◌,
}
use usshtc.Prelude.Text.{Text, codes, text_eq, text_eq_sym}
use usshtc.Prelude.Dynamic.{Value, null, integer, string, pos, max_safe_integer}
use usshtc.History.Records.{
  Session, Checked, rejected, kinds, history_reasons, one_of, is_token, has_id, own, as_token,
  as_kind, as_counter, as_exit_code, as_reason, Ending, read_ended, read_end, Item, fields,
  no_object, read_item, read_items, validate_document, Parsed, document, is_one, is_null,
}
use usshtc.History.Records.RoundTrip.{IsSession, Distinct, EndsWell, Apart}

-- `P` holds of what is accepted.
abbrev pub Sound {ℓ κ} : {A : Type ℓ} → (A → Type κ) → Checked A → Type κ
Sound P (err _) = Unit
Sound P (ok a) = P a

module _ {ℓ κ} {A : Type ℓ} (P : A → Type κ) where
  pub Sound-guard :
      (b : Bool) (next : Checked A) → (b ≡ true → Sound P next) → Sound P (guard b rejected >> next)
  Sound-guard true next h = h refl
  Sound-guard false next h = tt

  pub Sound-chain {ι ο} :
      {B : Type ι} (Q : B → Type ο) (first : Checked B) (next : B → Checked A)
      → Sound Q first
      → ((b : B) → Q b → Sound P (next b))
      → Sound P (first >>= next)
  Sound-chain Q (err _) next h k = tt
  Sound-chain Q (ok b) next h k = k b h

abbrev pub IsCounter : ℕ → Type 0
IsCounter n = n ≤ max_safe_integer

abbrev pub IsToken : ℕ → Text → Type 0
IsToken max s = is_token max s ≡ true

abbrev pub IsOneOf : List Text → Text → Type 0
IsOneOf names s = one_of names s ≡ true

abbrev pub IsCode : Option ℕ → Type 0
IsCode none = Unit
IsCode (some n) = n ≤ 255

pub as_counter-Sound : (v : Value) → Sound IsCounter (as_counter v)
unfolding as_counter
as_counter-Sound (integer (pos n)) =
    Sound-guard IsCounter (leb n max_safe_integer) (ok n) (leb→le n max_safe_integer)
as_counter-Sound _ = tt

pub as_token-Sound : (max : ℕ) (v : Value) → Sound (IsToken max) (as_token max v)
unfolding as_token
as_token-Sound max (string s) = Sound-guard (IsToken max) (is_token max s) (ok s) (λ h. h)
as_token-Sound max _ = tt

pub as_kind-Sound : (v : Value) → Sound (IsOneOf kinds) (as_kind v)
unfolding as_kind
as_kind-Sound (string s) = Sound-guard (IsOneOf kinds) (one_of kinds s) (ok s) (λ h. h)
as_kind-Sound _ = tt

pub as_reason-Sound : (v : Value) → Sound (IsOneOf history_reasons) (as_reason v)
unfolding as_reason
as_reason-Sound (string s) =
    Sound-guard (IsOneOf history_reasons) (one_of history_reasons s) (ok s) (λ h. h)
as_reason-Sound _ = tt

pub as_exit_code-Sound : (v : Value) → Sound IsCode (as_exit_code v)
unfolding as_exit_code
as_exit_code-Sound null = tt
as_exit_code-Sound (integer (pos n)) = Sound-guard IsCode (leb n 255) (ok (some n)) (leb→le n 255)
as_exit_code-Sound _ = tt

pub EndsWell-ended :
    (started e : ℕ) (x : Option ℕ) (r : Text)
    → e ≤ max_safe_integer
    → IsCode x
    → one_of history_reasons r ≡ true
    → started ≤ e
    → EndsWell started (some e) x (some r)
EndsWell-ended started e none r a b c d = (a, d, c)
EndsWell-ended started e (some x) r a b c d = (b, a, d, c)

abbrev Whole : ℕ → Ending → Type 0
Whole started e = EndsWell started e.at e.code e.cause

read_ended-Sound :
    (started : ℕ) (ended exit reason : Value)
    → Sound (Whole started) (read_ended started ended exit reason)
unfolding read_ended
read_ended-Sound started ended exit reason =
    Sound-chain (Whole started) IsCounter (as_counter ended) _ (as_counter-Sound ended) (λ e a.
      Sound-chain (Whole started) IsCode (as_exit_code exit) _ (as_exit_code-Sound exit) (λ x b.
        Sound-chain (Whole started) (IsOneOf history_reasons) (as_reason reason) _
          (as_reason-Sound reason)
          (λ r c.
            Sound-guard (Whole started) (leb started e) _
              (λ d. EndsWell-ended started e x r a b c (leb→le started e d)))))

read_end-Sound :
    (started : ℕ) (ended exit reason : Value)
    → Sound (Whole started) (read_end started ended exit reason)
unfolding read_end
read_end-Sound started ended exit reason = elim (Bool-cases (is_null ended)) [
  | inl e ↦ rw e (Sound-guard (Whole started) (is_null exit && is_null reason) _ (λ _. tt))
  | inr e ↦ rw e (read_ended-Sound started ended exit reason)
]

-- A value of a property of the object, of which nothing is known yet.
abbrev Any : Value → Type 0
Any _ = Unit

own-Sound : (name : Text) (fs : List (Text × Value)) → Sound Any (own name fs)
unfolding own
own-Sound name [] = tt
own-Sound name (f ∷ fs) = elim (Bool-cases (text_eq f.0 name)) [
  | inl e ↦ rw e tt
  | inr e ↦ rw e (own-Sound name fs)
]

abbrev pub IsNew : List Session → Session → Type 0
IsNew before r = IsSession r × (has_id r.id before ≡ false)

read_item-Sound :
    (before : List Session) (item : Item) → Sound (IsNew before) (read_item before item)
unfolding read_item
read_item-Sound before no_object = tt
read_item-Sound before (fields fs) =
    let P = IsNew before in
    let get = λ (name : Text). own-Sound name fs in
    Sound-guard P (length fs == 9) _ (λ _.
      Sound-chain P Any (own (codes "id") fs) _ (get (codes "id")) (λ id_value _.
        Sound-chain P Any (own (codes "profileId") fs) _ (get (codes "profileId"))
          (λ profile_value _.
            Sound-chain P Any (own (codes "kind") fs) _ (get (codes "kind")) (λ kind_value _.
              Sound-chain P Any (own (codes "startedAt") fs) _ (get (codes "startedAt"))
                (λ started_value _.
                  Sound-chain P Any (own (codes "endedAt") fs) _ (get (codes "endedAt"))
                    (λ ended_value _.
                      Sound-chain P Any (own (codes "bytesSent") fs) _ (get (codes "bytesSent"))
                        (λ sent_value _.
                          Sound-chain P Any (own (codes "bytesReceived") fs) _
                            (get (codes "bytesReceived"))
                            (λ received_value _.
                              Sound-chain P Any (own (codes "exitCode") fs) _
                                (get (codes "exitCode"))
                                (λ exit_value _.
                                  Sound-chain P Any (own (codes "reason") fs) _
                                    (get (codes "reason"))
                                    (λ reason_value _.
                                      Sound-chain P (IsToken 1024) (as_token 1024 id_value) _
                                        (as_token-Sound 1024 id_value)
                                        (λ id a.
                                          Sound-chain P (IsToken 256) (as_token 256 profile_value) _
                                            (as_token-Sound 256 profile_value)
                                            (λ profile b.
                                              Sound-guard P (not (has_id id before)) _ (λ fresh.
                                                Sound-chain P (IsOneOf kinds) (as_kind kind_value) _
                                                  (as_kind-Sound kind_value)
                                                  (λ kind c.
                                                    Sound-chain P IsCounter
                                                      (as_counter started_value) _
                                                      (as_counter-Sound started_value)
                                                      (λ started d.
                                                        Sound-chain P IsCounter
                                                          (as_counter sent_value) _
                                                          (as_counter-Sound sent_value)
                                                          (λ sent e.
                                                            Sound-chain P IsCounter
                                                            (as_counter received_value) _
                                                            (as_counter-Sound received_value)
                                                            (λ received f.
                                                            Sound-chain P (Whole started)
                                                            (read_end started ended_value exit_value
                                                            reason_value)
                                                            _
                                                            (read_end-Sound started ended_value
                                                            exit_value reason_value)
                                                            (λ ending g. (
                                                            record {
                                                            id_token = a;
                                                            profile_token = b;
                                                            known_kind = c;
                                                            started = d;
                                                            sent = e;
                                                            received = f;
                                                            ends_well = g;
                                                            },
                                                            not_true (has_id id before) fresh,
                                                            )))))))))))))))))))
  where
    not_true : (b : Bool) → not b ≡ true → b ≡ false
    not_true b h = ground arith

Apart-split :
    (r : Session) (before sessions : List Session)
    → Apart (r ∷ before) sessions
    → (has_id r.id sessions ≡ false) × Apart before sessions
Apart-split r before [] a = (refl, tt)
Apart-split r before (x ∷ sessions) a =
    let (fresh, apart) = Apart-split r before sessions a.1 in
    (ground (arith, text_eq_sym x.id r.id, fresh, a.0), (ground (arith, a.0), apart))

abbrev IsList : List Session → List Session → Type 0
IsList before rs = All IsSession rs × (Distinct rs × Apart before rs)

read_items-Sound :
    (before : List Session) (items : List Item) → Sound (IsList before) (read_items before items)
unfolding read_items
read_items-Sound before [] = (tt, (tt, tt))
read_items-Sound before (item ∷ items) =
    Sound-chain (IsList before) (IsNew before) (read_item before item) _
      (read_item-Sound before item)
      (λ r v.
        Sound-chain (IsList before) (IsList (r ∷ before)) (read_items (r ∷ before) items) _
          (read_items-Sound (r ∷ before) items)
          (λ rest w.
            let (fresh, apart) = Apart-split r before rest w.1.1 in
            ((v.0, w.0), ((fresh, w.1.0), (v.1, apart)))))

abbrev pub AreSessions : List Session → Type 0
AreSessions sessions = All IsSession sessions × Distinct sessions

-- Whatever the file holds, the records that `validateDocument` accepts are sessions with distinct ids:
-- tokens of bounded length, a known kind, counters and times in the safe range, and an end that is
-- missing with its code and reason or not before the start with a known reason.
pub validate_document-Sound : (text : Parsed) → Sound AreSessions (validate_document text)
unfolding validate_document
validate_document-Sound (document false version (some items)) =
    Sound-guard AreSessions (is_one version) _
      (λ _. weaken (read_items [] items) (read_items-Sound [] items))
  where
    weaken : (r : Checked (List Session)) → Sound (IsList []) r → Sound AreSessions r
    weaken (err _) h = tt
    weaken (ok rs) h = (h.0, h.1.0)
validate_document-Sound _ = tt
