-- ===== src/History/Records/RoundTrip.antt =====
-- What the store of electron/session-history-store.js writes is read back by `validateDocument`.
use usshtc.Prelude.{
  ℕ, ◌≤◌, ◌≡◌, refl, true, false, List, [], ◌∷◌, map, Option, none, some, All, arith, ok, le→leb,
}
use usshtc.Prelude.Text.{Text, text_eq_sym}
use usshtc.Prelude.Dynamic.{integer, pos, max_safe_integer, string}
use usshtc.History.Records.{
  Session, kinds, history_reasons, one_of, is_token, encode, document_for, has_id, own, as_token,
  as_kind, as_counter, as_exit_code, as_reason, read_end, read_item, read_items, validate_document,
  is_one, maybe_text, maybe_number, read_ended,
}

-- An open session has neither an exit code nor a reason; an ended one has a reason, and it does not
-- end before it starts.
abbrev pub EndsWell : ℕ → Option ℕ → Option ℕ → Option Text → Type 0
EndsWell started none none none = Unit
EndsWell started (some e) none (some r) =
    (e ≤ max_safe_integer) × (started ≤ e) × (one_of history_reasons r ≡ true)
EndsWell started (some e) (some x) (some r) =
    (x ≤ 255) × (e ≤ max_safe_integer) × (started ≤ e) × (one_of history_reasons r ≡ true)
EndsWell started _ _ _ = ⊥

pub record IsSession (r : Session) : Type 0 where
  pub id_token : is_token 1024 r.id ≡ true
  pub profile_token : is_token 256 r.profile_id ≡ true
  pub known_kind : one_of kinds r.kind ≡ true
  pub started : r.started_at ≤ max_safe_integer
  pub sent : r.bytes_sent ≤ max_safe_integer
  pub received : r.bytes_received ≤ max_safe_integer
  pub ends_well : EndsWell r.started_at r.ended_at r.exit_code r.reason

-- No two sessions have one id.
abbrev pub Distinct : List Session → Type 0
Distinct [] = Unit
Distinct (r ∷ rest) = (has_id r.id rest ≡ false) × Distinct rest

as_counter-pos : (n : ℕ) → n ≤ max_safe_integer → as_counter (integer (pos n)) ≡ ok n
unfolding as_counter
as_counter-pos n h = ground arith

read_end-encoded :
    (started : ℕ) (ended exit : Option ℕ) (reason : Option Text)
    → EndsWell started ended exit reason
    → read_end started (maybe_number ended) (maybe_number exit) (maybe_text reason)
      ≡ ok (record { at = ended; code = exit; cause = reason })
unfolding read_end read_ended as_counter as_exit_code as_reason
read_end-encoded started none none none h = refl
read_end-encoded started none none (some r) h = absurd h
read_end-encoded started none (some x) none h = absurd h
read_end-encoded started none (some x) (some r) h = absurd h
read_end-encoded started (some e) none none h = absurd h
read_end-encoded started (some e) (some x) none h = absurd h
read_end-encoded started (some e) none (some r) h =
    rw (le→leb e max_safe_integer h.0, h.2, le→leb started e h.1) refl
read_end-encoded started (some e) (some x) (some r) h =
    rw (le→leb e max_safe_integer h.1, le→leb x 255 h.0, h.3, le→leb started e h.2) refl

as_token-string : (max : ℕ) (s : Text) → is_token max s ≡ true → as_token max (string s) ≡ ok s
unfolding as_token
as_token-string max s h = rw h refl

as_kind-string : (s : Text) → one_of kinds s ≡ true → as_kind (string s) ≡ ok s
unfolding as_kind
as_kind-string s h = rw h refl

read_item-encode :
    (before : List Session) (r : Session)
    → IsSession r
    → has_id r.id before ≡ false
    → read_item before (encode r) ≡ ok r
unfolding read_item encode own
read_item-encode before r v fresh =
    rw
      (
        as_token-string 1024 r.id v.id_token,
        as_token-string 256 r.profile_id v.profile_token,
        fresh,
        as_kind-string r.kind v.known_kind,
        as_counter-pos r.started_at v.started,
        as_counter-pos r.bytes_sent v.sent,
        as_counter-pos r.bytes_received v.received,
        read_end-encoded r.started_at r.ended_at r.exit_code r.reason v.ends_well,
      )
      refl

-- No id of the sessions is among those before.
abbrev pub Apart : List Session → List Session → Type 0
Apart before sessions = All (λ r. has_id r.id before ≡ false) sessions

Apart-extend :
    (r : Session) (before sessions : List Session)
    → has_id r.id sessions ≡ false
    → Apart before sessions
    → Apart (r ∷ before) sessions
Apart-extend r before [] h a = tt
Apart-extend r before (x ∷ sessions) h a =
    (ground (arith, text_eq_sym x.id r.id), Apart-extend r before sessions (ground arith) a.1)

read_items-encode :
    (before sessions : List Session)
    → All IsSession sessions
    → Distinct sessions
    → Apart before sessions
    → read_items before (map encode sessions) ≡ ok sessions
unfolding read_items
read_items-encode before [] v d a = refl
read_items-encode before (r ∷ rest) v d a =
    rw
      (
        read_item-encode before r v.0 a.0,
        read_items-encode (r ∷ before) rest v.1 d.1 (Apart-extend r before rest d.0 a.1),
      )
      refl

Apart-nil : (sessions : List Session) → Apart [] sessions
Apart-nil [] = tt
Apart-nil (r ∷ rest) = (refl, Apart-nil rest)

-- A document of sessions that are valid and have distinct ids is read back as those sessions.
pub validate_document-document_for :
    (sessions : List Session)
    → All IsSession sessions
    → Distinct sessions
    → validate_document (document_for sessions) ≡ ok sessions
unfolding validate_document document_for is_one
validate_document-document_for sessions v d = read_items-encode [] sessions v d (Apart-nil sessions)
