-- ===== src/History/Records.antt =====
-- electron/session-history-store.js, the records: the checks of single values, `validateDocument` and
-- the document that the store writes.
pub mod RoundTrip
pub mod Sound
use usshtc.Prelude.{
  ℕ, ◌+◌, ◌-◌, ◌*◌, Bool, true, false, not, ◌&&◌, ◌||◌, List, [], ◌∷◌, ◌++◌, map, Option, none,
  some, leb, ltb, ◌==◌, if◌then◌else◌, length, any, Result, ok, err, guard, ◌>>=◌, ◌>>◌,
}
use usshtc.Prelude.Text.{Text, codes, text_eq, is_empty, is_space}
use usshtc.Prelude.Dynamic.{Value, null, string, integer, pos, max_safe_integer}

-- `throw new Error('Invalid history')`; the operations that take untrusted values return `false`
-- there.
pub data Rejected : Type 0 where
  rejected : Rejected

abbrev pub Checked {ℓ} : Type ℓ → Type ℓ
Checked A = Result Rejected A

abbrev pub one_of : List Text → Text → Bool
one_of names s = any (λ n. text_eq n s) names

abbrev pub kinds : List Text
kinds = codes "shell" ∷ codes "exec" ∷ []

abbrev pub history_reasons : List Text
history_reasons =
    codes "completed"
    ∷ codes "user_disconnect"
    ∷ codes "proxy_stop"
    ∷ codes "network_error"
    ∷ codes "auth_error"
    ∷ codes "remote_not_ready"
    ∷ codes "timeout"
    ∷ codes "output_limit"
    ∷ codes "app_exit"
    ∷ codes "interrupted"
    ∷ []

-- The object of one session. A field that is `null` until the session ends is an option.
pub record Session : Type 0 where
  pub id : Text
  pub profile_id : Text
  pub kind : Text
  pub started_at : ℕ
  pub ended_at : Option ℕ
  pub bytes_sent : ℕ
  pub bytes_received : ℕ
  pub exit_code : Option ℕ
  pub reason : Option Text

-- `isCounter` and `isTime` are one test.
unfoldable pub as_counter : Value → Checked ℕ
as_counter (integer (pos n)) = guard (leb n max_safe_integer) rejected >> ok n
as_counter _ = err rejected

abbrev pub token_char : ℕ → Bool
token_char c = not (is_space c || leb c 0x1f || c == 0x7f)

unfoldable pub is_token : ℕ → Text → Bool
is_token max s = not (is_empty s) && leb (length s) max && not (any (λ c. not (token_char c)) s)

unfoldable pub as_token : ℕ → Value → Checked Text
unfolding is_token
as_token max (string s) = guard (is_token max s) rejected >> ok s
as_token max _ = err rejected

unfoldable pub as_exit_code : Value → Checked (Option ℕ)
as_exit_code null = ok none
as_exit_code (integer (pos n)) = guard (leb n 255) rejected >> ok (some n)
as_exit_code _ = err rejected

unfoldable pub as_kind : Value → Checked Text
as_kind (string s) = guard (one_of kinds s) rejected >> ok s
as_kind _ = err rejected

unfoldable pub as_reason : Value → Checked Text
as_reason (string s) = guard (one_of history_reasons s) rejected >> ok s
as_reason _ = err rejected

-- A parsed item of `sessions`: an object with its own properties, or another value.
pub data Item : Type 0 where
  fields : List (Text × Value) → Item
  no_object : Item

-- What `JSON.parse` gives: an object, with `sessions` where that is an array, or another value.
pub data Parsed : Type 0 where
  document :
      (other_keys : Bool) → (schema_version : Value) → (sessions : Option (List Item)) → Parsed
  no_document : Parsed

unfoldable pub own : Text → List (Text × Value) → Checked Value
own name [] = err rejected
own name (f ∷ fs) = if text_eq f.0 name then ok f.1 else own name fs

abbrev pub maybe_text : Option Text → Value
maybe_text none = null
maybe_text (some s) = string s

abbrev pub maybe_number : Option ℕ → Value
maybe_number none = null
maybe_number (some n) = integer (pos n)

-- The object that `JSON.stringify` writes for a session.
unfoldable pub encode : Session → Item
encode r = fields (
    (codes "id", string r.id)
    ∷ (codes "profileId", string r.profile_id)
    ∷ (codes "kind", string r.kind)
    ∷ (codes "startedAt", integer (pos r.started_at))
    ∷ (codes "endedAt", maybe_number r.ended_at)
    ∷ (codes "bytesSent", integer (pos r.bytes_sent))
    ∷ (codes "bytesReceived", integer (pos r.bytes_received))
    ∷ (codes "exitCode", maybe_number r.exit_code)
    ∷ (codes "reason", maybe_text r.reason)
    ∷ [])

unfoldable pub document_for : List Session → Parsed
document_for sessions = document false (integer (pos 1)) (some (map encode sessions))

-- The end of a session: when, with which exit code and why.
pub record Ending : Type 0 where
  pub at : Option ℕ
  pub code : Option ℕ
  pub cause : Option Text

read_ended : ℕ → Value → Value → Value → Checked Ending
unfolding as_counter as_exit_code as_reason
read_ended started ended exit reason = do
  e ← as_counter ended
  x ← as_exit_code exit
  r ← as_reason reason
  guard (leb started e) rejected
  ok (record { at = some e; code = x; cause = some r })

abbrev pub is_null : Value → Bool
is_null null = true
is_null _ = false

-- Nothing yet, or an end that is not before the start, with a reason.
unfoldable pub read_end : ℕ → Value → Value → Value → Checked Ending
unfolding read_ended
read_end started ended exit reason =
    if is_null ended
    then guard (is_null exit && is_null reason) rejected
      >> ok (record { at = none; code = none; cause = none })
    else read_ended started ended exit reason

abbrev pub has_id : Text → List Session → Bool
has_id key sessions = any (λ r. text_eq r.id key) sessions

-- One turn of the loop of `validateDocument`, `before` being the records before.
pub read_item : List Session → Item → Checked Session
unfolding own as_token as_kind as_counter read_end
read_item before no_object = err rejected
read_item before (fields fs) = do
  guard (length fs == 9) rejected
  id_value ← own (codes "id") fs
  profile_value ← own (codes "profileId") fs
  kind_value ← own (codes "kind") fs
  started_value ← own (codes "startedAt") fs
  ended_value ← own (codes "endedAt") fs
  sent_value ← own (codes "bytesSent") fs
  received_value ← own (codes "bytesReceived") fs
  exit_value ← own (codes "exitCode") fs
  reason_value ← own (codes "reason") fs
  id ← as_token 1024 id_value
  profile ← as_token 256 profile_value
  guard (not (has_id id before)) rejected
  kind ← as_kind kind_value
  started ← as_counter started_value
  sent ← as_counter sent_value
  received ← as_counter received_value
  ending ← read_end started ended_value exit_value reason_value
  ok (record {
    id = id;
    profile_id = profile;
    kind = kind;
    started_at = started;
    ended_at = ending.at;
    bytes_sent = sent;
    bytes_received = received;
    exit_code = ending.code;
    reason = ending.cause;
  })

pub read_items : List Session → List Item → Checked (List Session)
unfolding read_item
read_items before [] = ok []
read_items before (item ∷ items) = do
  r ← read_item before item
  rest ← read_items (r ∷ before) items
  ok (r ∷ rest)

is_one : Value → Bool
is_one (integer (pos n)) = n == 1
is_one _ = false

pub validate_document : Parsed → Checked (List Session)
unfolding is_one read_items
validate_document (document false version (some items)) =
    guard (is_one version) rejected >> read_items [] items
validate_document _ = err rejected
