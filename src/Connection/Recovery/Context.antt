-- ===== src/Connection/Recovery/Context.antt =====
-- What a round of electron/recovery-controller.js is bound to, and its first validation.
use usshtc.Prelude.{
  ℕ, Bool, true, false, not, ◌&&◌, List, [], ◌∷◌, Option, none, some, if◌then◌else◌, ◌==◌,
}
use usshtc.Prelude.Text.{Text, text_eq, is_empty}
use usshtc.Connection.Codes.{
  Code, settings_locked, settings_invalid, auth_required, port_in_use, eaddrinuse, ssh_key_missing,
  ssh_key_invalid, ssh_key_fingerprint_mismatch, Key,
}

pub record Scope : Type 0 where
  pub profile_id : Text
  pub epoch : ℕ

unfoldable pub same_scope : Scope → Scope → Bool
same_scope left right = text_eq left.profile_id right.profile_id && left.epoch == right.epoch

-- `getSnapshot()`. An absent storage error is the empty text.
pub record Snapshot : Type 0 where
  pub scope : Scope
  pub desired_running : Bool
  pub storage_error : Text
  pub error_code : Code
  -- `proxyStatus === 'stopped'`, `remoteStatus === 'checking'` and `Boolean(operation)`
  pub proxy_stopped : Bool
  pub remote_checking : Bool
  pub operating : Bool

-- What `getConfig`, `getCookie` and `getAuthGeneration` return, as JSON texts; and the verdicts of
-- settings-schema.mjs and wss-connection.js on them, which are functions of these values: the
-- settings are accepted, the address is a wss: one without a user, the cookie fits a header.
pub record Access : Type 0 where
  pub fields : List Text
  pub cookie : Text
  pub auth_generation : Text
  pub settings_accepted : Bool
  pub address_accepted : Bool
  pub header_accepted : Bool

pub record Context : Type 0 where
  pub snapshot : Snapshot
  pub access : Access

-- The environment at one moment. Reading it fails where the scope is no longer the stores' own.
pub record World : Type 0 where
  pub snapshot : Snapshot
  pub access : Option Access
  -- `getPreferences().reconnectOnResume !== false`
  pub reconnect : Bool

unfoldable pub with_access : Snapshot → Option Access → Option Context
with_access snapshot none = none
with_access snapshot (some access) = some (record { snapshot = snapshot; access = access })

unfoldable pub context : World → Option Context
unfolding with_access
context w = with_access w.snapshot w.access

abbrev flag : Bool → Text
flag true = 1 ∷ []
flag false = 0 ∷ []

unfoldable pub transport_key : Context → Key
transport_key c =
    c.snapshot.scope.profile_id
    ∷ (c.snapshot.scope.epoch ∷ [])
    ∷ c.access.auth_generation
    ∷ c.access.cookie
    ∷ c.access.fields

unfoldable pub key : Context → Key
unfolding transport_key
key c = flag c.snapshot.desired_running ∷ c.snapshot.storage_error ∷ transport_key c

-- The errors of the snapshot that only the user can remove.
unfoldable pub lasting_error : Code → Option Code
lasting_error port_in_use = some port_in_use
lasting_error eaddrinuse = some port_in_use
lasting_error ssh_key_missing = some ssh_key_missing
lasting_error ssh_key_invalid = some ssh_key_invalid
lasting_error ssh_key_fingerprint_mismatch = some ssh_key_fingerprint_mismatch
lasting_error settings_locked = some settings_locked
lasting_error _ = none

unfoldable pub validate : Context → Option Code
unfolding lasting_error
validate c =
    if not (is_empty c.snapshot.storage_error)
    then some settings_locked
    else if not c.access.settings_accepted
    then some settings_invalid
    else if not c.access.address_accepted
    then some settings_invalid
    else if is_empty c.access.cookie
    then some auth_required
    else if not c.access.header_accepted
    then some auth_required
    else lasting_error c.snapshot.error_code
