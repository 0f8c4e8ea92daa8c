-- ===== src/Connection/Preflight.antt =====
-- electron/portal-preflight.js: which codes leave it. The portal's answers are arguments.
pub mod Exact
use usshtc.Prelude.{Option, none, some, Result, ok, err, ◌>>=◌, ◌>>◌}
use usshtc.Connection.Codes.{
  Code, no_code, auth_required, portal_network, portal_timeout, portal_permission, portal_not_found,
  portal_unimplemented, portal_quota, portal_unknown, operation_cancelled,
}

unfoldable pub operational_code : Code → Code
operational_code portal_network = portal_network
operational_code portal_timeout = portal_timeout
operational_code portal_permission = portal_permission
operational_code portal_not_found = portal_not_found
operational_code portal_unimplemented = portal_unimplemented
operational_code portal_quota = portal_quota
operational_code portal_unknown = portal_unknown
operational_code operation_cancelled = operation_cancelled
operational_code _ = portal_network

-- `result.status`, with the code of a network error; `other` is any other status.
pub data TokenStatus : Type 0 where
  valid invalid : TokenStatus
  network_error : Code → TokenStatus
  other : Code → TokenStatus

-- What the code finds in the cookie: `extractScowToken` throws, finds none, or finds a token.
pub data Token : Type 0 where
  unreadable missing present : Token

-- A call of the portal: the freshness checks before and after it, and its answer.
pub record Call {ℓ} (A : Type ℓ) : Type ℓ where
  pub fresh_before : Result Code (Unit {0})
  pub answer : Result Code A
  pub fresh_after : Result Code (Unit {0})

unfoldable pub call {ℓ} : {A : Type ℓ} → Call A → Result Code A
call c = do c.fresh_before; answer ← c.answer; c.fresh_after; ok answer

-- An error of the call is a status like another.
unfoldable pub checked_token : Result Code TokenStatus → TokenStatus
unfolding operational_code
checked_token (ok status) = status
checked_token (err code) = network_error (operational_code code)

unfoldable pub validate : Token → Call TokenStatus → TokenStatus
unfolding call checked_token
validate unreadable request = invalid
validate missing request = invalid
validate present request = checked_token (call request)

-- `some` is the error code of an answer that is not ok.
unfoldable pub setup_code : Result Code (Option Code) → Option Code
setup_code (ok answer) = answer
setup_code (err operation_cancelled) = some operation_cancelled
setup_code (err portal_timeout) = some portal_timeout
setup_code (err _) = some portal_network

unfoldable pub setup : Call (Option Code) → Option Code
unfolding call setup_code
setup request = setup_code (call request)

unfoldable pub setup_thrown : Option Code → Option Code
setup_thrown none = none
setup_thrown (some operation_cancelled) = some operation_cancelled
setup_thrown (some portal_timeout) = some portal_timeout
setup_thrown (some _) = some portal_network

unfoldable pub after_token : TokenStatus → Option Code → Option Code
unfolding operational_code setup_thrown
after_token valid prepared = setup_thrown prepared
after_token invalid prepared = some auth_required
after_token (network_error code) prepared = some (operational_code code)
after_token (other code) prepared = some (operational_code code)

-- `run`: the code that it throws, if it does.
unfoldable pub run : Token → Call TokenStatus → Call (Option Code) → Option Code
unfolding validate setup after_token
run token checked prepared = after_token (validate token checked) (setup prepared)
