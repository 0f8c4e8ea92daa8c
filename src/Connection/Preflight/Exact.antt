-- ===== src/Connection/Preflight/Exact.antt =====
-- When electron/portal-preflight.js lets a proxy start, and which codes it throws otherwise.
use usshtc.Prelude.{◌≡◌, Option, none, some, ok, ◌⊎◌}
use usshtc.Connection.Codes.{
  Code, auth_required, portal_network, portal_timeout, portal_permission, portal_not_found,
  portal_unimplemented, portal_quota, portal_unknown, operation_cancelled,
}
use usshtc.Connection.Preflight.{
  TokenStatus, valid, invalid, Token, unreadable, missing, present, Call, call,
}

-- The codes that tell of the portal; none of them asks for a new login.
pub data IsPortalCode : Code → Type 0 where
  network : IsPortalCode portal_network
  time : IsPortalCode portal_timeout
  permission : IsPortalCode portal_permission
  not_found : IsPortalCode portal_not_found
  unimplemented : IsPortalCode portal_unimplemented
  quota : IsPortalCode portal_quota
  unnamed : IsPortalCode portal_unknown
  cancelled_call : IsPortalCode operation_cancelled

-- What each way to end shows: the proxy may start; a new login is needed; the portal did not answer.
abbrev pub Ends : Token → Call TokenStatus → Call (Option Code) → Option Code → Type 0
Ends token checked prepared none =
    (token ≡ present) × (call checked ≡ ok valid) × (call prepared ≡ ok none)
Ends token checked prepared (some auth_required) =
    (token ≡ missing) ⊎ (token ≡ unreadable) ⊎ (call checked ≡ ok invalid)
Ends token checked prepared (some code) = IsPortalCode code
