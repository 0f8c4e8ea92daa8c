-- ===== src/Lifecycle/Auth.antt =====
-- electron/auth-state.js. The injected callbacks are parameters: what they do to their own state is
-- not seen here, and a store that cannot be cleared throws.
use usshtc.Prelude.{
  ℕ, ◌≡◌, refl, Bool, true, false, ◌&&◌, List, [], ◌∷◌, Option, none, if◌then◌else◌, arith, Result,
  ok, err, suc, ◌>>=◌, not, ◌≢◌,
}

-- `LOGIN_STATUSES`; any other value of the dynamic language is `other`.
pub data LoginStatus : Type 0 where
  idle pending sso_done success failure other : LoginStatus

-- The shared `state`, and what the callbacks received: the captured cookie, the number of
-- invalidations of running queries, and the published states, the last one first.
pub record AuthState : Type 0 where
  pub login_status : LoginStatus
  pub login_stage : Option ℕ
  pub cookie_valid : Bool
  pub cookie_count : ℕ
  pub captured_cookie : List ℕ
  pub queries_invalidated : ℕ
  pub published : List LoginStatus
  pub stored_cookie : Bool

is_success : LoginStatus → Bool
is_success success = true
is_success _ = false

accepts_status : LoginStatus → Bool
accepts_status idle = true
accepts_status pending = true
accepts_status sso_done = true
accepts_status failure = true
accepts_status success = false
accepts_status other = false

pub data AuthError : Type 0 where
  invalid_status : AuthError

-- `deactivate`.
pub deactivate : LoginStatus → AuthState → Result AuthError AuthState
unfolding accepts_status
deactivate status s =
    if accepts_status status
    then ok (record s {
      queries_invalidated = suc s.queries_invalidated;
      login_status = status;
      login_stage = none;
      cookie_valid = false;
      cookie_count = 0;
      captured_cookie = [];
      published = status ∷ s.published;
    })
    else err invalid_status

-- `invalidate`: memory first, then the store, which may throw.
pub invalidate : LoginStatus → Bool → AuthState → Result AuthError (AuthState × Bool)
unfolding deactivate
invalidate status clear_throws s = do
  s' ← deactivate status s
  ok (if clear_throws then (s', false) else (record s' { stored_cookie = false }, true))

-- `expireCookie`.
pub expire_cookie : Bool → AuthState → Result AuthError (AuthState × Bool)
unfolding invalidate is_success
expire_cookie clear_throws s =
    invalidate (if is_success s.login_status then failure else s.login_status) clear_throws s

-- `canStartProxy`.
pub can_start_proxy : AuthState → Bool
unfolding is_success
can_start_proxy s = is_success s.login_status && s.cookie_valid

-- No credential is left in memory, and the proxy may not start.
pub record IsRevoked (s : AuthState) : Type 0 where
  pub cannot_start : can_start_proxy s ≡ false
  pub no_cookie : s.captured_cookie ≡ []
  pub not_counted : s.cookie_count ≡ 0
  pub not_valid : s.cookie_valid ≡ false

deactivate-IsRevoked :
    (status : LoginStatus) (s t : AuthState)
    → deactivate status s ≡ ok t
    → IsRevoked t × (t.queries_invalidated ≡ suc s.queries_invalidated) × (t.login_status ≡ status)
unfolding deactivate can_start_proxy
deactivate-IsRevoked status s t h = ground arith

-- The state that `invalidate` leaves.
abbrev revoked : LoginStatus → Bool → AuthState → AuthState
revoked status clear_throws s = record s {
  queries_invalidated = suc s.queries_invalidated;
  login_status = status;
  login_stage = none;
  cookie_valid = false;
  cookie_count = 0;
  captured_cookie = [];
  published = status ∷ s.published;
  stored_cookie = clear_throws && s.stored_cookie;
}

invalidate-revoked :
    (status : LoginStatus) (clear_throws : Bool) (s : AuthState)
    → accepts_status status ≡ true
    → invalidate status clear_throws s ≡ ok (revoked status clear_throws s, not clear_throws)
unfolding invalidate
invalidate-revoked status true s h = ground arith
invalidate-revoked status false s h = ground arith

revoked-IsRevoked :
    (status : LoginStatus) (clear_throws : Bool) (s : AuthState)
    → IsRevoked (revoked status clear_throws s)
unfolding can_start_proxy
revoked-IsRevoked status clear_throws s = ground arith

expired_accepted :
    (status : LoginStatus)
    → status ≢ other
    → accepts_status (if is_success status then failure else status) ≡ true
unfolding accepts_status is_success
expired_accepted status known = ground arith

expired_failure :
    (status : LoginStatus)
    → status ≡ success
    → (if is_success status then failure else status) ≡ failure
unfolding is_success
expired_failure status e = ground arith

expired_same :
    (status : LoginStatus)
    → status ≢ success
    → (if is_success status then failure else status) ≡ status
unfolding is_success
expired_same status ne = ground arith

-- An expired cookie is never refused: in every login status the credentials in memory are revoked
-- and the running queries invalidated, whether or not the store can be cleared. If clearing it throws,
-- the answer is false and the store is as before; otherwise the answer is true and the store holds no
-- cookie. A login that had succeeded is a failure afterwards, and any other status stays.
pub expire_cookie-IsRevoked :
    (clear_throws : Bool) (s : AuthState)
    → s.login_status ≢ other
    → (t : AuthState) × (expire_cookie clear_throws s ≡ ok (t, not clear_throws))
      × IsRevoked t
      × (t.queries_invalidated ≡ suc s.queries_invalidated)
      × (clear_throws ≡ false → t.stored_cookie ≡ false)
      × (clear_throws ≡ true → t.stored_cookie ≡ s.stored_cookie)
      × (s.login_status ≡ success → t.login_status ≡ failure)
      × (s.login_status ≢ success → t.login_status ≡ s.login_status)
expire_cookie-IsRevoked clear_throws s known =
    let next = if is_success s.login_status then failure else s.login_status in
    (
      revoked next clear_throws s,
      unfold expire_cookie in
          invalidate-revoked next clear_throws s (expired_accepted s.login_status known),
      revoked-IsRevoked next clear_throws s,
      refl,
      (λ e. rw e refl),
      (λ e. rw e refl),
      (λ e. expired_failure s.login_status e),
      (λ ne. expired_same s.login_status ne),
    )
