-- ===== src/Connection/Recovery/Probe.antt =====
-- The probe of electron/recovery-controller.js: one socket that is opened, and what its events mean.
-- `ws` and the timers are the environment, so their events are the input.
pub mod Reached
use usshtc.Prelude.{
  ℕ, Bool, true, false, ◌||◌, List, [], ◌∷◌, Option, none, some, if◌then◌else◌, ◌==◌, any, take,
}
use usshtc.Prelude.Text.{Text, codes, text_eq}
use usshtc.Connection.Codes.{
  timeout, remote_ready_timeout, tls_failed, network_unavailable, wss_failed, settings_invalid,
}
use usshtc.Connection.Recovery.Round.{Probed, answered, refused, unanswered}

abbrev certificate_errors : List Text
certificate_errors =
    codes "CERT_HAS_EXPIRED"
    ∷ codes "CERT_NOT_YET_VALID"
    ∷ codes "CERT_REVOKED"
    ∷ codes "DEPTH_ZERO_SELF_SIGNED_CERT"
    ∷ codes "SELF_SIGNED_CERT_IN_CHAIN"
    ∷ codes "UNABLE_TO_VERIFY_LEAF_SIGNATURE"
    ∷ codes "UNABLE_TO_GET_ISSUER_CERT"
    ∷ codes "UNABLE_TO_GET_ISSUER_CERT_LOCALLY"
    ∷ codes "ERR_TLS_CERT_ALTNAME_INVALID"
    ∷ codes "ERR_TLS_CERT_SIGNATURE_ALGORITHM_UNSUPPORTED"
    ∷ codes "CERT_SIGNATURE_FAILURE"
    ∷ codes "INVALID_CA"
    ∷ []

-- `CERTIFICATE_ERRORS.has(code) || code.startsWith('ERR_TLS_CERT_')`.
unfoldable pub is_certificate_error : Text → Bool
is_certificate_error code =
    any (text_eq code) certificate_errors || text_eq (take 13 code) (codes "ERR_TLS_CERT_")

-- `message` says whether the text is JSON of a `data` case whose data is a string; `error` has the
-- code of the error, or the empty text; `expired` is the timer that is set.
pub data SocketEvent : Type 0 where
  open_event close_event expired failed_call : SocketEvent
  message : Bool → SocketEvent
  error : Text → SocketEvent
  unexpected_response : ℕ → SocketEvent

pub record Probing : Type 0 where
  pub opened : Bool
  pub finished : Option Probed

abbrev pub idle : Probing
idle = record { opened = false; finished = none }

unfoldable pub finish : Probed → Probing → Probing
finish result p = record p { finished = some result }

unfoldable pub expiry : Bool → Probed
expiry false = unanswered timeout false
expiry true = unanswered remote_ready_timeout true

unfoldable pub on_message : Bool → Bool → Probing → Probing
unfolding finish
on_message true true p = finish answered p
on_message _ _ p = p

unfoldable pub on_error : Bool → Probed
on_error certificate =
    unanswered (if certificate then tls_failed else network_unavailable) certificate

unfoldable pub on_response : ℕ → Probed
on_response status_code =
    if status_code == 401 || status_code == 403 then refused else unanswered wss_failed false

unfoldable pub on_event : SocketEvent → Probing → Probing
unfolding finish expiry on_message on_error on_response is_certificate_error
on_event open_event p = record p { opened = true }
on_event (message is_data) p = on_message p.opened is_data p
on_event (error code) p = finish (on_error (is_certificate_error code)) p
on_event close_event p = finish (unanswered wss_failed false) p
on_event (unexpected_response status_code) p = finish (on_response status_code) p
on_event expired p = finish (expiry p.opened) p
on_event failed_call p = finish (unanswered settings_invalid true) p

-- The handlers are removed as soon as the probe has finished.
unfoldable pub probe_from : Option Probed → List SocketEvent → Probing → Probing
unfolding on_event
probe_from (some result) events p = p
probe_from none [] p = p
probe_from none (e ∷ events) p = let next = on_event e p in probe_from next.finished events next

unfoldable pub probe : List SocketEvent → Option Probed
unfolding probe_from
probe events = (probe_from none events idle).finished
