-- ===== src/History/Tests.antt =====
-- The theorems about electron/session-history-store.js at concrete inputs.
use usshtc.Prelude.{
  ◌≤◌, ◌≡◌, refl, true, false, List, [], ◌∷◌, none, some, All, ok, all, length, ◌*◌, arith, select,
}
use usshtc.Prelude.Text.{codes}
use usshtc.Prelude.Dynamic.{undefined, integer, pos, string}
use usshtc.History.Records.{
  Session, validate_document, document_for, encode, Parsed, document, is_token,
}
use usshtc.History.Records.RoundTrip.{IsSession, Distinct, validate_document-document_for}
use usshtc.History.Records.Sound.{Sound, AreSessions, validate_document-Sound}
use usshtc.History.Size.{serialized_bytes}
use usshtc.History.Prune.{prune, is_open, sort, is_kept}
use usshtc.History.Prune.Exact.{prune-exact, Drops, IsOver}
use usshtc.History.Prune.Keeps.{Keeps, prune-Keeps}
use usshtc.History.Store.{stored, not_replaced}
use usshtc.History.Store.IsValid.{HasLive, IsReadable}
use usshtc.History.Loading.{
  Call, call_register, call_sample, call_finalize, call_clear, missing, session,
}
use usshtc.History.Loading.Runs.{session-IsValid}

abbrev ended : Session
ended = record {
  id = codes "a";
  profile_id = codes "p";
  kind = codes "shell";
  started_at = 5;
  ended_at = some 9;
  bytes_sent = 1;
  bytes_received = 2;
  exit_code = some 0;
  reason = some (codes "completed");
}

abbrev running : Session
running = record {
  id = codes "b";
  profile_id = codes "p";
  kind = codes "exec";
  started_at = 7;
  ended_at = none;
  bytes_sent = 0;
  bytes_received = 0;
  exit_code = none;
  reason = none;
}

ended-IsSession : IsSession ended
unfolding is_token
ended-IsSession = record {
  id_token = refl;
  profile_token = refl;
  known_kind = refl;
  started = ground arith;
  sent = ground arith;
  received = ground arith;
  ends_well = (ground arith, ground arith, ground arith, refl);
}

running-IsSession : IsSession running
unfolding is_token
running-IsSession = record {
  id_token = refl;
  profile_token = refl;
  known_kind = refl;
  started = ground arith;
  sent = ground arith;
  received = ground arith;
  ends_well = tt;
}

validate_document-document_for_example :
    validate_document (document_for (ended ∷ running ∷ [])) ≡ ok (ended ∷ running ∷ [])
validate_document-document_for_example =
    validate_document-document_for (ended ∷ running ∷ []) (ended-IsSession, (running-IsSession, tt))
      (refl, (refl, tt))

abbrev parsed_text : Parsed
parsed_text = document false (integer (pos 1)) (some (encode running ∷ []))

validate_document-Sound_example : Sound AreSessions (validate_document parsed_text)
validate_document-Sound_example = validate_document-Sound parsed_text

prune-exact_example :
    let (left, fits) = prune 3000000000 (running ∷ ended ∷ []) in
    Drops (sort (select (is_kept 3000000000) (running ∷ ended ∷ []))) left
    × (fits ≡ true → (length left ≤ 1000) × (serialized_bytes left ≤ 1024 * 1024))
    × (fits ≡ false → IsOver left × (all is_open left ≡ true))
prune-exact_example = prune-exact 3000000000 (running ∷ ended ∷ [])

prune-Keeps_example : Keeps (running ∷ ended ∷ []) (prune 3000000000 (running ∷ ended ∷ [])).0
prune-Keeps_example = prune-Keeps 3000000000 (running ∷ ended ∷ [])

abbrev calls : List Call
calls =
    call_register 7 (string (codes "b")) (string (codes "p")) (string (codes "exec"))
      (integer (pos 7)) undefined undefined
    ∷ call_sample (codes "b") (integer (pos 4)) (integer (pos 3))
    ∷ call_finalize 9 stored (codes "b") undefined undefined undefined (integer (pos 0))
        (string (codes "completed"))
    ∷ call_clear 9 not_replaced (codes "q")
    ∷ []

session-IsValid_example :
    let s = session 7 stored true missing calls in
    All IsSession s.sessions
    × Distinct s.sessions
    × All (HasLive s.sessions) s.registered
    × IsReadable s.file
session-IsValid_example =
    session-IsValid 7 stored true missing calls (ground arith) (tt, (tt, (tt, (tt, tt))))
