-- ===== src/Connection/Recovery/Probe/Reached.antt =====
-- When the probe of electron/recovery-controller.js finds the remote side.
use usshtc.Prelude.{
  ◌≡◌, refl, ap, ◌∙◌, ◌↔◌, Bool, true, false, List, [], ◌∷◌, ◌++◌, none, some, if◌then◌else◌, All,
  arith, ℕ,
}
use usshtc.Connection.Recovery.Round.{answered}
use usshtc.Connection.Recovery.Probe.{
  SocketEvent, open_event, close_event, expired, failed_call, message, error, unexpected_response,
  Probing, idle, finish, expiry, on_message, on_error, on_response, on_event, probe_from, probe,
  is_certificate_error,
}

abbrev pub is_message : SocketEvent → Bool
is_message (message _) = true
is_message _ = false

abbrev pub is_quiet : SocketEvent → Bool
is_quiet open_event = true
is_quiet (message is_data) = if is_data then false else true
is_quiet _ = false

-- The socket opened, and later a message brought data; there were only messages before, and no message
-- with data, close, error, answer or timer between.
pub record IsReached (events : List SocketEvent) : Type 0 where
  pub before : List SocketEvent
  pub between : List SocketEvent
  pub rest : List SocketEvent
  pub whole : events ≡ before ++ open_event ∷ (between ++ message true ∷ rest)
  pub early : All (λ e. is_message e ≡ true) before
  pub quiet : All (λ e. is_quiet e ≡ true) between

abbrev opened : Probing
opened = record { opened = true; finished = none }

opened-answers :
    (between rest : List SocketEvent)
    → All (λ e. is_quiet e ≡ true) between
    → (probe_from none (between ++ message true ∷ rest) opened).finished ≡ some answered
unfolding probe_from on_event on_message finish
opened-answers [] rest q = refl
opened-answers (open_event ∷ between) rest (h, q) = opened-answers between rest q
opened-answers (message true ∷ between) rest (h, q) = ground arith
opened-answers (message false ∷ between) rest (h, q) = opened-answers between rest q
opened-answers (close_event ∷ between) rest (h, q) = ground arith
opened-answers (expired ∷ between) rest (h, q) = ground arith
opened-answers (failed_call ∷ between) rest (h, q) = ground arith
opened-answers (error code ∷ between) rest (h, q) = ground arith
opened-answers (unexpected_response n ∷ between) rest (h, q) = ground arith

early-answers :
    (before between rest : List SocketEvent)
    → All (λ e. is_message e ≡ true) before
    → All (λ e. is_quiet e ≡ true) between
    → (probe_from none (before ++ open_event ∷ (between ++ message true ∷ rest)) idle).finished
      ≡ some answered
unfolding probe_from on_event on_message
early-answers [] between rest h q = opened-answers between rest q
early-answers (message is_data ∷ before) between rest (h, hs) q =
    early-answers before between rest hs q
early-answers (open_event ∷ before) between rest (h, hs) q = ground arith
early-answers (close_event ∷ before) between rest (h, hs) q = ground arith
early-answers (expired ∷ before) between rest (h, hs) q = ground arith
early-answers (failed_call ∷ before) between rest (h, hs) q = ground arith
early-answers (error code ∷ before) between rest (h, hs) q = ground arith
early-answers (unexpected_response n ∷ before) between rest (h, hs) q = ground arith

record IsData (events : List SocketEvent) : Type 0 where
  between : List SocketEvent
  rest : List SocketEvent
  whole : events ≡ between ++ message true ∷ rest
  quiet : All (λ e. is_quiet e ≡ true) between

IsData-after :
    (e : SocketEvent) (events : List SocketEvent)
    → is_quiet e ≡ true
    → IsData events
    → IsData (e ∷ events)
IsData-after e events h d = record {
  between = e ∷ d.between;
  rest = d.rest;
  whole = ap (λ es. e ∷ es) d.whole;
  quiet = (h, d.quiet);
}

on_error-refuses : (certificate : Bool) → some (on_error certificate) ≡ some answered → ⊥
unfolding on_error
on_error-refuses certificate h = ground arith

on_response-refuses : (n : ℕ) → some (on_response n) ≡ some answered → ⊥
unfolding on_response
on_response-refuses n h = ground arith

expiry-refuses : (ready : Bool) → some (expiry ready) ≡ some answered → ⊥
unfolding expiry
expiry-refuses true h = ground arith
expiry-refuses false h = ground arith

answers-IsData :
    (events : List SocketEvent)
    → (probe_from none events opened).finished ≡ some answered
    → IsData events
unfolding probe_from on_event on_message finish
answers-IsData [] h = ground arith
answers-IsData (open_event ∷ events) h =
    IsData-after open_event events refl (answers-IsData events h)
answers-IsData (message true ∷ events) h = record {
  between = [];
  rest = events;
  whole = refl;
  quiet = tt;
}
answers-IsData (message false ∷ events) h =
    IsData-after (message false) events refl (answers-IsData events h)
answers-IsData (close_event ∷ events) h = ground arith
answers-IsData (expired ∷ events) h = elim (expiry-refuses true h) [ ]
answers-IsData (failed_call ∷ events) h = ground arith
answers-IsData (error code ∷ events) h = elim (on_error-refuses (is_certificate_error code) h) [ ]
answers-IsData (unexpected_response n ∷ events) h = elim (on_response-refuses n h) [ ]

answers-IsReached :
    (events : List SocketEvent)
    → (probe_from none events idle).finished ≡ some answered
    → IsReached events
unfolding probe_from on_event on_message finish
answers-IsReached [] h = ground arith
answers-IsReached (open_event ∷ events) h =
    let d = answers-IsData events h in
    record {
      before = [];
      between = d.between;
      rest = d.rest;
      whole = ap (λ es. open_event ∷ es) d.whole;
      early = tt;
      quiet = d.quiet;
    }
answers-IsReached (message is_data ∷ events) h =
    let d = answers-IsReached events h in
    record {
      before = message is_data ∷ d.before;
      between = d.between;
      rest = d.rest;
      whole = ap (λ es. message is_data ∷ es) d.whole;
      early = (refl, d.early);
      quiet = d.quiet;
    }
answers-IsReached (close_event ∷ events) h = ground arith
answers-IsReached (expired ∷ events) h = elim (expiry-refuses false h) [ ]
answers-IsReached (failed_call ∷ events) h = ground arith
answers-IsReached (error code ∷ events) h =
    elim (on_error-refuses (is_certificate_error code) h) [ ]
answers-IsReached (unexpected_response n ∷ events) h = elim (on_response-refuses n h) [ ]

-- The probe finds the remote side exactly if the socket opened, after no events but messages, and then a
-- message brought data, after no events but messages without data and further opens.
pub probe_iff : (events : List SocketEvent) → (probe events ≡ some answered) ↔ IsReached events
unfolding probe
probe_iff events = (
  answers-IsReached events,
  λ d.
      ap (λ es. (probe_from none es idle).finished) d.whole
      ∙ early-answers d.before d.between d.rest d.early d.quiet,
)
