-- ===== src/Proxy/Balance/Reports.antt =====
-- The accounts of electron/proxy-controller.js when a server reports.
use usshtc.Prelude.{
  ℕ, ◌+◌, ◌≡◌, refl, ap, ◌∙◌, true, false, not, ◌&&◌, ◌||◌, List, [], ◌∷◌, ◌++◌, Option, none, some,
  if◌then◌else◌, ◌==◌, arith, if-P, Bool-cases, inl, inr, All-snoc, ◌≤◌, sym,
}
use usshtc.Prelude.Text.{Text, text_eq, text_eq_iff}
use usshtc.Proxy.State.{
  Reason, proxy_start_failed, proxy_stop_failed, SessionKey, Entry, Instance, stopped, running,
  failed, connections, Controller, Stat, World, emit, set_current, on_current, is_visible,
  clear_timers,
}
use usshtc.Proxy.Sessions.{find_entry, Close, finalize_session, finalize_remaining}
use usshtc.Proxy.Reports.{
  Report, reports_started, reports_connections, reports_auth_error, reports_stopped, reports_error,
  reports_traffic, reports_not_ready, reports_open, reports_close, on_started, mark_stopped,
  on_stopped, on_auth_error, has_entry, on_not_ready, register, announce_open, on_open, is_network,
  announce_close, on_close, on_traffic, on_report,
}
use usshtc.Proxy.Balance.{
  one, open_in, open_sessions, count, registered_count, removed_count, finalized_count, IsBalanced,
  on_current-P, set_current-IsBalanced, notify-IsBalanced, KeyedIn, IsDistinct,
}
use usshtc.Proxy.Balance.Sessions.{finalize_session-IsBalanced, finalize_remaining-IsBalanced}
use mathlib.Core.Path.{subst}

open_in-append :
    (k : SessionKey) (entries : List Entry) (e : Entry)
    → open_in k (entries ++ e ∷ []) ≡ one k e.session_key + open_in k entries
open_in-append k [] e = refl
open_in-append k (x ∷ entries) e = let k' = open_in-append k entries e in omega arith

on_started-IsBalanced :
    (port : ℕ) (r : Instance) (s : Controller)
    → s.current ≡ some r
    → IsBalanced s
    → IsBalanced (on_started port r s)
unfolding on_started
on_started-IsBalanced port r s e v =
    let r' : Instance = record r {
      started = true;
      config = record { port = port; others = r.config.others };
    } in
    let k = set_current-IsBalanced r r' s e (λ k. refl) (λ h. h) v in
    if-P IsBalanced r.cancelled _ _ (λ h. k)
      (λ h. notify-IsBalanced (running r'.config) (set_current r' s) k)

on_stopped-IsBalanced :
    (w : World) (r : Instance) (s : Controller) → IsBalanced s → IsBalanced (on_stopped w r s)
unfolding on_stopped mark_stopped clear_timers
on_stopped-IsBalanced w r s v =
    let s' = finalize_remaining w r.stop_reason (clear_timers s) in
    let k = finalize_remaining-IsBalanced w r.stop_reason (clear_timers s) v in
    notify-IsBalanced stopped (on_current mark_stopped s') (
      on_current-P IsBalanced mark_stopped s'
        (λ r' e.
          set_current-IsBalanced r' (record r' { started = false }) s' e (λ k'. refl) (λ h. h) k)
        k)

one_most : (k k' : SessionKey) → one k k' ≤ 1
one_most k k' =
    elim (Bool-cases (k.instance_id == k'.instance_id && text_eq k.session k'.session)) [
      | inl e ↦ rw e (omega arith)
      | inr e ↦ rw e (omega arith)
    ]

one_apart : (k k' : SessionKey) → text_eq k.session k'.session ≡ false → one k k' ≡ 0
one_apart k k' h = elim (Bool-cases (k.instance_id == k'.instance_id)) [
  | inl e ↦ rw (e, h) refl
  | inr e ↦ rw e refl
]

text_eq_swap : (s t : Text) → text_eq s t ≡ false → text_eq t s ≡ false
text_eq_swap s t h = elim (Bool-cases (text_eq t s)) [
  | inl e ↦ cc ((text_eq_iff s t).1 (sym ((text_eq_iff t s).0 e)), h)
  | inr e ↦ e
]

-- A session that is not found is not open.
absent-open :
    (n : ℕ) (k : SessionKey) (entries : List Entry)
    → KeyedIn n entries
    → find_entry k.session entries ≡ none
    → open_in k entries ≡ 0
unfolding find_entry
absent-open n k [] keyed h = refl
absent-open n k (e ∷ entries) ((_, named), keyed) h = elim (Bool-cases (text_eq e.id k.session)) [
  | inl t ↦ cc (rw t at h)
  | inr t ↦
      let apart : text_eq k.session e.session_key.session ≡ false =
        subst (λ x. text_eq k.session x ≡ false) (sym named) (text_eq_swap e.id k.session t) in
      let first = one_apart k e.session_key apart in
      let others = absent-open n k entries keyed (rw t at h) in omega arith
]

-- A session is registered only if it is not open, so it is open once then.
register-once :
    (n : ℕ) (id : Text) (entries : List Entry) (k : SessionKey)
    → KeyedIn n entries
    → find_entry id entries ≡ none
    → open_in k entries ≤ 1
    → one k (record { instance_id = n; session = id }) + open_in k entries ≤ 1
register-once n id entries k keyed h most = elim (Bool-cases (text_eq k.session id)) [
  | inl t ↦
      let absent =
        absent-open n k entries keyed
          (subst (λ x. find_entry x entries ≡ none) (sym ((text_eq_iff k.session id).0 t)) h) in
      let single = one_most k (record { instance_id = n; session = id }) in omega arith
  | inr t ↦ let apart = one_apart k (record { instance_id = n; session = id }) t in omega arith
]

register-IsBalanced :
    (o : Option Entry) (stat : Stat) (r : Instance) (s : Controller)
    → find_entry stat.id r.sessions ≡ o
    → s.current ≡ some r
    → IsBalanced s
    → IsBalanced (register o stat r s)
unfolding register set_current emit
register-IsBalanced (some x) stat r s h e v = v
register-IsBalanced none stat r s h e (single, settled, waiting, distinct) =
    let name : SessionKey = record { instance_id = r.id; session = stat.id } in
    let entry : Entry = record {
      id = stat.id;
      session_key = name;
      bytes_sent = stat.bytes_sent;
      bytes_received = stat.bytes_received;
    } in
    let counts : count s.current ≡ 1 = ap count e in
    let (keyed, once) : IsDistinct (some r) = subst IsDistinct e distinct in
    (
      single ∙ ap (λ n. removed_count s.effects + n) counts,
      λ k.
          let before : registered_count k s.effects
              ≡ finalized_count k s.effects + open_in k r.sessions =
            settled k ∙ ap (λ o. finalized_count k s.effects + open_in k (open_sessions o)) e in
          let after = open_in-append k r.sessions entry in omega arith,
      omega arith,
      (
        All-snoc
            (λ (x : Entry). (x.session_key.instance_id ≡ r.id) × (x.session_key.session ≡ x.id))
            r.sessions entry keyed (refl, refl),
        λ k.
            subst (λ n. n ≤ 1) (sym (open_in-append k r.sessions entry))
              (register-once r.id stat.id r.sessions k keyed h (once k)),
      ),
    )

on_open-IsBalanced :
    (stat : Stat) (r : Instance) (s : Controller)
    → s.current ≡ some r
    → IsBalanced s
    → IsBalanced (on_open stat r s)
unfolding on_open announce_open emit
on_open-IsBalanced stat r s e v =
    let s' = register (find_entry stat.id r.sessions) stat r s in
    let k = register-IsBalanced (find_entry stat.id r.sessions) stat r s refl e v in
    if-P IsBalanced (r.candidate || r.cancelled || r.history_closed) _ _ (λ h. v)
      (λ h.
        on_current-P IsBalanced announce_open s'
          (λ r' e'. if-P IsBalanced (is_visible r' s') _ _ (λ t. k) (λ t. k)) k)

announce_close-IsBalanced :
    (reason : Reason) (r : Instance) (s : Controller)
    → IsBalanced s
    → IsBalanced (announce_close reason r s)
unfolding announce_close emit
announce_close-IsBalanced reason r s v =
    if-P IsBalanced (is_visible r s) _ _
      (λ h.
        if-P IsBalanced
          (not r.cancelled && not r.stop_requested && not r.history_closed && is_network reason) _ _
          (λ t. v) (λ t. v))
      (λ h. v)

on_close-IsBalanced :
    (w : World) (id : Text) (c : Close) (r : Instance) (s : Controller)
    → s.current ≡ some r
    → IsBalanced s
    → IsBalanced (on_close w id c r s)
unfolding on_close
on_close-IsBalanced w id c r s e v =
    let s' = finalize_session w id c r s in
    let k = finalize_session-IsBalanced w id c r s e v in
    on_current-P IsBalanced (announce_close c.reason) s'
      (λ r' e'. announce_close-IsBalanced c.reason r' s' k) k

pub on_report-IsBalanced :
    (w : World) (report : Report) (r : Instance) (s : Controller)
    → s.current ≡ some r
    → IsBalanced s
    → IsBalanced (on_report w report r s)
unfolding on_report on_auth_error on_not_ready on_traffic emit
on_report-IsBalanced w (reports_started port) r s e v = on_started-IsBalanced port r s e v
on_report-IsBalanced w (reports_connections n) r s e v = notify-IsBalanced (connections n) s v
on_report-IsBalanced w (reports_auth_error status) r s e v =
    if-P IsBalanced (is_visible r s && (status == 401 || status == 403)) _ _ (λ h. v) (λ h. v)
on_report-IsBalanced w reports_stopped r s e v = on_stopped-IsBalanced w r s v
on_report-IsBalanced w reports_error r s e v =
    notify-IsBalanced (failed (if r.cancelled then proxy_stop_failed else proxy_start_failed)) s v
on_report-IsBalanced w reports_traffic r s e v =
    if-P IsBalanced (is_visible r s) (record s { traffic_timer = true }) s (λ h. v) (λ h. v)
on_report-IsBalanced w (reports_not_ready is_timeout id same_cookie) r s e v =
    if-P IsBalanced
      (is_visible r s
        && not r.cancelled
        && not r.stop_requested
        && not r.history_closed
        && is_timeout
        && has_entry (find_entry id r.sessions)
        && same_cookie)
      _ _ (λ h. v) (λ h. v)
on_report-IsBalanced w (reports_open stat) r s e v = on_open-IsBalanced stat r s e v
on_report-IsBalanced w (reports_close id c) r s e v = on_close-IsBalanced w id c r s e v
