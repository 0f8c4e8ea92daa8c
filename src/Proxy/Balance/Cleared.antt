-- ===== src/Proxy/Balance/Cleared.antt =====
-- The stop of a server in electron/proxy-controller.js ends every session that is open.
use usshtc.Prelude.{◌≡◌, refl, sym, ap, ◌∙◌, List, [], ◌∷◌, Option, none, some, if-P}
use usshtc.Prelude.Text.{text_eq_iff}
use usshtc.Proxy.State.{
  Reason, Entry, Instance, Controller, Patch, World, emit, set_current, on_option, on_current,
  is_visible, notify_in, notify,
}
use usshtc.Proxy.Sessions.{
  find_entry, delete_entry, sample_history, finalize_entry, finalize_session, terminal,
  finalize_keys, terminal_reason, close_history, finalize_in, finalize_remaining, Close,
}
use usshtc.Proxy.Balance.{open_sessions, on_current-P}

first_found : (e : Entry) (entries : List Entry) → find_entry e.id (e ∷ entries) ≡ some e
unfolding find_entry
first_found e entries = let t = (text_eq_iff e.id e.id).1 refl in rw t refl

first_deleted : (e : Entry) (entries : List Entry) → delete_entry e.id (e ∷ entries) ≡ entries
unfolding delete_entry
first_deleted e entries = let t = (text_eq_iff e.id e.id).1 refl in rw t refl

finalize_first-open :
    (w : World) (c : Close) (o : Option Instance) (e : Entry) (entries : List Entry)
    (s : Controller)
    → s.current ≡ o
    → open_sessions o ≡ e ∷ entries
    → open_sessions (on_option o (finalize_session w e.id c) s).current ≡ entries
unfolding on_option finalize_session finalize_entry emit set_current
finalize_first-open w c none e entries s i h = cc
finalize_first-open w c (some r) e entries s i h =
    rw (h, first_found e entries) (first_deleted e entries)

finalize_keys-open :
    (w : World) (reason : Reason) (entries : List Entry) (s : Controller)
    → open_sessions s.current ≡ entries
    → open_sessions (finalize_keys w reason entries s).current ≡ []
unfolding finalize_keys on_current
finalize_keys-open w reason [] s h = h
finalize_keys-open w reason (e ∷ entries) s h =
    finalize_keys-open w reason entries
      (on_option s.current (finalize_session w e.id (terminal reason)) s)
      (finalize_first-open w (terminal reason) s.current e entries s refl h)

abbrev Cleared : Controller → Type 0
Cleared s = open_sessions s.current ≡ []

finalize_in-Cleared :
    (w : World) (reason : Reason) (r : Instance) (s : Controller)
    → s.current ≡ some r
    → Cleared (finalize_in w reason r s)
unfolding finalize_in set_current
finalize_in-Cleared w reason r s e =
    let k = finalize_keys-open w (terminal_reason reason) r.sessions s (ap open_sessions e) in
    on_current-P Cleared close_history (finalize_keys w (terminal_reason reason) r.sessions s)
      (λ r' e'. sym (ap open_sessions e') ∙ k) k

finalize_some-Cleared :
    (w : World) (reason : Reason) (o : Option Instance) (s : Controller)
    → s.current ≡ o
    → Cleared (on_option o (finalize_in w reason) s)
unfolding on_option
finalize_some-Cleared w reason none s e = ap open_sessions e
finalize_some-Cleared w reason (some r) s e = finalize_in-Cleared w reason r s e

finalize_remaining-Cleared :
    (w : World) (reason : Reason) (s : Controller) → Cleared (finalize_remaining w reason s)
unfolding finalize_remaining on_current
finalize_remaining-Cleared w reason s =
    let s' = sample_history w s in finalize_some-Cleared w reason s'.current s' refl

-- When a stop has succeeded and its server is about to be released, no session is open.
pub stopped-Cleared :
    (w : World) (reason : Reason) (patch : Patch) (s : Controller)
    → open_sessions (notify patch (finalize_remaining w reason s)).current ≡ []
unfolding notify notify_in emit
stopped-Cleared w reason patch s =
    let s' = finalize_remaining w reason s in
    let k = finalize_remaining-Cleared w reason s in
    on_current-P Cleared (notify_in patch) s'
      (λ r e. if-P Cleared (is_visible r s') _ _ (λ t. k) (λ t. k)) k
