-- ===== src/Proxy/Balance/Sessions.antt =====
-- The accounts of electron/proxy-controller.js while the sessions of a server are sampled and closed.
use usshtc.Prelude.{
  ℕ, ◌+◌, ◌≡◌, refl, sym, ap, ◌∙◌, Bool, true, false, List, [], ◌∷◌, Option, none, some,
  if◌then◌else◌, arith, max, Bool-cases, inl, inr, if-P, not, ◌||◌,
}
use usshtc.Prelude.Text.{Text, text_eq}
use usshtc.Proxy.State.{
  Reason, SessionKey, Entry, Instance, Controller, Stat, World, emit, set_current, is_visible,
}
use usshtc.Proxy.Sessions.{
  find_entry, delete_entry, set_bytes, sample_entry, sample_session, sample_all, sample_history_in,
  sample_history, Close, finalize_entry, finalize_session, terminal, finalize_keys, terminal_reason,
  close_history, finalize_in, finalize_remaining, sample, send_stats_in, send_stats, is_recent,
}
use usshtc.Proxy.Balance.{
  one, open_in, open_sessions, count, IsBalanced, on_current-P, set_current-IsBalanced,
  removed_count, registered_count, finalized_count, KeyedIn, IsDistinct,
}
use mathlib.Core.Path.{subst}

set_bytes-open :
    (k : SessionKey) (id : Text) (sent received : ℕ) (entries : List Entry)
    → open_in k (set_bytes id sent received entries) ≡ open_in k entries
unfolding set_bytes
set_bytes-open k id sent received [] = refl
set_bytes-open k id sent received (e ∷ entries) = elim (Bool-cases (text_eq e.id id)) [
  | inl h ↦ rw h refl
  | inr h ↦ rw h (ap (λ n. one k e.session_key + n) (set_bytes-open k id sent received entries))
]

delete_first :
    (k : SessionKey) (id : Text) (test : Bool) (x : Entry) (entries : List Entry) (e : Entry)
    → (find_entry id entries ≡ some e
        → one k e.session_key + open_in k (delete_entry id entries) ≡ open_in k entries)
    → (if test then some x else find_entry id entries) ≡ some e
    → one k e.session_key + open_in k (if test then entries else x ∷ delete_entry id entries)
      ≡ one k x.session_key + open_in k entries
delete_first k id true x entries e rest h =
    let same : x ≡ e = cc in ap (λ y. one k y.session_key + open_in k entries) (sym same)
delete_first k id false x entries e rest h = let found = rest h in omega arith

-- An entry that is found is the one that is deleted.
delete_entry-open :
    (k : SessionKey) (id : Text) (entries : List Entry) (e : Entry)
    → find_entry id entries ≡ some e
    → one k e.session_key + open_in k (delete_entry id entries) ≡ open_in k entries
unfolding find_entry delete_entry
delete_entry-open k id [] e h = cc
delete_entry-open k id (x ∷ entries) e h =
    delete_first k id (text_eq x.id id) x entries e (delete_entry-open k id entries e) h

set_bytes-keyed :
    (n : ℕ) (id : Text) (sent received : ℕ) (entries : List Entry)
    → KeyedIn n entries
    → KeyedIn n (set_bytes id sent received entries)
unfolding set_bytes
set_bytes-keyed n id sent received [] h = tt
set_bytes-keyed n id sent received (e ∷ entries) (h, hs) = elim (Bool-cases (text_eq e.id id)) [
  | inl t ↦ rw t (h, hs)
  | inr t ↦ rw t (h, set_bytes-keyed n id sent received entries hs)
]

delete_entry-keyed :
    (n : ℕ) (id : Text) (entries : List Entry)
    → KeyedIn n entries
    → KeyedIn n (delete_entry id entries)
unfolding delete_entry
delete_entry-keyed n id [] h = tt
delete_entry-keyed n id (e ∷ entries) (h, hs) = elim (Bool-cases (text_eq e.id id)) [
  | inl t ↦ rw t hs
  | inr t ↦ rw t (h, delete_entry-keyed n id entries hs)
]

sample_entry-IsBalanced :
    (o : Option Entry) (stat : Stat) (r : Instance) (s : Controller)
    → s.current ≡ some r
    → IsBalanced s
    → IsBalanced (sample_entry o stat r s)
unfolding sample_entry emit
sample_entry-IsBalanced none stat r s e v = v
sample_entry-IsBalanced (some x) stat r s e v =
    let sent = max x.bytes_sent stat.bytes_sent in
    let received = max x.bytes_received stat.bytes_received in
    set_current-IsBalanced r (record r { sessions = set_bytes stat.id sent received r.sessions }) s
      e (λ k. set_bytes-open k stat.id sent received r.sessions)
      (set_bytes-keyed r.id stat.id sent received r.sessions) v

sample_session-IsBalanced :
    (stat : Stat) (r : Instance) (s : Controller)
    → s.current ≡ some r
    → IsBalanced s
    → IsBalanced (sample_session stat r s)
unfolding sample_session
sample_session-IsBalanced stat r s e v =
    sample_entry-IsBalanced (find_entry stat.id r.sessions) stat r s e v

sample_all-IsBalanced :
    (stats : List Stat) (s : Controller) → IsBalanced s → IsBalanced (sample_all stats s)
unfolding sample_all
sample_all-IsBalanced [] s v = v
sample_all-IsBalanced (stat ∷ stats) s v = sample_all-IsBalanced stats _ (
    on_current-P IsBalanced (sample_session stat) s (λ r e. sample_session-IsBalanced stat r s e v)
      v)

pub sample_history-IsBalanced :
    (w : World) (s : Controller) → IsBalanced s → IsBalanced (sample_history w s)
unfolding sample_history sample_history_in
sample_history-IsBalanced w s v =
    on_current-P IsBalanced (sample_history_in w) s
      (λ r e. if-P IsBalanced r.candidate _ _ (λ t. v) (λ t. sample_all-IsBalanced w.sessions s v))
      v

-- The session that is finalized is no longer open.
finalize_entry-IsBalanced :
    (w : World) (id : Text) (o : Option Entry) (c : Close) (r : Instance) (s : Controller)
    → find_entry id r.sessions ≡ o
    → s.current ≡ some r
    → IsBalanced s
    → IsBalanced (finalize_entry w id o c r s)
unfolding finalize_entry emit set_current
finalize_entry-IsBalanced w id none c r s h e v = v
finalize_entry-IsBalanced w id (some x) c r s h e (single, settled, waiting, distinct) =
    let counts : count s.current ≡ 1 = ap count e in
    let (keyed, once) : IsDistinct (some r) = subst IsDistinct e distinct in
    (
      single ∙ ap (λ n. removed_count s.effects + n) counts,
      λ k.
          let found = delete_entry-open k id r.sessions x h in
          let before : registered_count k s.effects
              ≡ finalized_count k s.effects + open_in k r.sessions =
            settled k ∙ ap (λ o. finalized_count k s.effects + open_in k (open_sessions o)) e in
          omega arith,
      omega arith,
      (
        delete_entry-keyed r.id id r.sessions keyed,
        λ k. let found = delete_entry-open k id r.sessions x h in let most = once k in omega arith,
      ),
    )

pub finalize_session-IsBalanced :
    (w : World) (id : Text) (c : Close) (r : Instance) (s : Controller)
    → s.current ≡ some r
    → IsBalanced s
    → IsBalanced (finalize_session w id c r s)
unfolding finalize_session
finalize_session-IsBalanced w id c r s e v =
    finalize_entry-IsBalanced w id (find_entry id r.sessions) c r s refl e v

finalize_keys-IsBalanced :
    (w : World) (reason : Reason) (entries : List Entry) (s : Controller)
    → IsBalanced s
    → IsBalanced (finalize_keys w reason entries s)
unfolding finalize_keys
finalize_keys-IsBalanced w reason [] s v = v
finalize_keys-IsBalanced w reason (x ∷ entries) s v = finalize_keys-IsBalanced w reason entries _ (
    on_current-P IsBalanced (finalize_session w x.id (terminal reason)) s
      (λ r e. finalize_session-IsBalanced w x.id (terminal reason) r s e v) v)

finalize_in-IsBalanced :
    (w : World) (reason : Reason) (r : Instance) (s : Controller)
    → IsBalanced s
    → IsBalanced (finalize_in w reason r s)
unfolding finalize_in
finalize_in-IsBalanced w reason r s v =
    let closed = finalize_keys w (terminal_reason reason) r.sessions s in
    let k = finalize_keys-IsBalanced w (terminal_reason reason) r.sessions s v in
    on_current-P IsBalanced close_history closed
      (λ r' e.
        set_current-IsBalanced r' (record r' { history_closed = true }) closed e (λ k'. refl)
          (λ h. h) k)
      k

pub finalize_remaining-IsBalanced :
    (w : World) (reason : Reason) (s : Controller)
    → IsBalanced s
    → IsBalanced (finalize_remaining w reason s)
unfolding finalize_remaining
finalize_remaining-IsBalanced w reason s v =
    let s' = sample_history w s in
    let k = sample_history-IsBalanced w s v in
    on_current-P IsBalanced (finalize_in w reason) s'
      (λ r e. finalize_in-IsBalanced w reason r s' k) k

pub send_stats-IsBalanced :
    (w : World) (s : Controller) → IsBalanced s → IsBalanced (send_stats w s)
unfolding send_stats send_stats_in sample emit
send_stats-IsBalanced w s v =
    on_current-P IsBalanced (send_stats_in w) s
      (λ r e.
        if-P IsBalanced (not (is_visible r s) || is_recent w s.last_stats_at) _ _ (λ t. v)
          (λ t. sample_history-IsBalanced w (record s { last_stats_at = some w.now }) v))
      v
