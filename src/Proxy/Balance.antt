-- ===== src/Proxy/Balance.antt =====
-- The accounts of electron/proxy-controller.js: the servers that were created and released, and the
-- sessions that the history was told to begin and to end.
pub mod Sessions
pub mod Cleared
pub mod Tasks
pub mod Resumed
pub mod Reports
pub mod Runs
use usshtc.Prelude.{
  ℕ, suc, ◌+◌, ◌≤◌, ◌≡◌, refl, sym, ap, ◌∙◌, Bool, true, false, ◌&&◌, List, [], ◌∷◌, ◌++◌, Option,
  none, some, if◌then◌else◌, ◌==◌, arith, Bool-cases, inl, inr, if-P, All,
}
use usshtc.Prelude.Text.{Text, text_eq}
use usshtc.Proxy.State.{
  SessionKey, Entry, Instance, Effect, created, removed, registered, finalized, preparing, Phase,
  Controller, Patch, emit, set_current, on_option, on_current, notify_in, notify, changed,
  clear_timers, is_visible,
}
use mathlib.Core.Path.{subst}

abbrev pub created_count : List Effect → ℕ
created_count [] = 0
created_count (created n ∷ effects) = suc (created_count effects)
created_count (_ ∷ effects) = created_count effects

abbrev pub removed_count : List Effect → ℕ
removed_count [] = 0
removed_count (removed n ∷ effects) = suc (removed_count effects)
removed_count (_ ∷ effects) = removed_count effects

abbrev pub one : SessionKey → SessionKey → ℕ
one k k' = if k.instance_id == k'.instance_id && text_eq k.session k'.session then 1 else 0

abbrev pub registered_count : SessionKey → List Effect → ℕ
registered_count k [] = 0
registered_count k (registered k' _ _ ∷ effects) = one k k' + registered_count k effects
registered_count k (_ ∷ effects) = registered_count k effects

abbrev pub finalized_count : SessionKey → List Effect → ℕ
finalized_count k [] = 0
finalized_count k (finalized k' _ ∷ effects) = one k k' + finalized_count k effects
finalized_count k (_ ∷ effects) = finalized_count k effects

abbrev pub open_in : SessionKey → List Entry → ℕ
open_in k [] = 0
open_in k (e ∷ entries) = one k e.session_key + open_in k entries

abbrev pub open_sessions : Option Instance → List Entry
open_sessions none = []
open_sessions (some r) = r.sessions

abbrev pub count : Option Instance → ℕ
count none = 0
count (some _) = 1

abbrev pub waits : Option Phase → ℕ
waits (some (preparing _)) = 1
waits _ = 0

-- The entries of an instance have its number and their own name in their keys.
abbrev pub KeyedIn : ℕ → List Entry → Type 0
KeyedIn n entries =
    All (λ (e : Entry). (e.session_key.instance_id ≡ n) × (e.session_key.session ≡ e.id)) entries

-- No session is open twice.
abbrev pub IsDistinct : Option Instance → Type 0
IsDistinct none = Unit
IsDistinct (some r) = KeyedIn r.id r.sessions × ((k : SessionKey) → open_in k r.sessions ≤ 1)

-- There is one server at most, none while a task prepares one, and every session that was registered
-- has been finalized or is one of the current server, which has it once.
abbrev pub IsBalanced : Controller → Type 0
IsBalanced s =
    (created_count s.effects ≡ removed_count s.effects + count s.current)
    × ((k : SessionKey)
        → registered_count k s.effects
          ≡ finalized_count k s.effects + open_in k (open_sessions s.current))
    × (waits s.phase + count s.current ≤ 1)
    × IsDistinct s.current

pub count_le : (o : Option Instance) → count o ≤ 1
count_le none = omega arith
count_le (some r) = omega arith

on_option-P :
    (P : Controller → Type 0) (f : Instance → Controller → Controller) (o : Option Instance)
    (s : Controller)
    → s.current ≡ o
    → ((r : Instance) → s.current ≡ some r → P (f r s))
    → P s
    → P (on_option o f s)
unfolding on_option
on_option-P P f none s e h v = v
on_option-P P f (some r) s e h v = h r e

pub on_current-P :
    (P : Controller → Type 0) (f : Instance → Controller → Controller) (s : Controller)
    → ((r : Instance) → s.current ≡ some r → P (f r s))
    → P s
    → P (on_current f s)
unfolding on_current
on_current-P P f s h v = on_option-P P f s.current s refl h v

-- The current instance is replaced by one that has the same sessions open.
pub set_current-IsBalanced :
    (r r' : Instance) (s : Controller)
    → s.current ≡ some r
    → ((k : SessionKey) → open_in k r'.sessions ≡ open_in k r.sessions)
    → (KeyedIn r.id r.sessions → KeyedIn r'.id r'.sessions)
    → IsBalanced s
    → IsBalanced (set_current r' s)
unfolding set_current
set_current-IsBalanced r r' s e h keeps (single, settled, waiting, distinct) =
    let counts : count s.current ≡ 1 = ap count e in
    let (keyed, once) : IsDistinct (some r) = subst IsDistinct e distinct in
    (
      single ∙ ap (λ n. removed_count s.effects + n) counts,
      λ k.
          settled k
          ∙ ap (λ o. finalized_count k s.effects + open_in k (open_sessions o)) e
          ∙ ap (λ n. finalized_count k s.effects + n) (sym (h k)),
      omega arith,
      (keeps keyed, λ k. subst (λ n. n ≤ 1) (sym (h k)) (once k)),
    )

pub notify-IsBalanced :
    (patch : Patch) (s : Controller) → IsBalanced s → IsBalanced (notify patch s)
unfolding notify notify_in emit
notify-IsBalanced patch s v =
    on_current-P IsBalanced (notify_in patch) s
      (λ r e. if-P IsBalanced (is_visible r s) _ _ (λ t. v) (λ t. v)) v
