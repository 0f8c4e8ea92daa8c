-- ===== src/History/Prune.antt =====
-- electron/session-history-store.js, `_prune`.
pub mod Exact
pub mod Keeps
use usshtc.Prelude.{
  ℕ, zero, suc, ◌+◌, ◌-◌, ◌*◌, ◌≡◌, refl, Bool, true, false, not, ◌&&◌, ◌||◌, List, [], ◌∷◌, Option,
  none, some, leb, ltb, ◌==◌, if◌then◌else◌, length, select, arith, Option-cases, inl, inr,
}
use usshtc.History.Records.{Session}
use usshtc.History.Size.{serialized_bytes}

abbrev pub max_history_bytes : ℕ
max_history_bytes = 1024 * 1024

abbrev pub max_history_sessions : ℕ
max_history_sessions = 1000

abbrev pub history_retention_ms : ℕ
history_retention_ms = 30 * 24 * 60 * 60 * 1000

abbrev pub is_open : Session → Bool
is_open r = elim r.ended_at [ none ↦ true | some e ↦ false ]

-- `record.endedAt ?? record.startedAt`.
unfoldable pub when : Session → ℕ
when r = elim r.ended_at [ none ↦ r.started_at | some e ↦ e ]

-- `endedAt === null || endedAt >= now - HISTORY_RETENTION_MS`; the cutoff may be below zero.
unfoldable pub is_kept : ℕ → Session → Bool
is_kept now r = elim r.ended_at [ none ↦ true | some e ↦ leb now (e + history_retention_ms) ]

-- Not after in the order of `kept.sort`.
not_after : Session → Session → Bool
unfolding when
not_after a b = ltb (when a) (when b) || (when a == when b && leb a.started_at b.started_at)

insert : Session → List Session → List Session
unfolding not_after
insert r [] = r ∷ []
insert r (s ∷ rest) =
    let further = insert r rest in if not_after r s then r ∷ s ∷ rest else s ∷ further

-- `sort`, which is stable.
pub sort : List Session → List Session
unfolding insert
sort [] = []
sort (r ∷ rest) = insert r (sort rest)

-- `findIndex` and `splice`: the first ended record, and the list without it.
pub take_ended : List Session → Option (Session × List Session)
take_ended [] = none
take_ended (r ∷ rest) =
    let further = take_ended rest in
    if is_open r
    then elim further [ none ↦ none | some (x, others) ↦ some (x, r ∷ others) ]
    else some (r, rest)

unfoldable pub exceeds : ℕ → ℕ → Bool
exceeds count bytes = ltb max_history_sessions count || ltb max_history_bytes bytes

-- The bytes that are left without `r`, as the loop computes them.
unfoldable pub bytes_without : ℕ → Session → List Session → ℕ
bytes_without bytes r kept =
    let removed = serialized_bytes (r ∷ []) - serialized_bytes [] in
    bytes - (removed - (if ltb 1 (length kept) then 2 else 0))

-- The loop, which a record fewer each turn ends: the fuel is the number of records.
pub shrink : ℕ → List Session → ℕ → List Session × ℕ
unfolding take_ended exceeds bytes_without
shrink zero kept bytes = (kept, bytes)
shrink (suc fuel) kept bytes = elim (take_ended kept) [
  | none ↦ (kept, bytes)
  | some (r, rest) ↦
      let further = shrink fuel rest (bytes_without bytes r kept) in
      if exceeds (length kept) bytes then further else (kept, bytes)
]

pub shrink-none :
    (fuel : ℕ) (kept : List Session) (bytes : ℕ)
    → take_ended kept ≡ none
    → shrink (suc fuel) kept bytes ≡ (kept, bytes)
unfolding shrink
shrink-none fuel kept bytes h = rw (h, shrink) refl

pub shrink-stays :
    (fuel : ℕ) (kept : List Session) (bytes : ℕ)
    → exceeds (length kept) bytes ≡ false
    → shrink (suc fuel) kept bytes ≡ (kept, bytes)
unfolding shrink
shrink-stays fuel kept bytes h = elim (Option-cases (take_ended kept)) [
  | inl n ↦ rw (n, shrink) refl
  | inr (found, e) ↦ rw (e, h, shrink) refl
]

pub shrink-turns :
    (fuel : ℕ) (kept : List Session) (bytes : ℕ) (found : Session × List Session)
    → take_ended kept ≡ some found
    → exceeds (length kept) bytes ≡ true
    → shrink (suc fuel) kept bytes ≡ shrink fuel found.1 (bytes_without bytes found.0 kept)
unfolding shrink
shrink-turns fuel kept bytes found e h = rw (e, h, shrink) refl

-- What is kept, and whether it is within the limits.
pub prune : ℕ → List Session → List Session × Bool
unfolding sort shrink is_kept exceeds
prune now sessions =
    let kept = sort (select (is_kept now) sessions) in
    let (left, bytes) = shrink (length kept) kept (serialized_bytes kept) in
    (left, not (exceeds (length left) bytes))
