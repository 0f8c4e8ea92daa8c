-- ===== src/Scp/Upload/Trees.antt =====
-- The uploads that electron/scp/upload-session.js takes to their end are sequences of trees.
use usshtc.Prelude.{
  ℕ, zero, suc, ◌+◌, ◌≤◌, ◌≡◌, ◌≢◌, refl, sym, ap, ◌∙◌, Bool, true, false, not, ◌||◌, List, [], ◌∷◌,
  ◌++◌, map, ◌==◌, Result, ok, err, ◌>>=◌, length, first_of_chain, arith, append_assoc, Holds,
  Bool-cases, inl, inr, ==_iff,
}
use mathlib.Core.Path.{subst}
use usshtc.Prelude.Text.{Text}
use usshtc.Scp.Session.{Failure, Account, frame}
use usshtc.Scp.Upload.{
  Record, time, end, other, file, dir, Outcome, Setup, Upload, framed, turn, turns, no_upload,
  finish, run_upload, counted,
}
use usshtc.Scp.Upload.Nested.{Moves, turn-Moves, framed-Pays, Pays}

-- A time record may stand before an entry.
abbrev pub mark : Bool → List Record → List Record
mark true rs = time ∷ rs
mark false rs = rs

-- Entries at a depth: files, and directories, if these are allowed, with entries one deeper before
-- their end record.
pub data Entries (recursive : Bool) : ℕ → List Record → Type 0 where
  nothing : (depth : ℕ) → Entries recursive depth []
  file_entry :
      (depth : ℕ)
      → (timed : Bool) → (size : ℕ) → (name : Text) → (rest : List Record) → depth + 1 ≤ 32
      → Entries recursive depth rest
      → Entries recursive depth (mark timed (file size name ∷ rest))
  dir_entry :
      (depth : ℕ)
      → (timed : Bool) → (name : Text) → (inside rest : List Record) → depth + 1 ≤ 32
      → recursive ≡ true
      → Entries recursive (suc depth) inside
      → Entries recursive depth rest
      → Entries recursive depth (mark timed (dir name ∷ (inside ++ end ∷ rest)))

-- Entries at a depth, and what closes the directories around them.
abbrev Closing : Bool → ℕ → List Record → Type 0
Closing recursive zero rs = Entries recursive 0 rs
Closing recursive (suc k) rs =
    (inside : List Record) × ((rest : List Record) × ((rs ≡ inside ++ end ∷ rest)
        × Entries recursive (suc k) inside
        × Closing recursive k rest))

mark_append :
    (timed : Bool) (r : Record) (rs inside tail : List Record)
    → rs ≡ inside ++ tail
    → mark timed (r ∷ rs) ≡ mark timed (r ∷ inside) ++ tail
mark_append true r rs inside tail e = ap (λ xs. time ∷ r ∷ xs) e
mark_append false r rs inside tail e = ap (λ xs. r ∷ xs) e

close-file :
    (recursive : Bool) (k : ℕ) (timed : Bool) (size : ℕ) (name : Text) (rs : List Record)
    → k + 1 ≤ 32
    → Closing recursive k rs
    → Closing recursive k (mark timed (file size name ∷ rs))
close-file recursive zero timed size name rs h c = file_entry 0 timed size name rs h c
close-file recursive (suc k) timed size name rs h (inside, (rest, (e, entries, c))) = (
  mark timed (file size name ∷ inside),
  (
    rest,
    (
      mark_append timed (file size name) rs inside (end ∷ rest) e,
      file_entry (suc k) timed size name inside h entries,
      c,
    ),
  ),
)

close-dir :
    (recursive : Bool) (k : ℕ) (timed : Bool) (name : Text) (rs : List Record)
    → k + 1 ≤ 32
    → recursive ≡ true
    → Closing recursive (suc k) rs
    → Closing recursive k (mark timed (dir name ∷ rs))
close-dir recursive zero timed name rs h r (inside, (rest, (e, entries, c))) =
    subst (λ xs. Entries recursive 0 (mark timed (dir name ∷ xs))) (sym e)
      (dir_entry 0 timed name inside rest h r entries c)
close-dir recursive (suc k) timed name rs h r
      (inside, (rest, (e, entries, (inside', (rest', (e', entries', c)))))) =
    (
      mark timed (dir name ∷ (inside ++ end ∷ inside')),
      (
        rest',
        (
          mark_append timed (dir name) rs (inside ++ end ∷ inside') (end ∷ rest') (
              e
              ∙ ap (λ xs. inside ++ end ∷ xs) e'
              ∙ sym (append_assoc inside (end ∷ inside') (end ∷ rest'))),
          dir_entry (suc k) timed name inside inside' h r entries entries',
          c,
        ),
      ),
    )

abbrev pub records : List (Record × Outcome) → List Record
records items = map (λ item. item.0) items

-- The claim at a stack, with a time record that waits or not.
abbrev ClosingAt : Bool → List Text → Bool → List Record → Type 0
ClosingAt recursive stack timed rs = Closing recursive (length stack) (mark timed rs)

at_state :
    (recursive : Bool) (rs : List Record) (s s' : List Text) (t t' : Bool)
    → s ≡ s'
    → t ≡ t'
    → ClosingAt recursive s t rs
    → ClosingAt recursive s' t' rs
at_state recursive rs s s' t t' e f c =
    subst (λ x. ClosingAt recursive s' x rs) f (subst (λ x. ClosingAt recursive x t rs) e c)

moved-Closing :
    (setup : Setup) (r : Record) (rs : List Record) (stack : List Text) (timed : Bool) (v : Upload)
    → Moves setup r stack timed v
    → ClosingAt setup.recursive v.stack v.pending_time rs
    → ClosingAt setup.recursive stack timed (r ∷ rs)
moved-Closing setup time rs stack timed v m c =
    at_state setup.recursive (time ∷ rs) stack stack false timed refl (sym m.0)
      (at_state setup.recursive rs v.stack stack v.pending_time true m.1 m.2 c)
moved-Closing setup end rs stack timed v m c =
    let inner = at_state setup.recursive rs v.stack v.stack v.pending_time false refl m.2 c in
    at_state setup.recursive (end ∷ rs) (m.1.0 ∷ v.stack) stack false timed (sym m.1.1) (sym m.0)
      ([], (rs, (refl, nothing (suc (length v.stack)), inner)))
moved-Closing setup other rs stack timed v m c = absurd m
moved-Closing setup (file size name) rs stack timed v m c =
    close-file setup.recursive (length stack) timed size name rs m.0
      (at_state setup.recursive rs v.stack stack v.pending_time false m.1 m.2 c)
moved-Closing setup (dir name) rs stack timed v m c =
    close-dir setup.recursive (length stack) timed name rs m.0 m.3
      (at_state setup.recursive rs v.stack (m.1.0 ∷ stack) v.pending_time false m.1.1 m.2 c)

turns-Closing :
    (setup : Setup) (items : List (Record × Outcome)) (u v : Upload)
    → turns setup items u ≡ ok v
    → v.stack ≡ []
    → v.pending_time ≡ false
    → ClosingAt setup.recursive u.stack u.pending_time (records items)
unfolding turns
turns-Closing setup [] u v h e f =
    let same : u ≡ v = cc in
    at_state setup.recursive [] [] u.stack false u.pending_time (sym (ap (λ x. x.stack) same ∙ e))
      (sym (ap (λ x. x.pending_time) same ∙ f)) (nothing 0)
turns-Closing setup (item ∷ items) u v h e f =
    let (w, first, rest) = first_of_chain (turn setup item u) (turns setup items) h in
    moved-Closing setup item.0 (records items) u.stack u.pending_time w
      (subst (Holds (Moves setup item.0 u.stack u.pending_time)) first
        (turn-Moves setup item.0 item.1 u))
      (turns-Closing setup items w v rest e f)

length-zero : (s : List Text) → (length s == 0) ≡ true → s ≡ []
length-zero [] h = refl
length-zero (x ∷ s) h = ground arith

ended : (a b c : Bool) → (not a || b || c) ≡ false → (a ≡ true) × (b ≡ false) × (c ≡ false)
ended a b c h = ground arith

finish-done :
    (u v : Upload)
    → finish u ≡ ok v
    → (u.stack ≡ []) × (u.pending_time ≡ false) × ((u.root_entries == 0) ≡ false)
unfolding finish
finish-done u v h =
    elim (Bool-cases (not (length u.stack == 0) || u.pending_time || u.root_entries == 0)) [
      | inl e ↦ cc (rw e at h)
      | inr e ↦
          let (a, b, c) = ended (length u.stack == 0) u.pending_time (u.root_entries == 0) e in
          (length-zero u.stack a, b, c)
    ]

framed-roots : (u : Upload) → Holds (λ v. v.root_entries ≡ u.root_entries) (framed u)
unfolding framed counted
framed-roots u = on_account (frame u.account)
  where
    on_account :
        (r : Result Failure Account)
        → Holds (λ v. v.root_entries ≡ u.root_entries) (r >>= λ a. ok (record u { account = a }))
    on_account (err _) = tt
    on_account (ok a) = refl

turns-nothing : (setup : Setup) (u v : Upload) → turns setup [] u ≡ ok v → u ≡ v
unfolding turns
turns-nothing setup u v h = cc

some_record :
    (setup : Setup) (items : List (Record × Outcome)) (u w x : Upload)
    → u.root_entries ≡ 0
    → turns setup items u ≡ ok w
    → x.root_entries ≡ w.root_entries
    → (x.root_entries == 0) ≡ false
    → records items ≢ []
some_record setup [] u w x zero_root h e f = λ _.
    let none_yet = e ∙ ap (λ y. y.root_entries) (sym (turns-nothing setup u w h)) ∙ zero_root in
    cc ((==_iff x.root_entries 0).1 none_yet, f)
some_record setup (item ∷ items) u w x zero_root h e f = λ k. cc

-- The records of an upload that ends well are a sequence of files and directories, each with a time
-- record before it or not, and each directory with its entries and its end record, in trees no deeper
-- than 32 and without directories unless the transfer is recursive; there is at least one record.
pub run_upload-Entries :
    (setup : Setup) (items : List (Record × Outcome)) (a : Account) (v : Upload)
    → run_upload setup items a ≡ ok v
    → Entries setup.recursive 0 (records items) × (records items ≢ [])
unfolding run_upload
run_upload-Entries setup items a v h =
    let (u, first, h1) = first_of_chain (framed (no_upload a)) _ h in
    let (w, middle, h2) = first_of_chain (turns setup items u) _ h1 in
    let (x, last, h3) = first_of_chain (framed w) _ h2 in
    let start = subst (Holds (Pays (no_upload a))) first (framed-Pays (no_upload a)) in
    let stop = subst (Holds (Pays w)) last (framed-Pays w) in
    let (empty, still, some_root) = finish-done x v h3 in
    (
      at_state setup.recursive (records items) u.stack [] u.pending_time false start.0 start.1
          (turns-Closing setup items u w middle (sym stop.0 ∙ empty) (sym stop.1 ∙ still)),
      some_record setup items u w x
          (subst (Holds (λ y. y.root_entries ≡ 0)) first (framed-roots (no_upload a))) middle
          (subst (Holds (λ y. y.root_entries ≡ w.root_entries)) last (framed-roots w)) some_root,
    )
