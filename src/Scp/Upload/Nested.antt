-- ===== src/Scp/Upload/Nested.antt =====
-- Which sequences of records electron/scp/upload-session.js takes to their end.
use usshtc.Prelude.{
  ℕ, suc, ◌+◌, ◌≤◌, ◌≡◌, refl, sym, Bool, true, false, not, List, [], ◌∷◌, ltb, Result, ok, err,
  ◌>>=◌, length, arith, Bool-cases, inl, inr, Holds, Holds-guard, Holds-after, Holds-chain, ◌∙◌, ap,
}
use usshtc.Prelude.Text.{Text}
use usshtc.Scp.Session.{Failure, Account, frame, accept_entry, max_depth, scp_recursive, scp_limit}
use usshtc.Scp.Upload.{
  Record, time, end, other, file, dir, Outcome, Setup, Upload, counted, framed, target_of,
  receive_file, make_directory, entry, turn, root_target, target_in, child_path, end_directory,
}
use mathlib.Core.Path.{subst}

-- What a record does to the stack and the waiting time record.
abbrev pub Moves : Setup → Record → List Text → Bool → Upload → Type 0
Moves setup time stack timed v = (timed ≡ false) × (v.stack ≡ stack) × (v.pending_time ≡ true)
Moves setup end stack timed v =
    (timed ≡ false) × ((top : Text) × (stack ≡ top ∷ v.stack)) × (v.pending_time ≡ false)
Moves setup other stack timed v = ⊥
Moves setup (file size name) stack timed v =
    (length stack + 1 ≤ 32) × (v.stack ≡ stack) × (v.pending_time ≡ false)
Moves setup (dir name) stack timed v =
    (length stack + 1 ≤ 32)
    × ((top : Text) × (v.stack ≡ top ∷ stack))
    × (v.pending_time ≡ false)
    × (setup.recursive ≡ true)

-- Only the account differs.
abbrev pub Pays : Upload → Upload → Type 0
Pays u v = (v.stack ≡ u.stack) × (v.pending_time ≡ u.pending_time)

counted-Pays :
    (pay : Account → Result Failure Account) (u : Upload) → Holds (Pays u) (counted pay u)
unfolding counted
counted-Pays pay u =
    Holds-chain (Pays u) (λ _. Unit {0}) (pay u.account) _ (any (pay u.account))
      (λ a _. (refl, refl))
  where
    any : (r : Result Failure Account) → Holds (λ _. Unit {0}) r
    any (err _) = tt
    any (ok _) = tt

pub framed-Pays : (u : Upload) → Holds (Pays u) (framed u)
unfolding framed
framed-Pays u = counted-Pays frame u

-- A target is found, and the stack is as before.
abbrev Found : Upload → Text × Upload → Type 0
Found u (target, v) = Pays u v

child-Found :
    (u v : Upload) (r : Result Failure Text) → Pays u v → Holds (Found u) (r >>= λ t. ok (t, v))
child-Found u v (err _) h = tt
child-Found u v (ok t) h = h

root_target-Found :
    (setup : Setup) (name : Text) (u v : Upload)
    → Pays u v
    → Holds (Found u) (root_target setup name v)
unfolding root_target
root_target-Found setup name u v h = elim (Bool-cases setup.into_directory) [
  | inl e ↦ rw e (child-Found u v (child_path setup.destination name) h)
  | inr e ↦ elim (Bool-cases (ltb 1 v.root_entries)) [ inl f ↦ rw (e, f) tt | inr f ↦ rw (e, f) h ]
]

target_in-Found :
    (setup : Setup) (name : Text) (stack : List Text) (u : Upload)
    → Holds (Found u) (target_in setup name stack u)
unfolding target_in
target_in-Found setup name [] u =
    root_target-Found setup name u (record u { root_entries = suc u.root_entries }) (refl, refl)
target_in-Found setup name (top ∷ stack) u = child-Found u u (child_path top name) (refl, refl)

target_of-Found :
    (setup : Setup) (name : Text) (u : Upload) → Holds (Found u) (target_of setup name u)
unfolding target_of
target_of-Found setup name u = target_in-Found setup name u.stack u

Pays-trans : (u v w : Upload) → Pays u v → Pays v w → Pays u w
Pays-trans u v w h k = (k.0 ∙ h.0, k.1 ∙ h.1)

receive_file-Pays :
    (setup : Setup) (outcome : Outcome) (size : ℕ) (target : Text) (u : Upload)
    → Holds (Pays u) (receive_file setup outcome size target u)
unfolding receive_file
receive_file-Pays setup outcome size target u =
    Holds-chain (Pays u) (Pays u) (counted (accept_entry setup.max_file_bytes size) u) _
      (counted-Pays (accept_entry setup.max_file_bytes size) u)
      (λ paid a. Holds-after (Pays u) outcome.prepared _ (
        Holds-chain (Pays u) (Pays paid) (framed paid) _ (framed-Pays paid) (λ ready b.
          Holds-chain (Pays u) (Pays ready) (framed ready) _ (framed-Pays ready) (λ sent c.
            Holds-after (Pays u) outcome.published _ (
              let all_paid = Pays-trans u ready sent (Pays-trans u paid ready a b) c in
              last (record sent { written = target ∷ sent.written }) all_paid)))))
  where
    last : (v : Upload) → Pays u v → Holds (Pays u) (framed v)
    last v h = map-Holds (framed v) (framed-Pays v)
      where
        map-Holds : (r : Result Failure Upload) → Holds (Pays v) r → Holds (Pays u) r
        map-Holds (err _) k = tt
        map-Holds (ok w) k = Pays-trans u v w h k

-- The stack has one more directory.
abbrev Enters : Upload → Upload → Type 0
Enters u v = ((top : Text) × (v.stack ≡ top ∷ u.stack)) × (v.pending_time ≡ u.pending_time)

make_directory-Enters :
    (outcome : Outcome) (target : Text) (u : Upload)
    → Holds (Enters u) (make_directory outcome target u)
unfolding make_directory
make_directory-Enters outcome target u =
    Holds-chain (Enters u) (Pays u) (counted (accept_entry 0 0) u) _
      (counted-Pays (accept_entry 0 0) u)
      (λ paid a.
        Holds-after (Enters u) outcome.prepared _
          (last paid (framed (pushed paid)) a (framed-Pays (pushed paid))))
  where
    pushed : Upload → Upload
    pushed v = record v { stack = target ∷ v.stack; written = target ∷ v.written }

    last :
        (v : Upload) (r : Result Failure Upload)
        → Pays u v
        → Holds (Pays (pushed v)) r
        → Holds (Enters u) r
    last v (err _) h k = tt
    last v (ok w) h k = ((target, k.0 ∙ ap (λ s. target ∷ s) h.0), k.1 ∙ h.1)

map-Holds :
    (P Q : Upload → Type 0) (r : Result Failure Upload)
    → ((v : Upload) → P v → Q v)
    → Holds P r
    → Holds Q r
map-Holds P Q (err _) f h = tt
map-Holds P Q (ok v) f h = f v h

not-true : (b : Bool) → not b ≡ true → b ≡ false
not-true b h = ground arith

shallow : (n : ℕ) → not (ltb max_depth (n + 1)) ≡ true → n + 1 ≤ 32
shallow n h = ground arith

end_directory-Moves :
    (setup : Setup) (stack : List Text) (u : Upload)
    → Holds (Moves setup end stack u.pending_time) (end_directory stack u)
unfolding end_directory
end_directory-Moves setup [] u = tt
end_directory-Moves setup (top ∷ rest) u =
    Holds-guard (Moves setup end (top ∷ rest) u.pending_time) (not u.pending_time) _ _ (λ h.
      let popped = record u { stack = rest } in
      let still = not-true u.pending_time h in
      map-Holds (Pays popped) (Moves setup end (top ∷ rest) u.pending_time) (framed popped)
        (λ v p. (still, (top, ap (λ s. top ∷ s) (sym p.0)), p.1 ∙ still)) (framed-Pays popped))

entry-Moves :
    (setup : Setup) (outcome : Outcome) (r : Record) (u : Upload)
    → Holds (Moves setup r u.stack u.pending_time) (entry setup outcome r u)
unfolding entry
entry-Moves setup outcome time u =
    Holds-guard (Moves setup time u.stack u.pending_time) (not u.pending_time) _ _ (λ h.
      let waiting = record u { pending_time = true } in
      map-Holds (Pays waiting) (Moves setup time u.stack u.pending_time) (framed waiting)
        (λ v p. (not-true u.pending_time h, p.0, p.1)) (framed-Pays waiting))
entry-Moves setup outcome end u = end_directory-Moves setup u.stack u
entry-Moves setup outcome other u = tt
entry-Moves setup outcome (file size name) u =
    let P = Moves setup (file size name) u.stack u.pending_time in
    let u0 = record u { pending_time = false } in
    Holds-chain P (Found u0) (target_of setup name u0) _ (target_of-Found setup name u0) (λ found f.
      Holds-guard P (not (ltb max_depth (length found.1.stack + 1))) scp_limit _ (λ h.
        map-Holds (Pays found.1) P (receive_file setup outcome size found.0 found.1)
          (λ v p. (
            subst (λ s. length s + 1 ≤ 32) f.0 (shallow (length found.1.stack) h),
            p.0 ∙ f.0,
            p.1 ∙ f.1,
          ))
          (receive_file-Pays setup outcome size found.0 found.1)))
entry-Moves setup outcome (dir name) u =
    let P = Moves setup (dir name) u.stack u.pending_time in
    let u0 = record u { pending_time = false } in
    Holds-chain P (Found u0) (target_of setup name u0) _ (target_of-Found setup name u0) (λ found f.
      Holds-guard P setup.recursive scp_recursive _ (λ allowed.
        Holds-guard P (not (ltb max_depth (length found.1.stack + 1))) scp_limit _ (λ h.
          map-Holds (Enters found.1) P (make_directory outcome found.0 found.1)
            (λ v p. (
              subst (λ s. length s + 1 ≤ 32) f.0 (shallow (length found.1.stack) h),
              (p.0.0, p.0.1 ∙ ap (λ s. p.0.0 ∷ s) f.0),
              p.1 ∙ f.1,
              allowed,
            ))
            (make_directory-Enters outcome found.0 found.1))))

pub turn-Moves :
    (setup : Setup) (r : Record) (outcome : Outcome) (u : Upload)
    → Holds (Moves setup r u.stack u.pending_time) (turn setup (r, outcome) u)
unfolding turn
turn-Moves setup r outcome u =
    let P = Moves setup r u.stack u.pending_time in
    Holds-chain P (Pays u) (framed u) _ (framed-Pays u) (λ v p.
      subst (λ s. Holds (Moves setup r s u.pending_time) (entry setup outcome r v)) p.0
        (subst (λ t. Holds (Moves setup r v.stack t) (entry setup outcome r v)) p.1
          (entry-Moves setup outcome r v)))
