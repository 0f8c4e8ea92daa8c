-- ===== src/Scp/Upload/Inside.antt =====
-- Where electron/scp/upload-session.js writes.
use usshtc.Prelude.{
  ℕ, suc, ◌≡◌, true, false, not, List, [], ◌∷◌, Result, ok, err, ◌>>=◌, Holds, Holds-guard,
  Holds-after, Holds-chain, All, Bool-cases, inl, inr, ltb,
}
use mathlib.Core.Path.{subst}
use usshtc.Prelude.Text.{Text, includes}
use usshtc.Prelude.EntryName.{IsEntryName, entry_name_rejected, IsEntryName-iff}
use usshtc.Scp.Session.{Failure, Account, frame, accept_entry}
use usshtc.Scp.Upload.{
  Record, time, end, other, file, dir, Outcome, Setup, Upload, join_path, child_path, counted,
  framed, root_target, target_in, target_of, receive_file, make_directory, end_directory, entry,
  turn, turns, no_upload, outside,
}

-- The destination, or a path below it by names that are safe: no name is empty, `.` or `..`, or has a
-- slash, a backslash or a control character.
pub data Inside (destination : Text) : Text → Type 0 where
  here : Inside destination destination
  child :
      (parent name : Text)
      → Inside destination parent
      → IsEntryName name
      → includes name b'\\' ≡ false
      → Inside destination (join_path parent name)

module _ (setup : Setup) where
  abbrev pub Stays : Upload → Type 0
  Stays u = All (Inside setup.destination) u.stack × All (Inside setup.destination) u.written

  counted-Stays :
      (pay : Account → Result Failure Account) (u : Upload) → Stays u → Holds Stays (counted pay u)
  unfolding counted
  counted-Stays pay u h = on_account (pay u.account)
    where
      on_account :
          (r : Result Failure Account) → Holds Stays (r >>= λ a. ok (record u { account = a }))
      on_account (err _) = tt
      on_account (ok a) = h

  framed-Stays : (u : Upload) → Stays u → Holds Stays (framed u)
  unfolding framed
  framed-Stays u h = counted-Stays frame u h

  child_path-Inside :
      (parent name : Text)
      → Inside setup.destination parent
      → Holds (Inside setup.destination) (child_path parent name)
  unfolding child_path
  child_path-Inside parent name h = elim (Bool-cases (entry_name_rejected name)) [
    | inl e ↦ rw e tt
    | inr e ↦ elim (Bool-cases (includes name b'\\')) [
      | inl f ↦ rw (e, f) tt
      | inr f ↦ elim (Bool-cases (outside parent (join_path parent name))) [
        | inl g ↦ rw (e, f, g) tt
        | inr g ↦ rw (e, f, g) (child parent name h ((IsEntryName-iff name).0 e) f)
      ]
    ]
  ]

  -- A target that is inside.
  abbrev Aimed : Text × Upload → Type 0
  Aimed (target, v) = Inside setup.destination target × Stays v

  child-Aimed :
      (parent name : Text) (u : Upload)
      → Inside setup.destination parent
      → Stays u
      → Holds Aimed (child_path parent name >>= λ t. ok (t, u))
  child-Aimed parent name u h s =
      Holds-chain Aimed (Inside setup.destination) (child_path parent name) _
        (child_path-Inside parent name h) (λ t i. (i, s))

  root_target-Aimed : (name : Text) (u : Upload) → Stays u → Holds Aimed (root_target setup name u)
  unfolding root_target
  root_target-Aimed name u s = elim (Bool-cases setup.into_directory) [
    | inl e ↦ rw e (child-Aimed setup.destination name u here s)
    | inr e ↦ elim (Bool-cases (ltb 1 u.root_entries)) [
      | inl f ↦ rw (e, f) tt
      | inr f ↦ rw (e, f) (here, s)
    ]
  ]

  target_in-Aimed :
      (name : Text) (stack : List Text) (u : Upload)
      → All (Inside setup.destination) stack
      → Stays u
      → Holds Aimed (target_in setup name stack u)
  unfolding target_in
  target_in-Aimed name [] u a s =
      root_target-Aimed name (record u { root_entries = suc u.root_entries }) s
  target_in-Aimed name (top ∷ stack) u a s = child-Aimed top name u a.0 s

  target_of-Aimed : (name : Text) (u : Upload) → Stays u → Holds Aimed (target_of setup name u)
  unfolding target_of
  target_of-Aimed name u s = target_in-Aimed name u.stack u s.0 s

  receive_file-Stays :
      (outcome : Outcome) (size : ℕ) (target : Text) (u : Upload)
      → Inside setup.destination target
      → Stays u
      → Holds Stays (receive_file setup outcome size target u)
  unfolding receive_file
  receive_file-Stays outcome size target u i s =
      Holds-chain Stays Stays (counted (accept_entry setup.max_file_bytes size) u) _
        (counted-Stays (accept_entry setup.max_file_bytes size) u s)
        (λ paid a. Holds-after Stays outcome.prepared _ (
          Holds-chain Stays Stays (framed paid) _ (framed-Stays paid a) (λ ready b.
            Holds-chain Stays Stays (framed ready) _ (framed-Stays ready b) (λ sent c.
              Holds-after Stays outcome.published _
                (framed-Stays (record sent { written = target ∷ sent.written }) (c.0, (i, c.1)))))))

  make_directory-Stays :
      (outcome : Outcome) (target : Text) (u : Upload)
      → Inside setup.destination target
      → Stays u
      → Holds Stays (make_directory outcome target u)
  unfolding make_directory
  make_directory-Stays outcome target u i s =
      Holds-chain Stays Stays (counted (accept_entry 0 0) u) _
        (counted-Stays (accept_entry 0 0) u s)
        (λ paid a. Holds-after Stays outcome.prepared _ (
          framed-Stays
            (record paid { stack = target ∷ paid.stack; written = target ∷ paid.written })
            ((i, a.0), (i, a.1))))

  end_directory-Stays :
      (stack : List Text) (u : Upload)
      → All (Inside setup.destination) stack
      → Stays u
      → Holds Stays (end_directory stack u)
  unfolding end_directory
  end_directory-Stays [] u a s = tt
  end_directory-Stays (top ∷ rest) u a s =
      Holds-guard Stays (not u.pending_time) _ _
        (λ _. framed-Stays (record u { stack = rest }) (a.1, s.1))

  entry-Stays :
      (outcome : Outcome) (r : Record) (u : Upload)
      → Stays u
      → Holds Stays (entry setup outcome r u)
  unfolding entry
  entry-Stays outcome time u s =
      Holds-guard Stays (not u.pending_time) _ _
        (λ _. framed-Stays (record u { pending_time = true }) s)
  entry-Stays outcome end u s = end_directory-Stays u.stack u s.0 s
  entry-Stays outcome other u s = tt
  entry-Stays outcome (file size name) u s =
      let u0 = record u { pending_time = false } in
      Holds-chain Stays Aimed (target_of setup name u0) _ (target_of-Aimed name u0 s) (λ found f.
        Holds-guard Stays _ _ _ (λ _. receive_file-Stays outcome size found.0 found.1 f.0 f.1))
  entry-Stays outcome (dir name) u s =
      let u0 = record u { pending_time = false } in
      Holds-chain Stays Aimed (target_of setup name u0) _ (target_of-Aimed name u0 s) (λ found f.
        Holds-guard Stays setup.recursive _ _ (λ _.
          Holds-guard Stays _ _ _ (λ _. make_directory-Stays outcome found.0 found.1 f.0 f.1)))

  turn-Stays : (item : Record × Outcome) (u : Upload) → Stays u → Holds Stays (turn setup item u)
  unfolding turn
  turn-Stays (r, outcome) u s =
      Holds-chain Stays Stays (framed u) _ (framed-Stays u s) (λ v t. entry-Stays outcome r v t)

  turns-Stays :
      (items : List (Record × Outcome)) (u : Upload) → Stays u → Holds Stays (turns setup items u)
  unfolding turns
  turns-Stays [] u s = s
  turns-Stays (item ∷ items) u s =
      Holds-chain Stays Stays (turn setup item u) _ (turn-Stays item u s)
        (λ v t. turns-Stays items v t)

-- Whatever records the peer sends, as far as they are taken, every path that is written is the
-- destination or lies below it by safe names.
pub turns-Inside :
    (setup : Setup) (items : List (Record × Outcome)) (a : Account) (v : Upload)
    → turns setup items (no_upload a) ≡ ok v
    → All (Inside setup.destination) v.written
turns-Inside setup items a v h =
    (subst (Holds (Stays setup)) h (turns-Stays setup items (no_upload a) (tt, tt))).1
