-- ===== src/Scp/Upload.antt =====
-- electron/scp/upload-session.js, `runUploadSession` from the first acknowledgement on, and `childPath`.
-- The transfer of a file and the portal's answers are outcomes that come with the record.
pub mod Inside
pub mod Nested
pub mod Trees
pub mod Tests
use usshtc.Prelude.{
  ℕ, suc, ◌+◌, Bool, true, false, not, ◌&&◌, ◌||◌, List, [], ◌∷◌, ◌++◌, leb, ltb, ◌==◌,
  if◌then◌else◌, Result, ok, err, guard, ◌>>=◌, ◌>>◌, length,
}
use usshtc.Prelude.Text.{Text, codes, text_eq, includes}
use usshtc.Prelude.EntryName.{entry_name_rejected}
use usshtc.Scp.Session.{
  Failure, scp_protocol, scp_limit, scp_path, scp_recursive, max_depth, Account, frame,
  accept_entry,
}

-- What `readRecord` gives before the end of the input.
pub data Record : Type 0 where
  time end other : Record
  file : (size : ℕ) → (name : Text) → Record
  dir : (name : Text) → Record

-- How the work on a record ends before and after the acknowledgement of a file's header; that of a
-- directory is done before.
pub record Outcome : Type 0 where
  pub prepared : Result Failure (Unit {0})
  pub published : Result Failure (Unit {0})

-- What is known before the loop.
pub record Setup : Type 0 where
  pub destination : Text
  pub into_directory : Bool
  pub recursive : Bool
  pub max_file_bytes : ℕ

-- The variables of the loop, the account of the session, and the targets that were written, the
-- latest first.
pub record Upload : Type 0 where
  pub stack : List Text
  pub root_entries : ℕ
  pub pending_time : Bool
  pub account : Account
  pub written : List Text

-- `path.posix.join(directory, name)` of an absolute normalized directory and one name.
pub join_path : Text → Text → Text
join_path directory name =
    if text_eq directory (codes "/") then b'/' ∷ name else directory ++ b'/' ∷ name

-- `text.startsWith(start)`.
starts_with : Text → Text → Bool
starts_with [] t = true
starts_with (c ∷ start) [] = false
starts_with (c ∷ start) (d ∷ t) = c == d && starts_with start t

-- A path that is not below the directory.
outside : Text → Text → Bool
unfolding starts_with
outside directory path =
    not (text_eq directory (codes "/")) && not (starts_with (directory ++ b'/' ∷ []) path)

-- `childPath`.
child_path : Text → Text → Result Failure Text
unfolding join_path outside
child_path directory name =
    if entry_name_rejected name
    then err scp_protocol
    else if includes name b'\\'
    then err scp_path
    else if outside directory (join_path directory name)
    then err scp_path
    else ok (join_path directory name)

counted : (Account → Result Failure Account) → Upload → Result Failure Upload
counted pay u = pay u.account >>= λ a. ok (record u { account = a })

-- `readRecord` and `writeAck` each take a frame.
pub framed : Upload → Result Failure Upload
unfolding counted frame
framed u = counted frame u

-- The path of an entry at the root: the destination is a directory for any number of them, or the
-- one entry itself.
root_target : Setup → Text → Upload → Result Failure (Text × Upload)
unfolding child_path
root_target setup name u =
    if setup.into_directory
    then (child_path setup.destination name >>= λ t. ok (t, u))
    else if ltb 1 u.root_entries
    then err scp_protocol
    else ok (setup.destination, u)

target_in : Setup → Text → List Text → Upload → Result Failure (Text × Upload)
unfolding child_path root_target
target_in setup name [] u = root_target setup name (record u { root_entries = suc u.root_entries })
target_in setup name (top ∷ _) u = child_path top name >>= λ t. ok (t, u)

target_of : Setup → Text → Upload → Result Failure (Text × Upload)
unfolding target_in
target_of setup name u = target_in setup name u.stack u

abbrev too_deep : Upload → Bool
too_deep u = ltb max_depth (length u.stack + 1)

-- `receiveFile`: the account, the acknowledgement of the header, the body with the peer's
-- acknowledgement, and the last acknowledgement.
receive_file : Setup → Outcome → ℕ → Text → Upload → Result Failure Upload
unfolding counted accept_entry framed
receive_file setup outcome size target u = do
  paid ← counted (accept_entry setup.max_file_bytes size) u
  outcome.prepared
  ready ← framed paid
  sent ← framed ready
  outcome.published
  framed (record sent { written = target ∷ sent.written })

make_directory : Outcome → Text → Upload → Result Failure Upload
unfolding counted accept_entry framed
make_directory outcome target u = do
  paid ← counted (accept_entry 0 0) u
  outcome.prepared
  framed (record paid { stack = target ∷ paid.stack; written = target ∷ paid.written })

-- `E`: the stack is popped.
end_directory : List Text → Upload → Result Failure Upload
unfolding framed
end_directory [] u = err scp_protocol
end_directory (_ ∷ rest) u =
    guard (not u.pending_time) scp_protocol >> framed (record u { stack = rest })

entry : Setup → Outcome → Record → Upload → Result Failure Upload
unfolding framed target_of receive_file make_directory end_directory
entry setup outcome time u =
    guard (not u.pending_time) scp_protocol >> framed (record u { pending_time = true })
entry setup outcome end u = end_directory u.stack u
entry setup outcome other u = err scp_protocol
entry setup outcome (file size name) u = do
  (target, u') ← target_of setup name (record u { pending_time = false })
  guard (not (too_deep u')) scp_limit
  receive_file setup outcome size target u'
entry setup outcome (dir name) u = do
  (target, u') ← target_of setup name (record u { pending_time = false })
  guard setup.recursive scp_recursive
  guard (not (too_deep u')) scp_limit
  make_directory outcome target u'

-- One turn of the loop.
pub turn : Setup → Record × Outcome → Upload → Result Failure Upload
unfolding framed entry
turn setup (r, outcome) u = framed u >>= λ u'. entry setup outcome r u'

-- The loop over records, without the end of the input.
pub turns : Setup → List (Record × Outcome) → Upload → Result Failure Upload
unfolding turn
turns setup [] u = ok u
turns setup (item ∷ items) u = turn setup item u >>= λ u'. turns setup items u'

abbrev pub no_upload : Account → Upload
no_upload a = record {
  stack = [];
  root_entries = 0;
  pending_time = false;
  account = a;
  written = [];
}

finish : Upload → Result Failure Upload
finish u =
    if not (length u.stack == 0) || u.pending_time || u.root_entries == 0
    then err scp_protocol
    else ok u

-- The loop to the end of the input.
pub run_upload : Setup → List (Record × Outcome) → Account → Result Failure Upload
unfolding turns framed finish
run_upload setup items a = do
  u ← framed (no_upload a)
  u' ← turns setup items u
  last ← framed u'
  finish last
