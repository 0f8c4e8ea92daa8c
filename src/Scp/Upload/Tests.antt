-- ===== src/Scp/Upload/Tests.antt =====
-- The theorems about electron/scp/upload-session.js at a concrete upload.
use usshtc.Prelude.{◌≡◌, ◌≢◌, refl, true, false, List, [], ◌∷◌, ok, err, All}
use usshtc.Prelude.Text.{codes, is_well_formed}
use usshtc.Scp.Session.{no_account, frame, accept_entry, scp_protocol}
use usshtc.Scp.Upload.{
  Record, time, end, file, dir, Outcome, Setup, Upload, join_path, child_path, counted, framed,
  root_target, target_in, target_of, receive_file, make_directory, end_directory, entry, turn,
  turns, no_upload, finish, run_upload, outside, starts_with,
}
use usshtc.Scp.Upload.Inside.{Inside, turns-Inside}
use usshtc.Scp.Upload.Trees.{Entries, records, run_upload-Entries}

abbrev setup : Setup
setup = record {
  destination = codes "/home";
  into_directory = true;
  recursive = true;
  max_file_bytes = 100;
}

abbrev fine : Outcome
fine = record { prepared = ok tt; published = ok tt }

abbrev items : List (Record × Outcome)
items =
    (time, fine)
    ∷ (dir (codes "a"), fine)
    ∷ (file 3 (codes "b"), fine)
    ∷ (end, fine)
    ∷ (file 5 (codes "c"), fine)
    ∷ []

abbrev received : Upload
received = record {
  stack = [];
  root_entries = 2;
  pending_time = false;
  account = record { records = 14; entries = 3; bytes = 8 };
  written = codes "/home/c" ∷ codes "/home/a/b" ∷ codes "/home/a" ∷ [];
}

taken : turns setup items (no_upload no_account) ≡ ok received
unfolding turns turn entry end_directory receive_file make_directory framed counted frame
    accept_entry target_of target_in root_target child_path join_path outside starts_with
    is_well_formed
taken = refl

finished :
    run_upload setup items no_account
    ≡ ok (record received { account = record { records = 16; entries = 3; bytes = 8 } })
unfolding run_upload finish turns turn entry end_directory receive_file make_directory framed
    counted frame accept_entry target_of target_in root_target child_path join_path outside
    starts_with is_well_formed
finished = refl

escape_refused :
    turns setup ((dir (codes ".."), fine) ∷ []) (no_upload no_account) ≡ err scp_protocol
unfolding turns turn entry end_directory receive_file make_directory framed counted frame
    accept_entry target_of target_in root_target child_path join_path outside starts_with
    is_well_formed
escape_refused = refl

turns-Inside_example : All (Inside setup.destination) received.written
turns-Inside_example = turns-Inside setup items no_account received taken

run_upload-Entries_example : Entries setup.recursive 0 (records items) × (records items ≢ [])
run_upload-Entries_example = run_upload-Entries setup items no_account _ finished
