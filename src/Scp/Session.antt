-- ===== src/Scp/Session.antt =====
-- electron/scp/session.js, the accounts of a transfer session.
use usshtc.Prelude.{ℕ, suc, ◌+◌, ◌*◌, ◌||◌, ltb, if◌then◌else◌, Result, ok, err}

-- The codes that the modelled parts fail with; `portal` is one that the portal's answers lead to.
pub data Failure : Type 0 where
  scp_protocol scp_limit scp_path scp_recursive portal : Failure

abbrev pub max_entries : ℕ
max_entries = 10000

abbrev pub max_records : ℕ
max_records = 100000

abbrev pub max_depth : ℕ
max_depth = 32

abbrev pub max_file_size : ℕ
max_file_size = 1024 * 1024 * 1024

abbrev pub max_session_bytes : ℕ
max_session_bytes = 8 * (1024 * 1024 * 1024)

-- `records`, `acceptedEntries` and `sessionBytes`.
pub record Account : Type 0 where
  pub records : ℕ
  pub entries : ℕ
  pub bytes : ℕ

abbrev pub no_account : Account
no_account = record { records = 0; entries = 0; bytes = 0 }

-- `frame`, with the tests of `check` left to the environment.
unfoldable pub frame : Account → Result Failure Account
frame a =
    if ltb max_records (suc a.records)
    then err scp_limit
    else ok (record a { records = suc a.records })

-- `acceptEntry`, for a size that the reader has checked to be a natural number.
unfoldable pub accept_entry : ℕ → ℕ → Account → Result Failure Account
accept_entry max_file_bytes size a =
    if ltb max_entries (suc a.entries)
      || ltb max_file_bytes size
      || ltb max_session_bytes (a.bytes + size)
    then err scp_limit
    else ok (record a { entries = suc a.entries; bytes = a.bytes + size })
