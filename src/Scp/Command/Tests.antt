-- ===== src/Scp/Command/Tests.antt =====
-- Runs of electron/scp/command-parser.js, and the theorems about it at concrete inputs.
use usshtc.Prelude.{◌≤◌, ◌≡◌, refl, ◌↔◌, true, false, [], ◌∷◌, length, ok, arith, none}
use usshtc.Prelude.Text.{codes, code_points, is_well_formed, byte_length}
use usshtc.Prelude.EntryName.{IsEntryName}
use usshtc.Exec.Quote.{quote_posix}
use usshtc.Scp.Glob.{
  Glob, default_limits, options_with_limits, pattern_rejected, compile_glob, test,
}
use usshtc.Scp.Command.{pattern_unit, tokenize, scan, append, begin, finish, is_operator, operator}
use usshtc.Scp.Command.Quoting.{glob_escape, tokenize-quote_posix}
use usshtc.Scp.Command.Request.{glob_escape-exact}
use usshtc.Scp.Command.Parse.{
  source, sink, command, invalid, not_scp, no_direction, bad_token, ScpCommand, parse_scp_command,
  recognized, is_scp_executable, is_remote, max_command_bytes,
}
use usshtc.Scp.Command.Parse.Invocation.{invocation, requested, parse-quote_posix}
use usshtc.Scp.Command.Parse.Accepted.{IsAccepted, parse-IsAccepted}

tokenize-quote_posix_example :
    tokenize (codes "'a*'\\''b'")
    ≡ ok ((record { word = codes "a*'b"; glob_pattern = glob_escape (codes "a*'b") }) ∷ [])
unfolding quote_posix
tokenize-quote_posix_example = tokenize-quote_posix (codes "a*'b") (codes "'a*'\\''b'") refl

glob_escape-exact_example :
    (g : Glob) × (compile_glob (glob_escape (codes "a*")) default_limits ≡ ok g)
    × (g.magic ≡ false)
    × ((test g (codes "ab") ≡ true) ↔ (
        IsEntryName (codes "ab")
        × (length (codes "ab") ≤ 4096)
        × (code_points (codes "ab") ≡ code_points (codes "a*"))))
unfolding options_with_limits pattern_rejected glob_escape pattern_unit code_points is_well_formed
glob_escape-exact_example =
    glob_escape-exact (codes "a*") default_limits (codes "ab") refl refl (omega arith)

parse-quote_posix_example :
    parse_scp_command (invocation source (codes "'my file'"))
    ≡ command (requested source (codes "my file"))
unfolding quote_posix is_remote byte_length is_well_formed
parse-quote_posix_example =
    parse-quote_posix source (codes "my file") (codes "'my file'") refl (λ e. cc) refl refl
      (omega arith) refl

abbrev upload : ScpCommand
upload = record {
  direction = sink;
  path = codes "/home/me";
  recursive = true;
  preserve = true;
  target_directory = true;
  glob_pattern = none;
}

upload_parsed : parse_scp_command (codes "/usr/bin/scp -rpd -t /home/me") ≡ command upload
unfolding parse_scp_command tokenize scan append begin finish is_operator is_scp_executable
    is_remote byte_length is_well_formed pattern_unit
upload_parsed = refl

parse-IsAccepted_example :
    IsAccepted upload
    × (recognized (codes "/usr/bin/scp -rpd -t /home/me") ≡ true)
    × (byte_length (codes "/usr/bin/scp -rpd -t /home/me") ≤ max_command_bytes)
    × (is_well_formed (codes "/usr/bin/scp -rpd -t /home/me") ≡ true)
parse-IsAccepted_example =
    parse-IsAccepted (codes "/usr/bin/scp -rpd -t /home/me") upload upload_parsed

no_flag : parse_scp_command (codes "scp file") ≡ invalid no_direction
unfolding parse_scp_command tokenize scan append begin finish is_operator is_scp_executable
    byte_length is_well_formed pattern_unit
no_flag = refl

injected : parse_scp_command (codes "scp -t x;ls") ≡ invalid (bad_token operator)
unfolding parse_scp_command tokenize scan append begin finish is_operator is_scp_executable
    byte_length is_well_formed pattern_unit
injected = refl

other_program : parse_scp_command (codes "ls -l") ≡ not_scp
unfolding parse_scp_command tokenize scan append begin finish is_operator is_scp_executable
    pattern_unit
other_program = refl
