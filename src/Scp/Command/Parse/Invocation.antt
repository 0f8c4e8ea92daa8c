-- ===== src/Scp/Command/Parse/Invocation.antt =====
-- What `parseScpCommand` of electron/scp/command-parser.js makes of an SCP invocation whose path is
-- quoted by `quotePosix`, and what it promises of every command that it accepts.
use mathlib.Core.Logic.{◌≢◌}
use usshtc.Prelude.{
  ℕ, ◌≤◌, ◌≡◌, refl, sym, Bool, true, false, not, List, [], ◌∷◌, ◌++◌, arith, any, any-append, ltb,
  ◌==◌, ok, select, some, none, Option,
}
use usshtc.Prelude.Text.{Text, codes, has_control, is_control, is_well_formed, byte_length}
use usshtc.Exec.Quote.{replace_quotes, quote_posix}
use usshtc.Scp.Command.{
  Word, quote_char, scan, append, begin, finish, tokenize, is_operator, pattern_unit,
}
use usshtc.Scp.Command.Quoting.{glob_escape, scan-quoted, clean}
use usshtc.Scp.Command.Parse.{
  Direction, source, sink, command, ScpCommand, is_scp_executable, recognized, parse_scp_command,
  with_tokens, is_remote, is_scp_url, max_command_bytes,
}

-- The flag of a direction.
abbrev direction_flag : Direction → ℕ
direction_flag source = b'f'
direction_flag sink = b't'

-- The text that `quotePosix` builds.
abbrev quoted_path : Text → Text
quoted_path path = quote_char ∷ replace_quotes path ++ quote_char ∷ []

-- `scp -f -- ` or `scp -t -- ` with a quoted path.
abbrev pub invocation : Direction → Text → Text
invocation direction quoted = codes "scp -" ++ direction_flag direction ∷ codes " -- " ++ quoted

recognized-invocation :
    (direction : Direction) (path : Text)
    → recognized (invocation direction (quoted_path path)) ≡ true
unfolding recognized tokenize scan append begin finish is_operator is_scp_executable
recognized-invocation source path = refl
recognized-invocation sink path = refl

any-select {ℓ} :
    {A : Type ℓ} (p q : A → Bool) (xs : List A) → any p xs ≡ false → any p (select q xs) ≡ false
any-select p q [] h = refl
any-select p q (x ∷ xs) h = ground (arith, any-select p q xs)

control-replace_quotes : (s : Text) → has_control s ≡ false → has_control (replace_quotes s) ≡ false
unfolding replace_quotes
control-replace_quotes [] h = refl
control-replace_quotes (c ∷ s) h = ground (arith, control-replace_quotes s)

abbrev argument : Text → Word
argument s = record { word = s; glob_pattern = s }

tokenize-invocation :
    (direction : Direction) (path : Text)
    → tokenize (invocation direction (quoted_path path))
      ≡ ok (
          argument (codes "scp")
          ∷ argument (b'-' ∷ direction_flag direction ∷ [])
          ∷ argument (codes "--")
          ∷ (record { word = path; glob_pattern = glob_escape path })
          ∷ [])
unfolding tokenize scan append begin finish is_operator clean pattern_unit
tokenize-invocation source path =
    scan-quoted path (argument (codes "scp") ∷ argument (codes "-f") ∷ argument (codes "--") ∷ [])
tokenize-invocation sink path =
    scan-quoted path (argument (codes "scp") ∷ argument (codes "-t") ∷ argument (codes "--") ∷ [])

url-is_remote : (s : Text) → is_remote s ≡ false → is_scp_url s ≡ false
unfolding is_scp_url is_remote
url-is_remote [] h = refl
url-is_remote (a ∷ []) h = refl
url-is_remote (a ∷ b ∷ []) h = refl
url-is_remote (a ∷ b ∷ c ∷ []) h = refl
url-is_remote (a ∷ b ∷ c ∷ d ∷ []) h = refl
url-is_remote (a ∷ b ∷ c ∷ d ∷ e ∷ []) h = refl
url-is_remote (a ∷ b ∷ c ∷ d ∷ e ∷ f ∷ s) h = ground arith

abbrev pub pattern_for : Direction → Text → Option Text
pattern_for source path = some (glob_escape path)
pattern_for sink path = none

-- The command that an invocation stands for.
abbrev pub requested : Direction → Text → ScpCommand
requested direction path = record {
  direction = direction;
  path = path;
  recursive = false;
  preserve = false;
  target_directory = false;
  glob_pattern = pattern_for direction path;
}

control-invocation :
    (direction : Direction) (path : Text)
    → has_control path ≡ false
    → has_control (select (λ c. not (c == b'\t')) (invocation direction (quoted_path path))) ≡ false
control-invocation direction path h =
    any-select is_control (λ c. not (c == b'\t')) (invocation direction (quoted_path path))
      (unselected direction)
  where
    quoted : has_control (replace_quotes path ++ quote_char ∷ []) ≡ false
    quoted =
        rw (any-append is_control (replace_quotes path) (quote_char ∷ []))
          (rw (control-replace_quotes path h))

    unselected :
        (direction : Direction) → has_control (invocation direction (quoted_path path)) ≡ false
    unselected source = quoted
    unselected sink = quoted

with_tokens-invocation :
    (direction : Direction) (path : Text)
    → path ≢ []
    → has_control path ≡ false
    → is_remote path ≡ false
    → with_tokens (tokenize (invocation direction (quoted_path path)))
      ≡ command (requested direction path)
with_tokens-invocation direction [] ne h k = absurd (ne refl)
with_tokens-invocation source (c ∷ path) ne h k =
    rw (tokenize-invocation source (c ∷ path))
      (unfold with_tokens is_scp_executable in rw (h, k, url-is_remote (c ∷ path) k))
with_tokens-invocation sink (c ∷ path) ne h k =
    rw (tokenize-invocation sink (c ∷ path))
      (unfold with_tokens is_scp_executable in rw (h, k, url-is_remote (c ∷ path) k))

quoted_path-eq : (path quoted : Text) → quote_posix path ≡ ok quoted → quoted_path path ≡ quoted
unfolding quote_posix
quoted_path-eq path quoted h = ground arith

-- An SCP invocation whose path is quoted by `quotePosix` is parsed to exactly that path, in the
-- direction asked for, with a pattern that escapes the path where it is the source: for every path
-- that is not empty, has no control character and does not name a remote, in a command that is well
-- formed and within the size limit.
pub parse-quote_posix :
    (direction : Direction) (path quoted : Text)
    → quote_posix path ≡ ok quoted
    → path ≢ []
    → has_control path ≡ false
    → is_remote path ≡ false
    → byte_length (invocation direction quoted) ≤ max_command_bytes
    → is_well_formed (invocation direction quoted) ≡ true
    → parse_scp_command (invocation direction quoted) ≡ command (requested direction path)
parse-quote_posix direction path quoted q ne h k short formed =
    let same = sym (quoted_path-eq path quoted q) in
    let fits : ltb max_command_bytes (byte_length (invocation direction quoted)) ≡ false =
      ground arith in
    rw same (
      unfold parse_scp_command in
      rw
        (
          recognized-invocation direction path,
          rw same at fits,
          control-invocation direction path h,
          rw same at formed,
        )
        (with_tokens-invocation direction path ne h k))
