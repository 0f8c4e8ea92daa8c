-- ===== src/Scp/Command/Parse/Accepted.antt =====
-- What `parseScpCommand` of electron/scp/command-parser.js promises of every command that it accepts.
use mathlib.Core.Logic.{◌≢◌}
use usshtc.Prelude.{
  ◌≡◌, ◌≤◌, true, false, List, [], ◌∷◌, Result, ok, err, ◌>>=◌, first_of_chain, Bool-cases, inl,
  inr, some, none, Option, arith,
}
use usshtc.Prelude.Text.{Text, is_empty, has_control, byte_length, is_well_formed}
use usshtc.Scp.Command.{Word, tokenize, TokenError}
use usshtc.Scp.Command.Parse.{
  Direction, source, sink, command, Invalid, ScpCommand, Options, no_options, is_scp_executable,
  to_outcome, recognized, parse_scp_command, with_tokens, arguments, conclude, one_path, with_path,
  each_word, is_remote, max_command_bytes,
}

-- The pattern is there for a source, and only there.
abbrev pub HasPattern : Direction → Option Text → Type 0
HasPattern source pattern_text = (p : Text) × (pattern_text ≡ some p)
HasPattern sink pattern_text = pattern_text ≡ none

pub record IsAccepted (c : ScpCommand) : Type 0 where
  pub path_given : c.path ≢ []
  pub no_control : has_control c.path ≡ false
  pub local : is_remote c.path ≡ false
  pub pattern_given : HasPattern c.direction c.glob_pattern

is_empty-ne : (s : Text) → is_empty s ≡ false → s ≢ []
is_empty-ne [] h = cc
is_empty-ne (c ∷ s) h = λ e. cc

with_path-path :
    (d : Direction) (o : Options) (w : Word) (c : ScpCommand)
    → with_path d o w ≡ ok c
    → (is_empty c.path ≡ false) × (has_control c.path ≡ false) × (is_remote c.path ≡ false)
unfolding with_path
with_path-path d o w c h = ground arith

with_path-pattern :
    (d : Direction) (o : Options) (w : Word) (c : ScpCommand)
    → with_path d o w ≡ ok c
    → HasPattern c.direction c.glob_pattern
unfolding with_path
with_path-pattern source o w c h =
    let same : c.direction ≡ source = ground arith in rw same (w.glob_pattern, ground arith)
with_path-pattern sink o w c h =
    let same : c.direction ≡ sink = ground arith in rw same (ground arith)

with_path-IsAccepted :
    (d : Direction) (o : Options) (w : Word) (c : ScpCommand)
    → with_path d o w ≡ ok c
    → IsAccepted c
with_path-IsAccepted d o w c h =
    let (given, control, local) = with_path-path d o w c h in
    record {
      path_given = is_empty-ne c.path given;
      no_control = control;
      local = local;
      pattern_given = with_path-pattern d o w c h;
    }

one_path-IsAccepted :
    (d : Direction) (o : Options) (words : List Word) (c : ScpCommand)
    → one_path d o words ≡ ok c
    → IsAccepted c
unfolding one_path
one_path-IsAccepted d o (w ∷ []) c h = with_path-IsAccepted d o w c h
one_path-IsAccepted d o [] c h = cc
one_path-IsAccepted d o (w ∷ v ∷ words) c h = cc

conclude-IsAccepted :
    (o : Options) (d : Option Direction) (c : ScpCommand) → conclude o d ≡ ok c → IsAccepted c
unfolding conclude
conclude-IsAccepted o none c h = cc
conclude-IsAccepted o (some d) c h = one_path-IsAccepted d o o.paths c h

to_outcome-command :
    (r : Result Invalid ScpCommand) (c : ScpCommand) → to_outcome r ≡ command c → r ≡ ok c
unfolding to_outcome
to_outcome-command (ok x) c h = cc
to_outcome-command (err e) c h = cc

arguments-IsAccepted :
    (words : List Word) (c : ScpCommand) → arguments words ≡ command c → IsAccepted c
unfolding arguments
arguments-IsAccepted [] c h = cc
arguments-IsAccepted (w ∷ words) c h = elim (Bool-cases (is_scp_executable w.word)) [
  | inl e ↦
      let found =
        to_outcome-command (each_word words no_options >>= λ o. conclude o o.direction) c
          (rw e at h) in
      let (o, _, made) =
        first_of_chain (each_word words no_options) (λ o. conclude o o.direction) found in
      conclude-IsAccepted o o.direction c made
  | inr e ↦ cc (rw e at h)
]

with_tokens-IsAccepted :
    (r : Result TokenError (List Word)) (c : ScpCommand) → with_tokens r ≡ command c → IsAccepted c
unfolding with_tokens
with_tokens-IsAccepted (ok words) c h = arguments-IsAccepted words c h
with_tokens-IsAccepted (err e) c h = cc

-- The guards in front of the parse.
parse-guards :
    (text : Text) (c : ScpCommand)
    → parse_scp_command text ≡ command c
    → (recognized text ≡ true)
      × (byte_length text ≤ max_command_bytes)
      × (is_well_formed text ≡ true)
      × (with_tokens (tokenize text) ≡ command c)
unfolding parse_scp_command
parse-guards text c h = ground arith

-- Every command that is accepted has a path that is not empty, holds no control character and does
-- not name a remote, and a pattern exactly where the path is the source; its text was recognized,
-- well formed and within the size limit.
pub parse-IsAccepted :
    (text : Text) (c : ScpCommand)
    → parse_scp_command text ≡ command c
    → IsAccepted c
      × (recognized text ≡ true)
      × (byte_length text ≤ max_command_bytes)
      × (is_well_formed text ≡ true)
parse-IsAccepted text c h =
    let (known, short, formed, made) = parse-guards text c h in
    (with_tokens-IsAccepted (tokenize text) c made, known, short, formed)
