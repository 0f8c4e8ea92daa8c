-- ===== src/Exec/Quote.antt =====
-- `quotePosix` of electron/exec-codec.js.
use usshtc.Prelude.{[], ◌∷◌, ◌++◌, ◌==◌, if◌then◌else◌, Result, ok, err}
use usshtc.Prelude.Text.{Text, includes}

-- `codecError('EXEC_SETUP_FAILED')`.
pub data CodecError : Type 0 where
  exec_setup_failed : CodecError

-- `text.replace(/'/g, "'\\''")`.
unfoldable pub replace_quotes : Text → Text
replace_quotes [] = []
replace_quotes (c ∷ s) =
    let rest = replace_quotes s in
    if c == b'\'' then b'\'' ∷ b'\\' ∷ b'\'' ∷ b'\'' ∷ rest else c ∷ rest

-- `quotePosix`, on a string.
unfoldable pub quote_posix : Text → Result CodecError Text
unfolding replace_quotes
quote_posix s =
    if includes s 0 then err exec_setup_failed else ok (b'\'' ∷ replace_quotes s ++ b'\'' ∷ [])
