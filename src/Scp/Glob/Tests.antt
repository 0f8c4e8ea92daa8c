-- ===== src/Scp/Glob/Tests.antt =====
-- Runs of electron/scp/glob.js, and its theorems at concrete inputs.
use usshtc.Prelude.{◌≤◌, ◌≡◌, refl, ◌↔◌, true, false, [], ◌∷◌, length, ok, err}
use usshtc.Prelude.Text.{codes, code_points, is_well_formed}
use usshtc.Prelude.EntryName.{IsEntryName}
use usshtc.Scp.Glob.{
  Glob, star, one, any_char, literal, default_limits, match_glob, test, compile_glob,
  reversed_range, recursive, unterminated_class,
}
use usshtc.Scp.Glob.Matches.{DotIsExplicit, Matches, test_iff}
use usshtc.Scp.Glob.Parse.{Ends, IsCompiled, compile_glob-IsCompiled}

abbrev text_files : Glob
text_files = record {
  magic = true;
  tokens = star ∷ one (literal b'.') ∷ one (literal b't') ∷ one any_char ∷ one (literal b't') ∷ [];
  bounds = default_limits;
}

test_iff_example : (test text_files (codes "a.b.txt") ≡ true) ↔ (
    IsEntryName (codes "a.b.txt")
    × (length (codes "a.b.txt") ≤ 4096)
    × DotIsExplicit text_files.tokens (codes "a.b.txt")
    × Matches text_files.tokens (code_points (codes "a.b.txt")))
test_iff_example = test_iff text_files (codes "a.b.txt")

compile_glob-IsCompiled_example :
    Ends (IsCompiled default_limits) (compile_glob (codes "[!a-c]*") default_limits)
compile_glob-IsCompiled_example = compile_glob-IsCompiled (codes "[!a-c]*") default_limits

backtracks : match_glob (codes "*.t?t") (codes "a.tt.txt") default_limits ≡ ok true
unfolding match_glob code_points is_well_formed
backtracks = refl

hidden : match_glob (codes "*rc") (codes ".bashrc") default_limits ≡ ok false
unfolding match_glob code_points is_well_formed
hidden = refl

ranges : match_glob (codes "v[]0-9-]") (codes "v]") default_limits ≡ ok true
unfolding match_glob code_points is_well_formed
ranges = refl

reversed : match_glob (codes "[b-a]") (codes "b") default_limits ≡ err reversed_range
unfolding match_glob code_points is_well_formed
reversed = refl

two_stars : match_glob (codes "a**") (codes "b") default_limits ≡ err recursive
unfolding match_glob code_points is_well_formed
two_stars = refl

open_class : match_glob (codes "[]") (codes "b") default_limits ≡ err unterminated_class
unfolding match_glob code_points is_well_formed
open_class = refl
