-- ===== src/Settings/Tests.antt =====
-- The theorems about shared/settings-schema.mjs at concrete inputs.
use usshtc.Prelude.{◌≡◌, refl, true, List, [], ◌∷◌, ok, All, arith, ◌↔◌}
use usshtc.Prelude.Text.{Text, codes}
use usshtc.Prelude.Dynamic.{Value, string, integer, pos, boolean}
use usshtc.Settings.Rules.{integer_in, apply, parse_integer, clean, read_integer, in_range}
use usshtc.Settings.Rules.Accepted.{Meets, apply-Meets}
use usshtc.Settings.Patch.{
  plain, accepted, validate_settings_patch, Fields, each_key, note, parse_setting, by_rule,
  find_rule, put, conclude,
}
use usshtc.Settings.Patch.Exact.{Answers, failures, patched_at, value_at, validate-Answers}
use usshtc.Settings.Patch.Valid.{IsSetting, validate-IsSetting}
use usshtc.Settings.Clean.{clean_string, trim, strip_start, strip_end}
use usshtc.Settings.Host.{digits_value, is_ipv4}
use usshtc.Settings.Host.Dotted.{IsDotted, is_ipv4-exact}

abbrev patch : List (Text × Value)
patch = (codes "port", string (codes " 22 ")) ∷ (codes "x", integer (pos 1)) ∷ []

abbrev current : Fields
current = (codes "port", integer (pos 3000)) ∷ (codes "useRoot", boolean true) ∷ []

validate-Answers_example :
    Answers
      (failures patch)
      (λ key. patched_at key patch (value_at key current))
      (validate_settings_patch (plain patch) current)
validate-Answers_example = validate-Answers patch current

patch_accepted :
    validate_settings_patch (plain ((codes "port", string (codes " 22 ")) ∷ [])) current
    ≡ accepted ((codes "port", integer (pos 22)) ∷ (codes "useRoot", boolean true) ∷ [])
unfolding validate_settings_patch each_key note parse_setting by_rule find_rule put conclude apply
    parse_integer clean clean_string trim strip_start strip_end read_integer in_range digits_value
patch_accepted = refl

port_accepted : apply (integer_in 1 65535) (string (codes " 22 ")) ≡ ok (integer (pos 22))
unfolding apply parse_integer clean clean_string trim strip_start strip_end read_integer in_range
    digits_value
port_accepted = refl

current-IsSetting : All IsSetting current
unfolding find_rule
current-IsSetting = ((ground arith, ground arith), (tt, tt))

apply-Meets_example :
    Meets (integer_in 1 65535) (integer (pos 22))
    × (apply (integer_in 1 65535) (integer (pos 22)) ≡ ok (integer (pos 22)))
apply-Meets_example =
    apply-Meets (integer_in 1 65535) (string (codes " 22 ")) (integer (pos 22)) port_accepted

validate-IsSetting_example :
    All IsSetting ((codes "port", integer (pos 22)) ∷ (codes "useRoot", boolean true) ∷ [])
validate-IsSetting_example =
    validate-IsSetting (plain ((codes "port", string (codes " 22 ")) ∷ [])) current
      ((codes "port", integer (pos 22)) ∷ (codes "useRoot", boolean true) ∷ []) current-IsSetting
      patch_accepted

is_ipv4-exact_example : (is_ipv4 (codes "10.0.0.255") ≡ true) ↔ IsDotted (codes "10.0.0.255")
is_ipv4-exact_example = is_ipv4-exact (codes "10.0.0.255")
