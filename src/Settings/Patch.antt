-- ===== src/Settings/Patch.antt =====
-- shared/settings-schema.mjs, `validateSettingsPatch`. An object is the list of its own properties.
pub mod Known
pub mod Exact
pub mod Valid
use usshtc.Prelude.{
  Bool, true, false, List, [], ◌∷◌, ◌++◌, Option, none, some, if◌then◌else◌, Result, ok, err,
}
use usshtc.Prelude.Text.{Text, codes, text_eq}
use usshtc.Prelude.Dynamic.{Value}
use usshtc.Settings.Clean.{Code, required, unknown_key}
use usshtc.Settings.Rules.{Rule, apply, validators}

-- A patch: a plain object, or another value, which may be `null` or `undefined`.
pub data Input : Type 0 where
  plain : List (Text × Value) → Input
  other : (absent : Bool) → Input

abbrev pub Errors : Type 0
Errors = List (Text × Code)

abbrev pub Fields : Type 0
Fields = List (Text × Value)

pub data Outcome : Type 0 where
  accepted : Fields → Outcome
  refused : Errors → Outcome

unfoldable pub find_rule : Text → List (Text × Rule) → Option Rule
find_rule key [] = none
find_rule key (entry ∷ table) = if text_eq entry.0 key then some entry.1 else find_rule key table

unfoldable pub by_rule : Option Rule → Value → Result Code Value
by_rule none v = err unknown_key
by_rule (some r) v = apply r v

-- `validators[key](input[key])`, if there is one.
unfoldable pub parse_setting : Text → Value → Result Code Value
unfolding find_rule by_rule
parse_setting key v = by_rule (find_rule key validators) v

-- `value[key] = v`.
unfoldable pub put : Text → Value → Fields → Fields
put key v [] = (key, v) ∷ []
put key v (field ∷ fields) =
    let rest = put key v fields in if text_eq field.0 key then (key, v) ∷ fields else field ∷ rest

unfoldable pub conclude : Fields → Errors → Outcome
conclude value [] = accepted value
conclude value (e ∷ errors) = refused (e ∷ errors)

-- One turn of the loop, on `value` and `fieldErrors`.
unfoldable pub note : Text → Result Code Value → Fields × Errors → Fields × Errors
unfolding put
note key (ok v) (value, errors) = (put key v value, errors)
note key (err code) (value, errors) = (value, errors ++ (key, code) ∷ [])

unfoldable pub each_key : List (Text × Value) → Fields × Errors → Fields × Errors
unfolding note parse_setting
each_key [] state = state
each_key (entry ∷ input) state = each_key input (note entry.0 (parse_setting entry.0 entry.1) state)

unfoldable pub validate_settings_patch : Input → Fields → Outcome
unfolding each_key conclude
validate_settings_patch (plain input) current =
    let (value, errors) = each_key input (current, []) in conclude value errors
validate_settings_patch (other absent) current =
    refused ((codes "settings", if absent then required else unknown_key) ∷ [])
