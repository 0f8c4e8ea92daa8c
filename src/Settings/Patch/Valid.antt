-- ===== src/Settings/Patch/Valid.antt =====
-- A patch of shared/settings-schema.mjs keeps settings valid.
use usshtc.Prelude.{
  ◌≡◌, refl, List, [], ◌∷◌, Option, none, some, Result, ok, err, Bool-cases, inl, inr, All,
}
use usshtc.Prelude.Text.{Text, text_eq}
use usshtc.Prelude.Dynamic.{Value}
use usshtc.Settings.Clean.{Code}
use usshtc.Settings.Rules.{Rule, validators}
use usshtc.Settings.Rules.Accepted.{Meets, apply-Meets}
use usshtc.Settings.Patch.{
  Input, plain, other, Errors, Fields, accepted, parse_setting, find_rule, by_rule, put, note,
  each_key, conclude, validate_settings_patch,
}
use mathlib.Core.Path.{subst}
use usshtc.Settings.Patch.Known.{kind_of, find_rule-kind}

-- A value is one of the kind, if there is one.
abbrev MeetsRule : Option Rule → Value → Type 0
MeetsRule none v = Unit
MeetsRule (some r) v = Meets r v

abbrev pub IsSetting : Text × Value → Type 0
IsSetting field = MeetsRule (kind_of field.0) field.1

by_rule-MeetsRule : (o : Option Rule) (v w : Value) → by_rule o v ≡ ok w → MeetsRule o w
unfolding by_rule
by_rule-MeetsRule none v w h = tt
by_rule-MeetsRule (some r) v w h = (apply-Meets r v w h).0

put-IsSetting :
    (key : Text) (v : Value) (fields : Fields)
    → IsSetting (key, v)
    → All IsSetting fields
    → All IsSetting (put key v fields)
unfolding put
put-IsSetting key v [] h a = (h, tt)
put-IsSetting key v (field ∷ fields) h a = elim (Bool-cases (text_eq field.0 key)) [
  | inl e ↦ rw e (h, a.1)
  | inr e ↦ rw e (a.0, put-IsSetting key v fields h a.1)
]

note-IsSetting :
    (key : Text) (v : Value) (r : Result Code Value) (state : Fields × Errors)
    → parse_setting key v ≡ r
    → All IsSetting state.0
    → All IsSetting (note key r state).0
unfolding note
note-IsSetting key v (ok w) state e a =
    put-IsSetting key w state.0
      (subst (λ o. MeetsRule o w) (find_rule-kind key)
        (unfold parse_setting in by_rule-MeetsRule (find_rule key validators) v w e))
      a
note-IsSetting key v (err code) state e a = a

each_key-IsSetting :
    (input : List (Text × Value)) (state : Fields × Errors)
    → All IsSetting state.0
    → All IsSetting (each_key input state).0
unfolding each_key
each_key-IsSetting [] state a = a
each_key-IsSetting (entry ∷ input) state a =
    each_key-IsSetting input (note entry.0 (parse_setting entry.0 entry.1) state)
      (note-IsSetting entry.0 entry.1 (parse_setting entry.0 entry.1) state refl a)

conclude-accepted :
    (value fields : Fields) (errors : Errors)
    → conclude value errors ≡ accepted fields
    → value ≡ fields
unfolding conclude
conclude-accepted value fields [] h = cc
conclude-accepted value fields (e ∷ errors) h = cc

-- Settings that are of their kinds still are after every patch that is accepted: the port in 1 to 65535,
-- the columns in 40 to 500, the rows in 10 to 200, the size of a file in 1 to 1 GiB; hosts, tokens and
-- paths of their characters and lengths; the known choices of theme and locale; and 13 flags.
pub validate-IsSetting :
    (input : Input) (current fields : Fields)
    → All IsSetting current
    → validate_settings_patch input current ≡ accepted fields
    → All IsSetting fields
unfolding validate_settings_patch
validate-IsSetting (plain input) current fields a h =
    let (value, errors) = each_key input (current, []) in
    subst (All IsSetting) (conclude-accepted value fields errors h)
      (each_key-IsSetting input (current, []) a)
validate-IsSetting (other absent) current fields a h = cc
