-- ===== src/Settings/Patch/Exact.antt =====
-- What `validateSettingsPatch` of shared/settings-schema.mjs answers.
use usshtc.Prelude.{
  ◌≡◌, refl, sym, ap, ◌∙◌, Bool, true, false, List, [], ◌∷◌, ◌++◌, Option, none, some,
  if◌then◌else◌, Result, ok, err, Bool-cases, inl, inr, append-nil, append_assoc,
}
use usshtc.Prelude.Text.{Text, text_eq, text_eq_iff}
use usshtc.Prelude.Dynamic.{Value}
use usshtc.Settings.Clean.{Code}
use usshtc.Settings.Patch.{
  plain, Errors, Fields, Outcome, accepted, refused, parse_setting, put, note, each_key, conclude,
  validate_settings_patch,
}
use mathlib.Core.Path.{subst}
use usshtc.Settings.Patch.Known.{verdict, parse_setting-verdict}

-- The property of the object.
abbrev pub value_at : Text → Fields → Option Value
value_at key [] = none
value_at key (field ∷ fields) = if text_eq field.0 key then some field.1 else value_at key fields

-- The entries of the patch that are not accepted, in their order, each with its code.
abbrev pub failure : Text → Result Code Value → Errors
failure key (ok v) = []
failure key (err code) = (key, code) ∷ []

abbrev pub failures : List (Text × Value) → Errors
failures [] = []
failures (entry ∷ input) = failure entry.0 (verdict entry.0 entry.1) ++ failures input

-- What stands at a key afterwards: the parsed value of the last entry for it that is accepted, or
-- what stood there.
abbrev pub chosen : Text → Text → Result Code Value → Option Value → Option Value
chosen key k (ok v) before = if text_eq k key then some v else before
chosen key k (err code) before = before

abbrev pub patched_at : Text → List (Text × Value) → Option Value → Option Value
patched_at key [] before = before
patched_at key (entry ∷ input) before =
    patched_at key input (chosen key entry.0 (verdict entry.0 entry.1) before)

collapse :
    (b : Bool) (x y z : Option Value)
    → ◌≡◌ {A = Option Value} (if b then x else y) (if b then x else (if b then z else y))
collapse true x y z = refl
collapse false x y z = refl

value_at-put :
    (key k : Text) (v : Value) (fields : Fields)
    → value_at key (put k v fields) ≡ (if text_eq k key then some v else value_at key fields)
unfolding put
value_at-put key k v [] = refl
value_at-put key k v (field ∷ fields) = elim (Bool-cases (text_eq field.0 k)) [
  | inl e ↦
      rw (e, (text_eq_iff field.0 k).0 e)
        (collapse (text_eq k key) (some v) (value_at key fields) (some field.1))
  | inr e ↦ elim (Bool-cases (text_eq k key)) [
    | inl t ↦
        let apart : text_eq field.0 key ≡ false =
          subst (λ x. text_eq field.0 x ≡ false) ((text_eq_iff k key).0 t) e in
        rw (e, t, apart, value_at-put key k v fields, t) refl
    | inr f ↦ rw (e, f, value_at-put key k v fields, f) refl
  ]
]

value_at-note :
    (key k : Text) (r : Result Code Value) (state : Fields × Errors)
    → value_at key (note k r state).0 ≡ chosen key k r (value_at key state.0)
unfolding note
value_at-note key k (ok v) state = value_at-put key k v state.0
value_at-note key k (err code) state = refl

errors-note :
    (k : Text) (r : Result Code Value) (state : Fields × Errors)
    → (note k r state).1 ≡ state.1 ++ failure k r
unfolding note
errors-note k (ok v) state = sym (append-nil state.1)
errors-note k (err code) state = refl

each_key-value :
    (key : Text) (input : List (Text × Value)) (state : Fields × Errors)
    → value_at key (each_key input state).0 ≡ patched_at key input (value_at key state.0)
unfolding each_key
each_key-value key [] state = refl
each_key-value key (entry ∷ input) state =
    each_key-value key input (note entry.0 (parse_setting entry.0 entry.1) state)
    ∙ ap (patched_at key input) (
        value_at-note key entry.0 (parse_setting entry.0 entry.1) state
        ∙ ap (λ r. chosen key entry.0 r (value_at key state.0))
            (parse_setting-verdict entry.0 entry.1))

each_key-errors :
    (input : List (Text × Value)) (state : Fields × Errors)
    → (each_key input state).1 ≡ state.1 ++ failures input
unfolding each_key
each_key-errors [] state = sym (append-nil state.1)
each_key-errors (entry ∷ input) state =
    each_key-errors input (note entry.0 (parse_setting entry.0 entry.1) state)
    ∙ ap (λ es. es ++ failures input)
        (errors-note entry.0 (parse_setting entry.0 entry.1) state
          ∙ ap (λ r. state.1 ++ failure entry.0 r) (parse_setting-verdict entry.0 entry.1))
    ∙ append_assoc state.1 (failure entry.0 (verdict entry.0 entry.1)) (failures input)

-- The answer that is expected: the failures, if there are any, or an object with these properties.
abbrev pub Answers : Errors → (Text → Option Value) → Outcome → Type 0
Answers [] at (accepted fields) = (key : Text) → value_at key fields ≡ at key
Answers (e ∷ errors) at (refused es) = es ≡ e ∷ errors
Answers _ at _ = ⊥

conclude-Answers :
    (value : Fields) (errors : Errors) (at : Text → Option Value)
    → ((key : Text) → value_at key value ≡ at key)
    → Answers errors at (conclude value errors)
unfolding conclude
conclude-Answers value [] at h = h
conclude-Answers value (e ∷ errors) at h = refl

-- A patch is accepted exactly if every entry has one of the 25 known keys and a value that is taken for
-- the kind of that key; the result has the parsed values, and at every other key what stood there
-- before. Otherwise the answer lists exactly the entries that fail, in their order, with the codes of
-- their failures, which is `unknown_key` for a key that is not known.
pub validate-Answers :
    (input : List (Text × Value)) (current : Fields)
    → Answers
        (failures input)
        (λ key. patched_at key input (value_at key current))
        (validate_settings_patch (plain input) current)
unfolding validate_settings_patch
validate-Answers input current =
    let (value, errors) = each_key input (current, []) in
    subst
      (λ es.
        Answers es (λ key. patched_at key input (value_at key current)) (conclude value errors))
      (each_key-errors input (current, []))
      (conclude-Answers value errors _ (λ key. each_key-value key input (current, [])))
