-- ===== src/Settings/Patch/Known.antt =====
-- The settings that shared/settings-schema.mjs knows, by what they may be.
use usshtc.Prelude.{
  ◌*◌, ◌≡◌, refl, sym, ap, ◌∙◌, Bool, true, false, List, [], ◌∷◌, ◌++◌, Option, none, some,
  if◌then◌else◌, Result, err, any, All, Bool-cases, inl, inr,
}
use usshtc.Prelude.Text.{Text, codes, text_eq, text_eq_iff}
use usshtc.Prelude.Dynamic.{Value}
use usshtc.Settings.Clean.{Code, unknown_key}
use usshtc.Settings.Rules.{
  Rule, integer_in, token, host, path, startup_command, flag, one_of, apply, validators,
}
use usshtc.Settings.Patch.{find_rule, by_rule, parse_setting}
use mathlib.Core.Path.{subst}

-- The settings that are flags, and those that are hosts.
abbrev pub flag_names : List Text
flag_names =
    codes "healthProbeEnabled"
    ∷ codes "validateTokenPeriodically"
    ∷ codes "scpNoOverwrite"
    ∷ codes "useRoot"
    ∷ codes "autoConnect"
    ∷ codes "startMinimized"
    ∷ codes "launchAtLogin"
    ∷ codes "reconnectOnResume"
    ∷ codes "autoCheckUpdates"
    ∷ codes "notifyConnections"
    ∷ codes "notifyAuth"
    ∷ codes "notifyRecovery"
    ∷ codes "notifyUpdates"
    ∷ []

abbrev pub host_names : List Text
host_names = codes "host" ∷ codes "loginNode" ∷ []

-- What a setting may be, by its kind: ports, sizes and dimensions have bounds.
abbrev pub kinds : List (List Text × Rule)
kinds =
    (codes "port" ∷ [], integer_in 1 65535)
    ∷ (codes "cols" ∷ [], integer_in 40 500)
    ∷ (codes "rows" ∷ [], integer_in 10 200)
    ∷ (codes "scpMaxFileBytes" ∷ [], integer_in 1 (1024 * 1024 * 1024))
    ∷ (host_names, host)
    ∷ (codes "cluster" ∷ [], token 128)
    ∷ (codes "sshAlias" ∷ [], token 64)
    ∷ (codes "path" ∷ [], path)
    ∷ (codes "startupCommand" ∷ [], startup_command)
    ∷ (codes "theme" ∷ [], one_of (codes "dark" ∷ codes "light" ∷ []))
    ∷ (codes "locale" ∷ [], one_of (codes "en" ∷ codes "zh" ∷ []))
    ∷ (flag_names, flag)
    ∷ []

abbrev pub is_in : Text → List Text → Bool
is_in key names = any (text_eq key) names

abbrev kind_in : List (List Text × Rule) → Text → Option Rule
kind_in [] key = none
kind_in ((names, rule) ∷ others) key = if is_in key names then some rule else kind_in others key

abbrev pub kind_of : Text → Option Rule
kind_of key = kind_in kinds key

-- The value or the code that is expected of an entry: a key that is not known is refused.
abbrev pub verdict_by : Option Rule → Value → Result Code Value
verdict_by none v = err unknown_key
verdict_by (some rule) v = apply rule v

abbrev pub verdict : Text → Value → Result Code Value
verdict key v = verdict_by (kind_of key) v

abbrev all_names : List (List Text × Rule) → List Text
all_names [] = []
all_names ((names, rule) ∷ others) = names ++ all_names others

any-left : (key : Text) (xs ys : List Text) → is_in key (xs ++ ys) ≡ false → is_in key xs ≡ false
any-left key [] ys h = refl
any-left key (x ∷ xs) ys h = elim (Bool-cases (text_eq key x)) [
  | inl e ↦ cc (rw e at h)
  | inr e ↦ rw e (any-left key xs ys (rw e at h))
]

any-right : (key : Text) (xs ys : List Text) → is_in key (xs ++ ys) ≡ false → is_in key ys ≡ false
any-right key [] ys h = h
any-right key (x ∷ xs) ys h = elim (Bool-cases (text_eq key x)) [
  | inl e ↦ cc (rw e at h)
  | inr e ↦ any-right key xs ys (rw e at h)
]

kind_in-none :
    (key : Text) (table : List (List Text × Rule))
    → is_in key (all_names table) ≡ false
    → kind_in table key ≡ none
kind_in-none key [] h = refl
kind_in-none key ((names, rule) ∷ others) h =
    rw (any-left key names (all_names others) h)
      (kind_in-none key others (any-right key names (all_names others) h))

-- A property of all names holds of a key that is one of them.
of_name :
    (P : Text → Type 0) (key : Text) (names : List Text)
    → All P names
    → is_in key names ≡ true
    → P key
of_name P key [] h e = cc
of_name P key (name ∷ names) (h, hs) e = elim (Bool-cases (text_eq key name)) [
  | inl t ↦ subst P (sym ((text_eq_iff key name).0 t)) h
  | inr t ↦ of_name P key names hs (rw t at e)
]

find_rule-none :
    (key : Text) (names : List Text) (table : List (Text × Rule))
    → All (λ (entry : Text × Rule). is_in entry.0 names ≡ true) table
    → is_in key names ≡ false
    → find_rule key table ≡ none
unfolding find_rule
find_rule-none key names [] h e = refl
find_rule-none key names (entry ∷ table) (h, hs) e = elim (Bool-cases (text_eq entry.0 key)) [
  | inl t ↦ cc (subst (λ k. is_in k names ≡ true) ((text_eq_iff entry.0 key).0 t) h, e)
  | inr t ↦ rw t (find_rule-none key names table hs e)
]

abbrev Agrees : Text → Type 0
Agrees key = find_rule key validators ≡ kind_of key

names-Agrees : All Agrees (all_names kinds)
unfolding find_rule
names-Agrees = (
  refl,
  (
    refl,
    (
      refl,
      (
        refl,
        (
          refl,
          (
            refl,
            (
              refl,
              (
                refl,
                (
                  refl,
                  (
                    refl,
                    (
                      refl,
                      (
                        refl,
                        (
                          refl,
                          (
                            refl,
                            (
                              refl,
                              (
                                refl,
                                (
                                  refl,
                                  (
                                    refl,
                                    (refl, (refl, (refl, (refl, (refl, (refl, (refl, tt))))))),
                                  ),
                                ),
                              ),
                            ),
                          ),
                        ),
                      ),
                    ),
                  ),
                ),
              ),
            ),
          ),
        ),
      ),
    ),
  ),
)

validators-known : All (λ (entry : Text × Rule). is_in entry.0 (all_names kinds) ≡ true) validators
validators-known = (
  refl,
  (
    refl,
    (
      refl,
      (
        refl,
        (
          refl,
          (
            refl,
            (
              refl,
              (
                refl,
                (
                  refl,
                  (
                    refl,
                    (
                      refl,
                      (
                        refl,
                        (
                          refl,
                          (
                            refl,
                            (
                              refl,
                              (
                                refl,
                                (
                                  refl,
                                  (
                                    refl,
                                    (refl, (refl, (refl, (refl, (refl, (refl, (refl, tt))))))),
                                  ),
                                ),
                              ),
                            ),
                          ),
                        ),
                      ),
                    ),
                  ),
                ),
              ),
            ),
          ),
        ),
      ),
    ),
  ),
)

-- The table of the code gives every key the rule of its kind.
pub find_rule-kind : (key : Text) → find_rule key validators ≡ kind_of key
find_rule-kind key = elim (Bool-cases (is_in key (all_names kinds))) [
  | inl e ↦ of_name Agrees key (all_names kinds) names-Agrees e
  | inr e ↦
      find_rule-none key (all_names kinds) validators validators-known e
      ∙ sym (kind_in-none key kinds e)
]

by_rule-verdict : (o : Option Rule) (v : Value) → by_rule o v ≡ verdict_by o v
unfolding by_rule
by_rule-verdict none v = refl
by_rule-verdict (some rule) v = refl

pub parse_setting-verdict : (key : Text) (v : Value) → parse_setting key v ≡ verdict key v
unfolding parse_setting
parse_setting-verdict key v =
    by_rule-verdict (find_rule key validators) v ∙ ap (λ o. verdict_by o v) (find_rule-kind key)
