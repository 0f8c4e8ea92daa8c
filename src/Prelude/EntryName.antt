-- ===== src/Prelude/EntryName.antt =====
-- The check of a directory entry's name that `validateName` (electron/scp/protocol.js) and the
-- matcher of electron/scp/glob.js make, and what it promises.
use Prim.Native.Nat.{ℕ, ◌<◌}
use mathlib.Core.Path.{◌≡◌, refl}
use mathlib.Core.Logic.{◌≢◌, ◌↔◌, ◌⊎◌}
use mathlib.Core.Bool.{Bool, true, false, not, ◌||◌}
use mathlib.Core.List.{[], ◌∷◌}
use native.Mathlib.Omega.{arith}
use usshtc.Prelude.Lists.{All}
use usshtc.Prelude.Text.{
  Text, codes, is_empty, text_eq, includes, has_control, is_well_formed, text_eq_iff, not-text_eq,
}

-- A unit that may stand in the name of a directory entry.
abbrev pub IsPlain : ℕ → Type 0
IsPlain c = (c ≢ b'/') × (0x1f < c) × ((c < 0x7f) ⊎ (0x9f < c))

-- The name of a directory entry that is safe to pass on.
pub record IsEntryName (name : Text) : Type 0 where
  pub not_empty : name ≢ []
  pub well_formed : is_well_formed name ≡ true
  pub plain : All IsPlain name
  pub not_dot : name ≢ codes "."
  pub not_dots : name ≢ codes ".."

-- The test that several parts of the program make of such a name, in their order.
abbrev pub entry_name_rejected : Text → Bool
entry_name_rejected name =
    is_empty name
    || not (is_well_formed name)
    || includes name b'/'
    || has_control name
    || text_eq name (codes ".")
    || text_eq name (codes "..")

pub IsPlain-All : (s : Text) → includes s b'/' ≡ false → has_control s ≡ false → All IsPlain s
IsPlain-All [] h k = tt
IsPlain-All (c ∷ s) h k =
    ((ground arith, ground arith, ground arith), IsPlain-All s (ground arith) (ground arith))

pub All-plain : (s : Text) → All IsPlain s → (includes s b'/' ≡ false) × (has_control s ≡ false)
All-plain [] h = (refl, refl)
All-plain (c ∷ s) h = (ground (arith, All-plain s h.1), ground (arith, All-plain s h.1))

-- The six tests of the check, taken apart.
pub rejected_parts :
    (a b c d e f : Bool)
    → (a || not b || c || d || e || f) ≡ false
    → (a ≡ false) × (b ≡ true) × (c ≡ false) × (d ≡ false) × (e ≡ false) × (f ≡ false)
rejected_parts a b c d e f h = ground arith

rejected_join :
    (a b c d e f : Bool)
    → a ≡ false
    → b ≡ true
    → c ≡ false
    → d ≡ false
    → e ≡ false
    → f ≡ false
    → (a || not b || c || d || e || f) ≡ false
rejected_join a b c d e f p q r s t u = ground arith

not_empty_iff : (name : Text) → (is_empty name ≡ false) ↔ (name ≢ [])
not_empty_iff [] = (λ h. cc, λ h. absurd (h refl))
not_empty_iff (c ∷ name) = (λ _ e. cc, λ _. refl)

text_ne : (s t : Text) → text_eq s t ≡ false → s ≢ t
text_ne s t h e = cc ((text_eq_iff s t).1 e)

-- The check lets exactly the safe entry names through.
pub IsEntryName-iff : (name : Text) → (entry_name_rejected name ≡ false) ↔ IsEntryName name
IsEntryName-iff name = (accepted, allowed)
  where
    accepted : entry_name_rejected name ≡ false → IsEntryName name
    accepted h =
        let parts =
          rejected_parts (is_empty name) (is_well_formed name) (includes name b'/')
            (has_control name) (text_eq name (codes ".")) (text_eq name (codes "..")) h in
        record {
          not_empty = (not_empty_iff name).0 parts.0;
          well_formed = parts.1;
          plain = IsPlain-All name parts.2 parts.3;
          not_dot = text_ne name (codes ".") parts.4;
          not_dots = text_ne name (codes "..") parts.5;
        }

    allowed : IsEntryName name → entry_name_rejected name ≡ false
    allowed n =
        let (slash, control) = All-plain name n.plain in
        rejected_join (is_empty name) (is_well_formed name) (includes name b'/') (has_control name)
          (text_eq name (codes ".")) (text_eq name (codes ".."))
          ((not_empty_iff name).1 n.not_empty) n.well_formed slash control
          (not-text_eq name (codes ".") n.not_dot) (not-text_eq name (codes "..") n.not_dots)
