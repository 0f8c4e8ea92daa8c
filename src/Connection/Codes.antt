-- ===== src/Connection/Codes.antt =====
-- The error codes of the connection's services, and keys, which are the JSON texts of arrays.
use usshtc.Prelude.{ℕ, ◌≡◌, refl, Bool, true, false, ◌&&◌, List, [], ◌∷◌, ◌==◌, &&_iff}
use usshtc.Prelude.Text.{Text, text_eq, text_eq_iff}

-- `no_code` stands for null, undefined and any value that no code of the program compares with.
pub data Code : Type 0 where
  no_code : Code
  settings_locked settings_invalid auth_required port_in_use eaddrinuse : Code
  ssh_key_missing ssh_key_invalid ssh_key_fingerprint_mismatch : Code
  timeout remote_ready_timeout tls_failed network_unavailable wss_failed : Code
  proxy_start_failed recovery_exhausted profile_changed shutting_down : Code
  portal_network portal_timeout portal_permission portal_not_found : Code
  portal_unimplemented portal_quota portal_unknown operation_cancelled : Code
  remote_command_failed : Code

-- The codes in the order of their declaration; their texts differ as these numbers do.
abbrev position : Code → ℕ
position no_code = 0
position settings_locked = 1
position settings_invalid = 2
position auth_required = 3
position port_in_use = 4
position eaddrinuse = 5
position ssh_key_missing = 6
position ssh_key_invalid = 7
position ssh_key_fingerprint_mismatch = 8
position timeout = 9
position remote_ready_timeout = 10
position tls_failed = 11
position network_unavailable = 12
position wss_failed = 13
position proxy_start_failed = 14
position recovery_exhausted = 15
position profile_changed = 16
position shutting_down = 17
position portal_network = 18
position portal_timeout = 19
position portal_permission = 20
position portal_not_found = 21
position portal_unimplemented = 22
position portal_quota = 23
position portal_unknown = 24
position operation_cancelled = 25
position remote_command_failed = 26

unfoldable pub code_eq : Code → Code → Bool
code_eq left right = position left == position right

-- The JSON text of an array is known by those of its items.
abbrev pub Key : Type 0
Key = List Text

unfoldable pub key_eq : Key → Key → Bool
key_eq [] [] = true
key_eq [] (_ ∷ _) = false
key_eq (_ ∷ _) [] = false
key_eq (s ∷ left) (t ∷ right) = text_eq s t && key_eq left right

pub key_eq_refl : (key : Key) → key_eq key key ≡ true
unfolding key_eq
key_eq_refl [] = refl
key_eq_refl (s ∷ key) =
    (&&_iff (text_eq s s) (key_eq key key)).1 ((text_eq_iff s s).1 refl, key_eq_refl key)

pub key_eq→eq : (left right : Key) → key_eq left right ≡ true → left ≡ right
unfolding key_eq
key_eq→eq [] [] h = refl
key_eq→eq [] (_ ∷ _) h = cc
key_eq→eq (_ ∷ _) [] h = cc
key_eq→eq (s ∷ left) (t ∷ right) h =
    let (heads, tails) = (&&_iff (text_eq s t) (key_eq left right)).0 h in
    cc ((text_eq_iff s t).0 heads, key_eq→eq left right tails)
