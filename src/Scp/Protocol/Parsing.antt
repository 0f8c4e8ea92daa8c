-- ===== src/Scp/Protocol/Parsing.antt =====
-- What electron/scp/protocol.js writes as the line of a record, it reads as that record.
use usshtc.Prelude.{
  ℕ, ◌≤◌, ◌<◌, ◌≡◌, refl, inl, inr, Bool, true, false, not, ◌&&◌, [], Option, none, some,
  if◌then◌else◌, ◌==◌, any, Result, ok, err, ◌>>=◌, arith, Bool-cases, All, ◌≢◌,
}
use usshtc.Prelude.Text.{Text, is_empty, has_control, is_well_formed, includes, text_eq, codes}
use usshtc.Prelude.EntryName.{entry_name_rejected, rejected_parts}
use usshtc.Prelude.Decimal.{decimal}
use usshtc.Scp.Protocol.Limits.{
  ProtocolError, invalid_number, Limits, bounded, directory_size, malformed_entry,
}
use usshtc.Scp.Protocol.Lines.{
  Record, ack, end_entry, peer_error, entry, times, validate_name, is_line_end, entry_record,
  time_record, parse_line, octal, message_checked, print_line, max_integer, max_microseconds, space,
}
use usshtc.Prelude.Utf8.{IsUnit}
use usshtc.Scp.Protocol.Fields.{
  entry_match-print, time_match-print, IsPlainText, space-IsPlainText, decimal-IsPlainText,
  octal-ascii, octal-no_control, decimal-ascii, decimal-no_control,
}
use usshtc.Prelude.{Holds, Holds-chain, Holds-guard, All}
use usshtc.Prelude.Utf8.{IsUnit}

-- A record that JavaScript can hold.
abbrev pub IsPrintable : Record → Type 0
IsPrintable ack = Unit
IsPrintable end_entry = Unit
IsPrintable (peer_error fatal message) = All IsUnit message
IsPrintable (entry directory mode size name) = All IsUnit name
IsPrintable (times a b c d) = Unit

-- What becomes of a record that is written and read: the name of an entry may hold a separator of
-- lines, which its pattern does not match.
abbrev pub read_back : Record → Result ProtocolError Record
read_back (entry directory mode size name) =
    if any is_line_end name then err malformed_entry else ok (entry directory mode size name)
read_back r = ok r

-- The line of a record is read with this result.
pub record IsLineOf (limits : Limits) (outcome : Result ProtocolError Record) (type : ℕ)
    (text : Text) : Type 0 where
  pub parsed : parse_line limits type text ≡ outcome
  pub typed : (0 < type) × (type < 0x80) × (type ≢ 10)
  pub plain : IsPlainText text

abbrev pub Printed : Limits → Record → Option (ℕ × Text) → Type 0
Printed limits r none = r ≡ ack
Printed limits r (some (type, text)) = IsLineOf limits (read_back r) type text

-- A checked number is the number, and it is checked again alike.
pub Holds-bounded :
    (n maximum : ℕ) (error : ProtocolError)
    → Holds
        (λ m. (m ≡ n) × (n ≤ maximum) × (bounded n maximum error ≡ ok n))
        (bounded n maximum error)
unfolding bounded
Holds-bounded n maximum error = ground arith

Holds-message :
    (message : Text)
    → Holds
        (λ m. (m ≡ message) × (is_well_formed message ≡ true) × (has_control message ≡ false))
        (message_checked message)
unfolding message_checked
Holds-message message = ground arith

Holds-name :
    (name : Text)
    → Holds (λ m. (m ≡ name) × (entry_name_rejected name ≡ false)) (validate_name name)
unfolding validate_name
Holds-name name = ground arith

name_parts :
    (name : Text)
    → entry_name_rejected name ≡ false
    → (is_empty name ≡ false) × (is_well_formed name ≡ true) × (has_control name ≡ false)
name_parts name h =
    let p =
      rejected_parts (is_empty name) (is_well_formed name) (includes name b'/') (has_control name)
        (text_eq name (codes ".")) (text_eq name (codes "..")) h in
    (p.0, p.1, p.3)

entry_parsed :
    (limits : Limits) (directory : Bool) (mode size : ℕ) (name : Text)
    → mode ≤ 4095
    → bounded size limits.max_file_bytes invalid_number ≡ ok size
    → (directory && not (size == 0)) ≡ false
    → entry_name_rejected name ≡ false
    → has_control (space (octal mode) (space (decimal size) name)) ≡ false
    → parse_line limits
        (if directory then 68 else 67)
        (space (octal mode) (space (decimal size) name))
      ≡ read_back (entry directory mode size name)
unfolding parse_line entry_record validate_name
entry_parsed limits true mode size name m b d n c =
    rw (c, entry_match-print mode size name m (name_parts name n).0)
      (elim (Bool-cases (any is_line_end name)) [
        | inl e ↦ rw e refl
        | inr e ↦ rw (e, b, d, n) refl
      ])
entry_parsed limits false mode size name m b d n c =
    rw (c, entry_match-print mode size name m (name_parts name n).0)
      (elim (Bool-cases (any is_line_end name)) [ inl e ↦ rw e refl | inr e ↦ rw (e, b, n) refl ])

entry-IsLineOf :
    (limits : Limits) (directory : Bool) (mode size : ℕ) (name : Text)
    → mode ≤ 4095
    → bounded size limits.max_file_bytes invalid_number ≡ ok size
    → (directory && not (size == 0)) ≡ false
    → entry_name_rejected name ≡ false
    → All IsUnit name
    → IsLineOf limits
        (read_back (entry directory mode size name))
        (if directory then 68 else 67)
        (space (octal mode) (space (decimal size) name))
entry-IsLineOf limits directory mode size name m b d n u =
    let safe : IsPlainText name = record {
      uncontrolled = (name_parts name n).2;
      well_formed = (name_parts name n).1;
      units = u;
    } in
    let tail =
      space-IsPlainText (decimal size) name (decimal-ascii size) (decimal-no_control size) safe in
    let whole =
      space-IsPlainText (octal mode) (space (decimal size) name) (octal-ascii mode)
        (octal-no_control mode) tail in
    record {
      parsed = entry_parsed limits directory mode size name m b d n whole.uncontrolled;
      typed = (ground arith, ground arith, ground arith);
      plain = whole;
    }

times-IsPlainText :
    (a b c d : ℕ)
    → IsPlainText (space (decimal a) (space (decimal b) (space (decimal c) (decimal d))))
times-IsPlainText a b c d =
    let before = λ (n : ℕ) (t : Text).
      space-IsPlainText (decimal n) t (decimal-ascii n) (decimal-no_control n) in
    before a _ (before b _ (before c _ (decimal-IsPlainText d)))

times-IsLineOf :
    (limits : Limits) (a b c d : ℕ)
    → bounded a max_integer invalid_number ≡ ok a
    → bounded b max_microseconds invalid_number ≡ ok b
    → bounded c max_integer invalid_number ≡ ok c
    → bounded d max_microseconds invalid_number ≡ ok d
    → IsLineOf limits
        (ok (times a b c d))
        84
        (space (decimal a) (space (decimal b) (space (decimal c) (decimal d))))
unfolding parse_line time_record
times-IsLineOf limits a b c d p q r s =
    let text = times-IsPlainText a b c d in
    record {
      parsed = rw (text.uncontrolled, time_match-print a b c d, p, q, r, s) refl;
      typed = (omega arith, omega arith, λ e. omega arith);
      plain = text;
    }

message-IsLineOf :
    (limits : Limits) (fatal : Bool) (message : Text)
    → IsPlainText message
    → IsLineOf limits (ok (peer_error fatal message)) (if fatal then 2 else 1) message
unfolding parse_line
message-IsLineOf limits true message p = record {
  parsed = rw p.uncontrolled refl;
  typed = (omega arith, omega arith, λ e. omega arith);
  plain = p;
}
message-IsLineOf limits false message p = record {
  parsed = rw p.uncontrolled refl;
  typed = (omega arith, omega arith, λ e. omega arith);
  plain = p;
}

empty-IsPlainText : IsPlainText []
unfolding is_well_formed
empty-IsPlainText = record { uncontrolled = refl; well_formed = refl; units = tt }

module _ {A : Type 0} (P : A → Type 0) where
  Holds-number :
      (n maximum : ℕ) (error : ProtocolError) (next : ℕ → Result ProtocolError A)
      → (n ≤ maximum → bounded n maximum error ≡ ok n → Holds P (next n))
      → Holds P (bounded n maximum error >>= next)
  Holds-number n maximum error next h =
      Holds-chain P (λ m. (m ≡ n) × (n ≤ maximum) × (bounded n maximum error ≡ ok n))
        (bounded n maximum error) next (Holds-bounded n maximum error) (λ m k. rw (k.0) (h k.1 k.2))

pub print_line-Printed :
    (limits : Limits) (r : Record) → IsPrintable r → Holds (Printed limits r) (print_line limits r)
unfolding print_line
print_line-Printed limits ack p = refl
print_line-Printed limits end_entry p = record {
  parsed = unfold parse_line in refl;
  typed = (omega arith, omega arith, λ e. omega arith);
  plain = empty-IsPlainText;
}
print_line-Printed limits (peer_error fatal message) p =
    Holds-chain (Printed limits (peer_error fatal message))
      (λ m. (m ≡ message) × (is_well_formed message ≡ true) × (has_control message ≡ false))
      (message_checked message) _ (Holds-message message)
      (λ m h. rw (h.0) (
        message-IsLineOf limits fatal message
          (record { uncontrolled = h.2; well_formed = h.1; units = p })))
print_line-Printed limits (entry directory mode size name) p =
    let P = Printed limits (entry directory mode size name) in
    Holds-number P mode 4095 invalid_number _ λ m _.
      Holds-number P size limits.max_file_bytes invalid_number _ λ _ b.
        Holds-guard P (not (directory && not (size == 0))) directory_size _ λ d.
          Holds-chain P (λ n. (n ≡ name) × (entry_name_rejected name ≡ false)) (validate_name name)
            (λ safe.
              ok (
                some
                  (if directory then 68 else 67, space (octal mode) (space (decimal size) safe))))
            (Holds-name name)
            λ n h.
              rw (h.0) (entry-IsLineOf limits directory mode size name m b (ground arith) h.1 p)
print_line-Printed limits (times a b c d) p =
    let P = Printed limits (times a b c d) in
    Holds-number P a max_integer invalid_number _ λ _ i.
      Holds-number P b max_microseconds invalid_number _ λ _ j.
        Holds-number P c max_integer invalid_number _ λ _ k.
          Holds-number P d max_microseconds invalid_number _
            λ _ l. times-IsLineOf limits a b c d i j k l
