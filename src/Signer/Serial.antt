-- ===== src/Signer/Serial.antt =====
-- The serials of the ledgers, written by the issuer and read by the builder of the revocation list.
use developer_certificates.Common.{
  ℕ, zero, suc, ◌+◌, ◌*◌, ◌/◌, ◌%◌, ◌<◌, ◌≡◌, ◌≢◌, refl, ap, sym, ◌∙◌, some, [], ◌∷◌, ◌++◌, Bytes,
  codes, arith, ltb, ◌==◌, ltb→lt, Bool-cases, inl, inr, strip_prefix,
}
use developer_certificates.Common.Int.{ℤ, pos, negsuc}
use developer_certificates.Effects.{ok}
use developer_certificates.Effects.Keep.{ok_inj}
use developer_certificates.Text.{hex_digit}
use developer_certificates.Signer.{hex_from, text_hex, format_serial}
use developer_certificates.Crl.{digit_value, digits_value, set_string, parse_serial}

digit_value-hex_digit : (d : ℕ) → d < 16 → digit_value (hex_digit d) ≡ some d
unfolding digit_value hex_digit
digit_value-hex_digit d h = ground arith

digits_value-digit :
    (acc d : ℕ) (s : Bytes)
    → d < 16
    → digits_value acc (hex_digit d ∷ s) ≡ digits_value (acc * 16 + d) s
unfolding digits_value
digits_value-digit acc d s h = rw (digit_value-hex_digit d h, digits_value) refl

-- The digits of n, read from the front, are n.
digits_value-hex_from :
    (rounds n : ℕ) (s : Bytes)
    → n < rounds
    → digits_value 0 (hex_from rounds n s) ≡ digits_value n s
unfolding hex_from
digits_value-hex_from zero n s h = absurd (omega arith)
digits_value-hex_from (suc rounds) n s h = elim (Bool-cases (ltb n 16)) [
  | inl small ↦
      let value : 0 * 16 + n ≡ n = omega arith in
      rw small (rw value at (digits_value-digit 0 n s (ltb→lt n 16 small)))
  | inr large ↦
      let front = digits_value-hex_from rounds (n / 16) (hex_digit (n % 16) ∷ s) (ground arith) in
      let last = digits_value-digit (n / 16) (n % 16) s (omega arith) in
      let value : (n / 16) * 16 + n % 16 ≡ n = omega arith in rw large (front ∙ (rw value at last))
]

-- A text of digits has neither sign, and is read as a positive number.
set_string_of_digits :
    (s : Bytes) (n : ℕ) → s ≢ [] → digits_value 0 s ≡ some n → set_string s ≡ some (pos n)
unfolding set_string digits_value digit_value
set_string_of_digits [] n ne h = absurd (ne refl)
set_string_of_digits (c ∷ s) n ne h = elim (Bool-cases (c == b'-')) [
  | inl minus ↦ absurd (ground (arith, h))
  | inr no_minus ↦ elim (Bool-cases (c == b'+')) [
    | inl plus ↦ absurd (ground (arith, h))
    | inr no_plus ↦ rw (no_minus, no_plus, h) refl
  ]
]

hex_from-ne-nil : (rounds n : ℕ) (s : Bytes) → n < rounds → hex_from rounds n s ≢ []
unfolding hex_from
hex_from-ne-nil zero n s h = absurd (omega arith)
hex_from-ne-nil (suc rounds) n s h = elim (Bool-cases (ltb n 16)) [
  | inl small ↦ rw small (λ e. cc e)
  | inr large ↦ rw large (hex_from-ne-nil rounds (n / 16) _ (ground arith))
]

set_string-hex_from : (n : ℕ) → set_string (hex_from (suc n) n []) ≡ some (pos n)
unfolding digits_value
set_string-hex_from n =
    set_string_of_digits _ n (hex_from-ne-nil (suc n) n [] (omega arith))
      (digits_value-hex_from (suc n) n [] (omega arith))

set_string_of_minus :
    (s : Bytes) (n : ℕ)
    → s ≢ []
    → digits_value 0 s ≡ some (suc n)
    → set_string (b'-' ∷ s) ≡ some (negsuc n)
unfolding set_string
set_string_of_minus [] n ne h = absurd (ne refl)
set_string_of_minus (c ∷ s) n ne h = rw h refl

parse_serial_of :
    (quote : Bytes → Bytes) (s : Bytes) (z : ℤ)
    → s ≢ []
    → set_string s ≡ some z
    → parse_serial quote (codes "0x" ++ s) ≡ ok z
unfolding parse_serial strip_prefix codes
parse_serial_of quote [] z ne h = absurd (ne refl)
parse_serial_of quote (c ∷ s) z ne h = rw (h, parse_serial) refl

-- The serial that the issuer writes into a ledger is the one that the list builder reads there.
pub parse_serial-format_serial :
    (quote : Bytes → Bytes) (z : ℤ) → parse_serial quote (format_serial z) ≡ ok z
unfolding format_serial text_hex digits_value
parse_serial-format_serial quote (pos n) =
    parse_serial_of quote _ (pos n) (hex_from-ne-nil (suc n) n [] (omega arith))
      (set_string-hex_from n)
parse_serial-format_serial quote (negsuc n) =
    parse_serial_of quote _ (negsuc n) (λ e. cc e)
      (set_string_of_minus _ n (hex_from-ne-nil (suc (suc n)) (suc n) [] (omega arith))
        (digits_value-hex_from (suc (suc n)) (suc n) [] (omega arith)))

-- Two serials with the same text are the same.
pub format_serial_inj : (y z : ℤ) → format_serial y ≡ format_serial z → y ≡ z
format_serial_inj y z h =
    let quote : Bytes → Bytes = λ s. s in
    ok_inj (
      sym (parse_serial-format_serial quote y)
      ∙ (ap (parse_serial quote) h ∙ parse_serial-format_serial quote z))
