-- ===== src/Text/Json/RoundTrip.antt =====
-- A reader of the strings and numbers that are written, and that it undoes the writing.
use developer_certificates.Common.{
  ℕ, zero, suc, ◌+◌, ◌-◌, ◌*◌, ◌/◌, ◌%◌, ◌≤◌, ◌<◌, ◌≡◌, ◌≢◌, ◌⊎◌, inl, inr, refl, ap, ◌∙◌, true,
  false, ◌&&◌, [], ◌∷◌, ◌++◌, Bytes, Option, none, some, ltb, leb, ◌==◌, if◌then◌else◌, arith,
  Bool-cases, ltb→lt, strip_prefix, strip_prefix-append, All,
}
use developer_certificates.Common.Int.{ℤ, pos, negsuc}
use developer_certificates.Decimal.{decimal_from}
use developer_certificates.Text.{hex_digit}
use developer_certificates.Text.Json.{
  is_separator, rune_tail, copied, dropped, escape_ascii, escape_first, escape, string, int,
}
use developer_certificates.Text.Scan.{Scan}

-- Where the reader stands in a string: between characters, behind a backslash, or in front of the
-- last hexadecimal digits of a character with the digits before as a number.
pub data Place : Type 0 where
  plain slash : Place
  digits : ℕ → ℕ → Place

abbrev push : Bytes → Option (Bytes × Bytes) → Option (Bytes × Bytes)
push b none = none
push b (some (s, r)) = some (b ++ s, r)

unfoldable pub hex_value : ℕ → ℕ
hex_value c = if leb c b'9' then c - 48 else c - 87

unfoldable pub unescaped : ℕ → ℕ
unescaped c =
    if c == b'b'
    then 8
    else if c == b'f'
    then 12
    else if c == b'n'
    then 10
    else if c == b'r'
    then 13
    else if c == b't'
    then 9
    else c

-- A rune below 0x10000 in UTF-8.
unfoldable pub utf8 : ℕ → Bytes
utf8 c =
    if ltb c 0x80
    then c ∷ []
    else if ltb c 0x800
    then (0xC0 + c / 64) ∷ (0x80 + c % 64) ∷ []
    else (0xE0 + c / 4096) ∷ (0x80 + c / 64 % 64) ∷ (0x80 + c % 64) ∷ []

unfoldable pub scan_body : Place → Scan Bytes
scan_body at [] = none
scan_body plain (b ∷ s) =
    let rest = scan_body (if b == 92 then slash else plain) s in
    if b == 34 then some ([], s) else if b == 92 then rest else push (b ∷ []) rest
scan_body slash (b ∷ s) =
    let rest = scan_body (if b == b'u' then digits 3 0 else plain) s in
    if b == b'u' then rest else push (unescaped b ∷ []) rest
scan_body (digits zero n) (b ∷ s) = push (utf8 (16 * n + hex_value b)) (scan_body plain s)
scan_body (digits (suc k) n) (b ∷ s) = scan_body (digits k (16 * n + hex_value b)) s

unfoldable pub scan_string : Scan Bytes
scan_string [] = none
scan_string (b ∷ s) = if b == 34 then scan_body plain s else none

-- A text in UTF-8 with no separator, when `n` bytes of a rune are under way.
abbrev pub IsText : ℕ → Bytes → Type 0
IsText n [] = n ≡ 0
IsText (suc n) (b ∷ s) = (0x80 ≤ b) × IsText n s
IsText zero (b ∷ s) =
    ((b < 0x80) × IsText zero s)
    ⊎ ((0x80 ≤ b) × (is_separator b s ≡ false) × (rune_tail b s ≢ 0) × IsText (rune_tail b s) s)

scan-escape_ascii :
    (b : ℕ) (r : Bytes)
    → b < 0x80
    → scan_body plain (escape_ascii b r) ≡ push (b ∷ []) (scan_body plain r)
unfolding scan_body escape_ascii unescaped utf8 hex_value hex_digit
scan-escape_ascii b r h = ground arith

scan-high :
    (b : ℕ) (r : Bytes) → 0x80 ≤ b → scan_body plain (b ∷ r) ≡ push (b ∷ []) (scan_body plain r)
unfolding scan_body
scan-high b r h = ground arith

escape_first-low :
    (b : ℕ) (s r : Bytes)
    → b < 0x80
    → escape_first b s (escape (copied b s) (dropped b s) s r)
      ≡ escape_ascii b (escape zero zero s r)
unfolding escape_first
escape_first-low b s r h = let low : ltb b 0x80 ≡ true = ground arith in rw low refl

escape_first-high :
    (b : ℕ) (s r : Bytes)
    → 0x80 ≤ b
    → is_separator b s ≡ false
    → rune_tail b s ≢ 0
    → escape_first b s (escape (copied b s) (dropped b s) s r) ≡ b ∷ escape (rune_tail b s) zero s r
unfolding escape_first
escape_first-high b s r h plain_rune valid =
    let high : ltb b 0x80 ≡ false = ground arith in
    let some_rune : (rune_tail b s == 0) ≡ false = ground arith in
    rw (high, plain_rune, some_rune) refl

scan_body-escape :
    (n : ℕ) (s r : Bytes) → IsText n s → scan_body plain (escape n zero s (34 ∷ r)) ≡ some (s, r)
unfolding escape
scan_body-escape n [] r h = unfold scan_body in refl
scan_body-escape (suc n) (b ∷ s) r (high, rest) =
    scan-high b _ high ∙ ap (push (b ∷ [])) (scan_body-escape n s r rest)
scan_body-escape zero (b ∷ s) r (inl (low, rest)) =
    ap (scan_body plain) (escape_first-low b s (34 ∷ r) low)
    ∙ (scan-escape_ascii b _ low ∙ ap (push (b ∷ [])) (scan_body-escape zero s r rest))
scan_body-escape zero (b ∷ s) r (inr (high, bare, valid, rest)) =
    ap (scan_body plain) (escape_first-high b s (34 ∷ r) high bare valid)
    ∙ (scan-high b _ high ∙ ap (push (b ∷ [])) (scan_body-escape (rune_tail b s) s r rest))

-- A text in UTF-8 is read back from the string that it is written as.
pub scan_string-string : (s r : Bytes) → IsText zero s → scan_string (string s r) ≡ some (s, r)
unfolding scan_string string
scan_string-string s r h = scan_body-escape zero s r h

unfoldable pub scan_digits : ℕ → Bytes → ℕ × Bytes
scan_digits n [] = (n, [])
scan_digits n (b ∷ s) =
    let more = scan_digits (10 * n + (b - 48)) s in
    if leb 48 b && leb b 57 then more else (n, b ∷ s)

unfoldable pub scan_int : Scan ℤ
scan_int s = elim (strip_prefix (b'-' ∷ []) s) [
  | none ↦ (let (n, r) = scan_digits 0 s in some (pos n, r))
  | some t ↦ (let (n, r) = scan_digits 0 t in some (negsuc (n - 1), r))
]

scan_digits-digit :
    (n d : ℕ) (s : Bytes) → d < 10 → scan_digits n ((48 + d) ∷ s) ≡ scan_digits (10 * n + d) s
unfolding scan_digits
scan_digits-digit n d s h = ground arith

scan_digits-decimal_from :
    (rounds n : ℕ) (s : Bytes)
    → n < rounds
    → scan_digits 0 (decimal_from rounds n s) ≡ scan_digits n s
unfolding decimal_from
scan_digits-decimal_from zero n s h = absurd (omega (arith, h))
scan_digits-decimal_from (suc rounds) n s h = elim (Bool-cases (ltb n 10)) [
  | inl last ↦
      rw last (scan_digits-digit 0 n s (ltb→lt n 10 last) ∙ ap (λ k. scan_digits k s) (omega arith))
  | inr more ↦
      let ten : 10 ≤ n = ground arith in
      rw more (
        scan_digits-decimal_from rounds (n / 10) _ (omega (arith, h, ten))
        ∙ (scan_digits-digit (n / 10) (n % 10) s (omega arith)
            ∙ ap (λ k. scan_digits k s) (omega arith)))
]

-- The text does not go on with a digit.
abbrev pub Ends : Bytes → Type 0
Ends [] = Unit
Ends (b ∷ s) = (leb 48 b && leb b 57) ≡ false

scan_digits-end : (n : ℕ) (s : Bytes) → Ends s → scan_digits n s ≡ (n, s)
unfolding scan_digits
scan_digits-end n [] h = refl
scan_digits-end n (b ∷ s) h = rw h refl

unsigned :
    (rounds n : ℕ) (s : Bytes)
    → n < rounds
    → strip_prefix (b'-' ∷ []) (decimal_from rounds n s) ≡ none
unfolding decimal_from strip_prefix
unsigned zero n s h = absurd (omega (arith, h))
unsigned (suc rounds) n s h = elim (Bool-cases (ltb n 10)) [
  | inl last ↦ rw last (ground arith)
  | inr more ↦
      let ten : 10 ≤ n = ground arith in
      rw more (unsigned rounds (n / 10) _ (omega (arith, h, ten)))
]

-- A number is read back, in front of anything but a digit.
pub scan_int-int : (z : ℤ) (r : Bytes) → Ends r → scan_int (int z r) ≡ some (z, r)
unfolding scan_int int
scan_int-int (pos n) r h =
    let number = scan_digits-decimal_from (suc n) n r (omega arith) ∙ scan_digits-end n r h in
    rw (unsigned (suc n) n r (omega arith), scan_int) (ap (λ p. some (pos p.0, p.1)) number)
scan_int-int (negsuc n) r h =
    let number =
      scan_digits-decimal_from (suc (suc n)) (suc n) r (omega arith)
      ∙ scan_digits-end (suc n) r h in
    rw (strip_prefix-append (b'-' ∷ []) (decimal_from (suc (suc n)) (suc n) r), scan_int)
      (ap (λ p. some (negsuc (p.0 - 1), p.1)) number ∙ ap (λ k. some (negsuc k, r)) (omega arith))

pub IsText-of_ascii : (s : Bytes) → All (λ b. b < 0x80) s → IsText zero s
IsText-of_ascii [] h = refl
IsText-of_ascii (b ∷ s) (here, rest) = inl (here, IsText-of_ascii s rest)
