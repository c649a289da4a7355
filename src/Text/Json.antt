-- ===== src/Text/Json.antt =====
-- Strings and numbers as encoding/json writes them with HTML escaping switched off, each in front of
-- what follows it.
pub mod RoundTrip
use developer_certificates.Common.{
  ℕ, zero, suc, ◌+◌, ◌/◌, ◌%◌, Bool, true, false, ◌&&◌, ◌||◌, List, [], ◌∷◌, ◌++◌, Bytes, codes,
  length, ltb, leb, ◌==◌, if◌then◌else◌,
}
use developer_certificates.Common.Int.{ℤ, pos, negsuc}
use developer_certificates.Decimal.{decimal_from}
use developer_certificates.Text.{hex_digit}

abbrev pub Span : Type 0
Span = ℕ × ℕ

abbrev pub within : Span → ℕ → Bool
within (lo, hi) b = leb lo b && leb b hi

-- The ranges of the bytes that may follow the first byte of a rune in UTF-8; none for a byte that is
-- not the first of a longer rune.
unfoldable pub followers : ℕ → List Span
followers b =
    if within (0xC2, 0xDF) b
    then (0x80, 0xBF) ∷ []
    else if b == 0xE0
    then (0xA0, 0xBF) ∷ (0x80, 0xBF) ∷ []
    else if b == 0xED
    then (0x80, 0x9F) ∷ (0x80, 0xBF) ∷ []
    else if within (0xE1, 0xEF) b
    then (0x80, 0xBF) ∷ (0x80, 0xBF) ∷ []
    else if b == 0xF0
    then (0x90, 0xBF) ∷ (0x80, 0xBF) ∷ (0x80, 0xBF) ∷ []
    else if within (0xF1, 0xF3) b
    then (0x80, 0xBF) ∷ (0x80, 0xBF) ∷ (0x80, 0xBF) ∷ []
    else if b == 0xF4
    then (0x80, 0x8F) ∷ (0x80, 0xBF) ∷ (0x80, 0xBF) ∷ []
    else []

unfoldable pub follow : List Span → Bytes → Bool
follow [] s = true
follow (r ∷ rs) [] = false
follow (r ∷ rs) (b ∷ s) = within r b && follow rs s

-- The bytes behind the first byte of the rune that the text begins with, a rune of several bytes; 0
-- where it begins with no such rune.
unfoldable pub rune_tail : ℕ → Bytes → ℕ
rune_tail b s = if follow (followers b) s then length (followers b) else 0

-- U+2028 and U+2029, which are escaped for the sake of JavaScript.
unfoldable pub is_separator : ℕ → Bytes → Bool
is_separator b (c ∷ d ∷ s) = (b == 0xE2) && (c == 0x80) && ((d == 0xA8) || (d == 0xA9))
is_separator b _ = false

unfoldable pub separator_digit : Bytes → ℕ
separator_digit (c ∷ d ∷ s) = if d == 0xA8 then b'8' else b'9'
separator_digit _ = b'8'

-- A byte below 0x80, in front of a rest.
unfoldable pub escape_ascii : ℕ → Bytes → Bytes
escape_ascii b r =
    if (b == 34) || (b == 92)
    then 92 ∷ b ∷ r
    else if leb 32 b
    then b ∷ r
    else if b == 8
    then 92 ∷ b'b' ∷ r
    else if b == 12
    then 92 ∷ b'f' ∷ r
    else if b == 10
    then 92 ∷ b'n' ∷ r
    else if b == 13
    then 92 ∷ b'r' ∷ r
    else if b == 9
    then 92 ∷ b't' ∷ r
    else 92 ∷ b'u' ∷ b'0' ∷ b'0' ∷ hex_digit (b / 16) ∷ hex_digit (b % 16) ∷ r

-- What stands for the byte that the text begins with, when no rune is under way.
unfoldable pub escape_first : ℕ → Bytes → Bytes → Bytes
escape_first b s r =
    if ltb b 0x80
    then escape_ascii b r
    else if is_separator b s
    then 92 ∷ b'u' ∷ b'2' ∷ b'0' ∷ b'2' ∷ separator_digit s ∷ r
    else if rune_tail b s == 0
    then 92 ∷ b'u' ∷ b'f' ∷ b'f' ∷ b'f' ∷ b'd' ∷ r
    else b ∷ r

abbrev pub copied : ℕ → Bytes → ℕ
copied b s = if ltb b 0x80 then 0 else if is_separator b s then 0 else rune_tail b s

abbrev pub dropped : ℕ → Bytes → ℕ
dropped b s = if ltb b 0x80 then 0 else if is_separator b s then 2 else 0

-- The next `copy` bytes are copied, or the next `skip` are left out: those of a rune under way.
unfoldable pub escape : (copy skip : ℕ) → Bytes → Bytes → Bytes
escape copy skip [] r = r
escape (suc copy) skip (b ∷ s) r = b ∷ escape copy skip s r
escape zero (suc skip) (b ∷ s) r = escape zero skip s r
escape zero zero (b ∷ s) r = escape_first b s (escape (copied b s) (dropped b s) s r)

unfoldable pub string : Bytes → Bytes → Bytes
string s r = 34 ∷ escape zero zero s (34 ∷ r)

unfoldable pub int : ℤ → Bytes → Bytes
int (pos n) r = decimal_from (suc n) n r
int (negsuc n) r = b'-' ∷ decimal_from (suc (suc n)) (suc n) r
