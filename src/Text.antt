-- ===== src/Text.antt =====
-- The functions of Go's strings and encoding/hex packages that the program calls, byte by byte.
pub mod Json
pub mod Scan
pub mod Trim
pub mod Hex
use developer_certificates.Common.{
  ℕ, suc, ◌+◌, ◌/◌, ◌%◌, Bool, true, false, ◌||◌, Option, none, some, List, [], ◌∷◌, ◌++◌, map,
  reverse, Bytes, codes, strip_prefix, ltb, ◌==◌, if◌then◌else◌,
}

-- The rest of the text behind the first of the words that it begins with.
unfoldable pub strip_any : List Bytes → Bytes → Option Bytes
unfolding strip_prefix
strip_any [] s = none
strip_any (w ∷ ws) s =
    let later = strip_any ws s in elim (strip_prefix w s) [ none ↦ later | some r ↦ some r ]

-- Every word of `ws` taken off the front. Each takes a byte, so the text itself bounds the rounds.
unfoldable pub trim_from : List Bytes → Bytes → Bytes → Bytes
unfolding strip_any
trim_from ws [] s = s
trim_from ws (_ ∷ rounds) s = elim (strip_any ws s) [ none ↦ s | some r ↦ trim_from ws rounds r ]

-- The white space of unicode.IsSpace in UTF-8: the six ASCII ones, U+0085, U+00A0, U+1680,
-- U+2000 to U+200A, U+2028, U+2029, U+202F, U+205F and U+3000.
unfoldable pub spaces : List Bytes
spaces =
    (9 ∷ [])
    ∷ (10 ∷ [])
    ∷ (11 ∷ [])
    ∷ (12 ∷ [])
    ∷ (13 ∷ [])
    ∷ (32 ∷ [])
    ∷ (0xc2 ∷ 0x85 ∷ [])
    ∷ (0xc2 ∷ 0xa0 ∷ [])
    ∷ (0xe1 ∷ 0x9a ∷ 0x80 ∷ [])
    ∷ (0xe2 ∷ 0x80 ∷ 0x80 ∷ [])
    ∷ (0xe2 ∷ 0x80 ∷ 0x81 ∷ [])
    ∷ (0xe2 ∷ 0x80 ∷ 0x82 ∷ [])
    ∷ (0xe2 ∷ 0x80 ∷ 0x83 ∷ [])
    ∷ (0xe2 ∷ 0x80 ∷ 0x84 ∷ [])
    ∷ (0xe2 ∷ 0x80 ∷ 0x85 ∷ [])
    ∷ (0xe2 ∷ 0x80 ∷ 0x86 ∷ [])
    ∷ (0xe2 ∷ 0x80 ∷ 0x87 ∷ [])
    ∷ (0xe2 ∷ 0x80 ∷ 0x88 ∷ [])
    ∷ (0xe2 ∷ 0x80 ∷ 0x89 ∷ [])
    ∷ (0xe2 ∷ 0x80 ∷ 0x8a ∷ [])
    ∷ (0xe2 ∷ 0x80 ∷ 0xa8 ∷ [])
    ∷ (0xe2 ∷ 0x80 ∷ 0xa9 ∷ [])
    ∷ (0xe2 ∷ 0x80 ∷ 0xaf ∷ [])
    ∷ (0xe2 ∷ 0x81 ∷ 0x9f ∷ [])
    ∷ (0xe3 ∷ 0x80 ∷ 0x80 ∷ [])
    ∷ []

unfoldable pub trim_left : Bytes → Bytes
unfolding trim_from spaces
trim_left s = trim_from spaces s s

unfoldable pub trim_right : Bytes → Bytes
unfolding trim_from spaces
trim_right s = reverse (trim_from (map reverse spaces) s (reverse s))

-- strings.TrimSpace
unfoldable pub trim_space : Bytes → Bytes
unfolding trim_left trim_right
trim_space s = trim_right (trim_left s)

-- strings.TrimRight at one byte.
unfoldable pub trim_right_byte : ℕ → Bytes → Bytes
unfolding trim_from
trim_right_byte x s = reverse (trim_from ((x ∷ []) ∷ []) s (reverse s))

-- strings.TrimPrefix
unfoldable pub trim_prefix : Bytes → Bytes → Bytes
unfolding strip_prefix
trim_prefix w s = elim (strip_prefix w s) [ none ↦ s | some r ↦ r ]

-- strings.ReplaceAll(s, x, "") for one byte.
unfoldable pub remove_byte : ℕ → Bytes → Bytes
remove_byte x [] = []
remove_byte x (b ∷ s) = if b == x then remove_byte x s else b ∷ remove_byte x s

-- strings.Index; `none` is -1.
unfoldable pub index : Bytes → Bytes → Option ℕ
unfolding strip_prefix
index sub [] = elim (strip_prefix sub []) [ none ↦ none | some _ ↦ some 0 ]
index sub (x ∷ s) =
    let later : Option ℕ = elim (index sub s) [ none ↦ none | some i ↦ some (suc i) ] in
    elim (strip_prefix sub (x ∷ s)) [ none ↦ later | some _ ↦ some 0 ]

unfoldable pub contains_byte : ℕ → Bytes → Bool
contains_byte x [] = false
contains_byte x (b ∷ s) = b == x || contains_byte x s

-- What follows the last byte `x`, or the whole text where there is none:
-- s[strings.LastIndex(s, x)+1:].
unfoldable pub after_last : ℕ → Bytes → Bytes
after_last x [] = []
after_last x (b ∷ s) =
    let rest = after_last x s in if contains_byte x s then rest else if b == x then s else b ∷ s

-- strings.HasPrefix
unfoldable pub has_prefix : Bytes → Bytes → Bool
unfolding strip_prefix
has_prefix s w = elim (strip_prefix w s) [ none ↦ false | some _ ↦ true ]

abbrev first_onto : ℕ → List Bytes → List Bytes
first_onto x [] = (x ∷ []) ∷ []
first_onto x (p ∷ ps) = (x ∷ p) ∷ ps

-- strings.Split at a separator of one byte.
unfoldable pub split : ℕ → Bytes → List Bytes
split sep [] = [] ∷ []
split sep (x ∷ s) = if x == sep then [] ∷ split sep s else first_onto x (split sep s)

-- strings.Join with a separator of one byte.
unfoldable pub join : ℕ → List Bytes → Bytes
join sep [] = []
join sep (p ∷ []) = p
join sep (p ∷ q ∷ ps) = p ++ sep ∷ join sep (q ∷ ps)

-- A lowercase hexadecimal digit.
unfoldable pub hex_digit : ℕ → ℕ
hex_digit d = if ltb d 10 then 48 + d else 87 + d

-- hex.EncodeToString
unfoldable pub hex_encode : Bytes → Bytes
unfolding hex_digit
hex_encode [] = []
hex_encode (b ∷ s) = hex_digit (b / 16) ∷ hex_digit (b % 16) ∷ hex_encode s
