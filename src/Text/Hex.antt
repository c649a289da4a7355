-- ===== src/Text/Hex.antt =====
-- The hexadecimal digits of a byte string.
use developer_certificates.Common.{
  ℕ, ◌*◌, ◌/◌, ◌%◌, ◌<◌, ◌≡◌, true, [], ◌∷◌, Bytes, All, length, arith, ◌&&◌, ◌||◌, Bool, leb,
}
use developer_certificates.Text.{hex_digit, hex_encode}

-- [0-9a-f]
unfoldable pub is_hex : ℕ → Bool
is_hex c = (leb b'0' c && leb c b'9') || (leb b'a' c && leb c b'f')

hex_digit-is_hex : (d : ℕ) → d < 16 → is_hex (hex_digit d) ≡ true
unfolding is_hex hex_digit
hex_digit-is_hex d h = ground arith

-- Two lowercase digits for each byte.
pub hex_encode_lem :
    (s : Bytes)
    → All (λ b. b < 256) s
    → (length (hex_encode s) ≡ 2 * length s) × All (λ c. is_hex c ≡ true) (hex_encode s)
unfolding hex_encode
hex_encode_lem [] h = (omega arith, tt)
hex_encode_lem (b ∷ s) (here, rest) =
    let (len, digits) = hex_encode_lem s rest in
    let high = hex_digit-is_hex (b / 16) (omega arith) in
    let low = hex_digit-is_hex (b % 16) (omega arith) in (omega arith, (high, (low, digits)))
