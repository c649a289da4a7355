-- ===== src/Challenge/Window.antt =====
-- When a challenge expires, and which files satisfy it.
use developer_certificates.Common.{
  ℕ, ap, length, ◌+◌, ◌<◌, ◌≤◌, ◌≡◌, ◌↔◌, ◌≢◌, true, [], ◌∷◌, ◌++◌, Bytes, All, arith, bytes_eq_iff,
}
use developer_certificates.Clock.{Time}
use developer_certificates.Text.Trim.{IsBlank, IsVisible, trim_space_lem}
use developer_certificates.Text.Hex.{is_hex}
use developer_certificates.Challenge.{validity, expired, match}
use developer_certificates.Challenge.RoundTrip.{IsNonce}

-- A challenge has expired exactly when more than 72 hours have passed since its comment; the
-- saturation of the subtraction does not show.
pub expired_iff :
    (comment_created_at now : Time)
    → (expired comment_created_at now ≡ true) ↔ (comment_created_at + validity < now)
unfolding expired validity
expired_iff comment_created_at now = ground arith

-- A challenge that has expired stays so.
pub expired_mono :
    (comment_created_at now later : Time)
    → now ≤ later
    → expired comment_created_at now ≡ true
    → expired comment_created_at later ≡ true
unfolding expired
expired_mono comment_created_at now later h e = ground arith

hex-IsVisible : (c : ℕ) → is_hex c ≡ true → IsVisible c
unfolding is_hex
hex-IsVisible c h = ground arith

IsVisible-of_hex : (n : Bytes) → All (λ c. is_hex c ≡ true) n → All IsVisible n
IsVisible-of_hex [] h = tt
IsVisible-of_hex (c ∷ n) (here, rest) = (hex-IsVisible c here, IsVisible-of_hex n rest)

nonce-ne-nil : (n : Bytes) → IsNonce n → n ≢ []
nonce-ne-nil n h e = absurd (omega (arith, h.size, ap length e))

-- A file that holds a nonce between blanks satisfies the challenge for that nonce and for no other.
pub match_iff :
    (stored n before after : Bytes)
    → IsNonce n
    → All IsBlank before
    → All IsBlank after
    → (match stored (before ++ (n ++ after)) ≡ true) ↔ (stored ≡ n)
unfolding match
match_iff stored n before after h l r =
    rw (trim_space_lem before n after l r (IsVisible-of_hex n h.digits) (nonce-ne-nil n h))
      (bytes_eq_iff stored n)
