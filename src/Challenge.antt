-- ===== src/Challenge.antt =====
-- internal/challenge: the nonce that proves control of a repository.
pub mod RoundTrip
pub mod Window
use developer_certificates.Common.{
  ℕ, ◌+◌, ◌-◌, ◌*◌, ◌^◌, min, Bool, Option, none, some, List, [], ◌∷◌, ◌++◌, Bytes, codes, bytes_eq,
  ltb, ◌<◌, ◌≡◌, All, length,
}
use developer_certificates.Clock.{Time, hour, sub_time}
use developer_certificates.Effects.{Action, ok, context, ◌>>=◌, pure}
use developer_certificates.Regex.{Piece, Match, lit, greedy, find}
use developer_certificates.Text.{trim_space, hex_encode}
use developer_certificates.Text.Hex.{is_hex}

-- The path in the target repository that the developer commits the nonce to.
unfoldable pub file_path : Bytes
unfolding codes
file_path = codes "/.well-known/owncloud-codesigning-challenge.txt"

-- 72 * time.Hour, in nanoseconds.
unfoldable pub validity : ℕ
validity = 72 * hour

abbrev pub nonce_bytes : ℕ
nonce_bytes = 32

unfoldable pub marker_prefix : Bytes
unfolding codes
marker_prefix = codes "<!-- owncloud-codesigning-challenge: "

unfoldable pub marker_suffix : Bytes
unfolding codes
marker_suffix = codes " -->"

-- <!-- owncloud-codesigning-challenge: ([0-9a-f]{64}) -->
unfoldable pub marker_re : List Piece
unfolding marker_prefix marker_suffix is_hex
marker_re = lit marker_prefix ∷ greedy is_hex 64 (some 64) ∷ lit marker_suffix ∷ []

-- io.ReadFull of an io.Reader: n bytes, or an error.
abbrev pub Reader : Type 0 → Type 0
Reader W = ℕ → Action W Bytes

-- The reads are full: the bytes asked for, each below 256.
abbrev pub IsFull : {W : Type 0} → Reader W → Type 0
IsFull {W} read =
    (n : ℕ) (w : W) (s : Bytes) → (read n w).0 ≡ ok s → (length s ≡ n) × All (λ b. b < 256) s

abbrev pub or_system : {W : Type 0} → Reader W → Option (Reader W) → Reader W
or_system system none = system
or_system system (some r) = r

-- `system` is crypto/rand.Reader, which serves where no reader is given.
unfoldable pub generate : {W : Type 0} → Reader W → Option (Reader W) → Action W Bytes
generate system r = do
  b ← context (codes "challenge: read random") (or_system system r nonce_bytes)
  pure (hex_encode b)

unfoldable pub comment_body : Bytes → Bytes
unfolding marker_prefix marker_suffix file_path codes
comment_body nonce =
    marker_prefix
    ++ (nonce
        ++ (marker_suffix
            ++ (codes "\n\n"
                ++ (codes "To prove you control this repository, commit a file containing "
                    ++ (codes
                          "exactly the value below to your repository's **default branch** at:\n\n"
                        ++ (codes "```text\n"
                            ++ (file_path
                                ++ (codes "\n```\n\n"
                                    ++ (codes "File contents:\n\n```text\n"
                                        ++ (nonce
                                            ++ (codes "\n```\n\n"
                                                ++ codes
                                                    "You have 72 hours. The bot re-checks periodically; you may delete the file afterwards.\n")))))))))))

-- m[1], for a match m of the marker.
abbrev nonce_of : Option Match → Option Bytes
nonce_of (some (_ ∷ nonce ∷ _, _)) = some nonce
nonce_of _ = none

unfoldable pub parse_nonce : Bytes → Option Bytes
unfolding marker_re find
parse_nonce body = nonce_of (find marker_re body)

unfoldable pub expired : Time → Time → Bool
unfolding validity
expired comment_created_at now = ltb validity (sub_time now comment_created_at)

-- subtle.ConstantTimeCompare is 1 exactly for equal bytes.
unfoldable pub match : Bytes → Bytes → Bool
unfolding trim_space bytes_eq
match stored fetched = bytes_eq stored (trim_space fetched)
