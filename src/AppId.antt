-- ===== src/AppId.antt =====
-- internal/appid: the appId grammar and the two ways to accept an appId.
pub mod Grammar
use developer_certificates.Common.{
  ℕ, ◌+◌, ◌||◌, ◌&&◌, Bool, some, List, [], ◌∷◌, map, Bytes, codes, leb, ◌==◌, if◌then◌else◌,
}
use developer_certificates.Effects.{Error, errorf, Result, ok, err}
use developer_certificates.Regex.{Piece, greedy, finish, matches_start}

-- [a-z]
unfoldable pub is_letter : ℕ → Bool
is_letter c = leb b'a' c && leb c b'z'

-- [a-z0-9_.-]
unfoldable pub is_body : ℕ → Bool
unfolding is_letter
is_body c = is_letter c || (leb b'0' c && leb c b'9') || c == b'_' || c == b'.' || c == b'-'

-- ^[a-z][a-z0-9_.-]{2,63}$
unfoldable pub pattern_pieces : List Piece
unfolding is_letter is_body
pattern_pieces = greedy is_letter 1 (some 1) ∷ greedy is_body 2 (some 63) ∷ finish ∷ []

-- The pattern as its text, which the messages of the bot quote.
unfoldable pub pattern_text : Bytes
unfolding codes
pattern_text = codes "^[a-z][a-z0-9_.-]{2,63}$"

unfoldable pub err_invalid : Error
unfolding errorf codes
err_invalid = errorf (codes "appid: invalid app id")

-- One byte of the loop of `Fold`.
unfoldable pub fold_byte : ℕ → ℕ
fold_byte b = if leb b'A' b && leb b b'Z' then b + 32 else b

unfoldable pub fold : Bytes → Bytes
unfolding fold_byte
fold s = map fold_byte s

unfoldable pub valid : Bytes → Bool
unfolding pattern_pieces matches_start
valid s = matches_start pattern_pieces s

unfoldable pub validate_strict : Bytes → Result Bytes
unfolding valid err_invalid
validate_strict cn = if valid cn then ok cn else err err_invalid

unfoldable pub canonicalize : Bytes → Result Bytes
unfolding fold valid err_invalid
canonicalize raw = if valid (fold raw) then ok (fold raw) else err err_invalid
