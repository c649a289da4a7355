-- ===== src/Tests/Names.antt =====
-- The theorems on names, nonces, keys and serials at concrete inputs.
use developer_certificates.Common.{
  ◌≡◌, ◌↔◌, refl, true, some, [], ◌∷◌, ◌++◌, Bytes, codes, inl, inr, arith,
}
use developer_certificates.AppId.{valid, canonicalize}
use developer_certificates.AppId.Grammar.{IsAppId, IsLowered, valid_iff, canonicalize_iff}
use developer_certificates.Challenge.{comment_body, parse_nonce, match}
use developer_certificates.Challenge.RoundTrip.{IsNonce, parse_nonce-comment_body}
use developer_certificates.Challenge.Window.{match_iff}
use developer_certificates.Csr.{parse}
use developer_certificates.Csr.Allowlist.{IsAccepted, parse_iff}
use developer_certificates.Effects.{ok}
use developer_certificates.Text.{hex_encode}
use developer_certificates.Text.Hex.{hex_encode_lem}
use developer_certificates.Tests.Data.{rt, request, app_id, ones, ones_lem}

valid_iff_example : (valid (codes "mail") ≡ true) ↔ IsAppId (codes "mail")
valid_iff_example = valid_iff (codes "mail")

canonicalize_iff_example :
    (canonicalize (codes "Mail") ≡ ok (codes "mail"))
    ↔ (IsLowered (codes "Mail") (codes "mail") × IsAppId (codes "mail"))
canonicalize_iff_example = canonicalize_iff (codes "Mail") (codes "mail")

folds : canonicalize (codes "Mail") ≡ ok (codes "mail")
unfolding canonicalize codes
folds = refl

abbrev pub nonce : Bytes
nonce = hex_encode (ones 32)

pub nonce-IsNonce : IsNonce nonce
nonce-IsNonce =
    let (size, digits) = hex_encode_lem (ones 32) (ones_lem 32).1 in
    record { digits = digits; size = size }

parse_nonce-comment_body_example : parse_nonce (comment_body nonce) ≡ some nonce
parse_nonce-comment_body_example = parse_nonce-comment_body nonce nonce-IsNonce

match_iff_example : (match nonce ((32 ∷ []) ++ (nonce ++ (10 ∷ []))) ≡ true) ↔ (nonce ≡ nonce)
match_iff_example =
    match_iff nonce nonce (32 ∷ []) (10 ∷ []) nonce-IsNonce (inl refl, tt)
      (inr (omega arith, omega arith), tt)

parse_iff_example : (parse rt app_id ≡ ok request) ↔ IsAccepted rt app_id request
parse_iff_example = parse_iff rt app_id request
