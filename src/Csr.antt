-- ===== src/Csr.antt =====
-- internal/csr: the key allowlist and the proof of possession of a signing request.
pub mod Allowlist
use developer_certificates.Common.{
  ℕ, zero, suc, ◌/◌, Option, none, some, ◌++◌, Bytes, codes, bytes_eq, ltb, ◌==◌, if◌then◌else◌,
}
use developer_certificates.Decimal.{decimal}
use developer_certificates.Effects.{Error, Sentinel, errorf, wrap, mark, Result, ok, err}
use developer_certificates.Runtime.{Runtime}
use developer_certificates.X509.{Block, CertificateRequest, Curve, PublicKey}

abbrev pub min_rsa_bits : ℕ
min_rsa_bits = 3072

unfoldable pub err_not_pem : Error
unfolding errorf codes
err_not_pem = errorf (codes "csr: input is not a PEM CERTIFICATE REQUEST")

unfoldable pub unsupported_key : Bytes → Error
unfolding mark codes
unsupported_key t = mark Sentinel.unsupported_key (codes "csr: unsupported public key") t

unfoldable pub bad_signature : Bytes → Error
unfolding mark codes
bad_signature t = mark Sentinel.bad_signature (codes "csr: signature verification failed") t

unfoldable pub pem_type : Bytes
unfolding codes
pem_type = codes "CERTIFICATE REQUEST"

unfoldable pub curve_name : Curve → Bytes
unfolding codes
curve_name Curve.p384 = codes "P-384"
curve_name Curve.unknown = codes "unknown"
curve_name (Curve.other name) = name

-- big.Int.BitLen; a number has at most as many bits as itself, which bounds the rounds.
unfoldable pub bits_from : ℕ → ℕ → ℕ
bits_from zero n = 0
bits_from (suc rounds) n = let more = suc (bits_from rounds (n / 2)) in if n == 0 then 0 else more

unfoldable pub bit_len : ℕ → ℕ
unfolding bits_from
bit_len n = bits_from n n

-- `none` is that the key is accepted; %T of a nil key is <nil>.
unfoldable pub check_key : PublicKey → Option Error
unfolding bit_len unsupported_key curve_name decimal codes
check_key (PublicKey.ecdsa Curve.p384 _) = none
check_key (PublicKey.ecdsa c _) =
    some
      (unsupported_key (codes "EC curve " ++ (curve_name c ++ codes " (only P-384 is accepted)")))
check_key (PublicKey.rsa n) =
    if ltb (bit_len n) min_rsa_bits
    then some (
        unsupported_key (
          codes "RSA-"
          ++ (decimal (bit_len n)
              ++ (codes " (minimum is RSA-" ++ (decimal min_rsa_bits ++ codes ")")))))
    else none
check_key PublicKey.nil = some (unsupported_key (codes "<nil>"))
check_key (PublicKey.other name) = some (unsupported_key name)

module _ (rt : Runtime) where
  -- What `Parse` does with a request that it could decode.
  unfoldable pub check_request : CertificateRequest → Result CertificateRequest
  unfolding check_key bad_signature
  check_request req = elim (check_key req.public_key) [
    | some e ↦ err e
    | none ↦ elim (rt.check_signature req) [ some e ↦ err (bad_signature e.text) | none ↦ ok req ]
  ]

  unfoldable pub parse_block : Block → Result CertificateRequest
  unfolding check_request err_not_pem pem_type bytes_eq wrap codes
  parse_block block =
      if bytes_eq block.kind pem_type
      then elim (rt.parse_certificate_request block.bytes) [
        | err e ↦ err (wrap (codes "csr: parse") e)
        | ok req ↦ check_request req
      ]
      else err err_not_pem

  unfoldable pub parse : Bytes → Result CertificateRequest
  unfolding parse_block err_not_pem
  parse text = elim (rt.pem_decode text) [
    | none ↦ err err_not_pem
    | some (block, _) ↦ parse_block block
  ]
