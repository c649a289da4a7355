-- ===== src/Signer.antt =====
-- internal/signer: the interface of the CA key, and the forms in which the ledger keeps a serial and
-- a fingerprint.
pub mod Serial
pub mod Keys
pub mod Pem
pub mod Vault
pub mod Local
use developer_certificates.Common.{
  ℕ, zero, suc, ◌/◌, ◌%◌, [], ◌∷◌, ◌++◌, Bytes, codes, ltb, if◌then◌else◌,
}
use developer_certificates.Common.Int.{ℤ, pos, negsuc}
use developer_certificates.Effects.{Action}
use developer_certificates.Runtime.{Runtime}
use developer_certificates.Text.{hex_digit, hex_encode}
use developer_certificates.X509.{Certificate, PublicKey, RevocationList, Template}

pub record Signer (W : Type 0) : Type 0 where
  pub issuer_certificate : Certificate
  pub sign : Template → PublicKey → Action W Bytes
  pub sign_crl : RevocationList → Action W Bytes

-- A number has fewer digits than itself and one, which bounds the rounds.
unfoldable pub hex_from : ℕ → ℕ → Bytes → Bytes
unfolding hex_digit
hex_from zero n acc = acc
hex_from (suc rounds) n acc =
    let more = hex_from rounds (n / 16) (hex_digit (n % 16) ∷ acc) in
    if ltb n 16 then hex_digit n ∷ acc else more

-- big.Int.Text(16)
unfoldable pub text_hex : ℤ → Bytes
unfolding hex_from
text_hex (pos n) = hex_from (suc n) n []
text_hex (negsuc n) = b'-' ∷ hex_from (suc (suc n)) (suc n) []

unfoldable pub format_serial : ℤ → Bytes
unfolding text_hex codes
format_serial serial = codes "0x" ++ text_hex serial

module _ (rt : Runtime) where
  unfoldable pub fingerprint : Bytes → Bytes
  unfolding hex_encode codes
  fingerprint der = codes "sha256:" ++ hex_encode (rt.sha256 der)

  unfoldable pub encode_pem : Bytes → Bytes
  unfolding codes
  encode_pem der = rt.pem_encode (record { kind = codes "CERTIFICATE"; bytes = der })
