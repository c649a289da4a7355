-- ===== src/Signer/Pem.antt =====
-- internal/signer/pem: the intermediate's key from a PEM text.
pub mod Matching
use developer_certificates.Common.{
  Bool, true, false, Option, none, some, [], ◌∷◌, ◌++◌, Bytes, codes, bytes_eq, if◌then◌else◌,
}
use developer_certificates.Effects.{Action, Result, ok, err, errorf, wrap, context}
use developer_certificates.Runtime.{Runtime}
use developer_certificates.Signer.{Signer}
use developer_certificates.Signer.Keys.{EcKey, PrivateKey, ec, other, is_p384, public_equal, Crypto}
use developer_certificates.X509.{Block, Certificate, PublicKey, RevocationList, Template}

-- `issuer` is a pointer that may be nil.
pub record Config : Type 0 where
  pub key_pem : Bytes
  pub issuer : Option Certificate

pub record PemSigner : Type 0 where
  pub key : EcKey
  pub issuer : Certificate

module _ {W : Type 0} (rt : Runtime) (cr : Crypto W) where
  unfoldable pub pkcs8_key : Result PrivateKey → Result EcKey
  pkcs8_key (err e) = err (wrap (codes "pem: parse PKCS#8") e)
  pkcs8_key (ok (ec key)) = ok key
  pkcs8_key (ok (other name)) = err (errorf (codes "pem: PKCS#8 key is not ECDSA"))

  unfoldable pub key_of_block : Block → Result EcKey
  key_of_block block =
      if bytes_eq block.kind (codes "EC PRIVATE KEY")
      then cr.parse_ec_private_key block.bytes
      else if bytes_eq block.kind (codes "PRIVATE KEY")
      then pkcs8_key (cr.parse_pkcs8_private_key block.bytes)
      else err (
          errorf (
            codes "pem: unexpected PEM block "
            ++ (rt.codec.quote block.kind ++ codes ", want EC PRIVATE KEY or PRIVATE KEY")))

  unfoldable pub parse_ec_key : Bytes → Result EcKey
  parse_ec_key key_pem = elim (rt.pem_decode key_pem) [
    | none ↦ err (errorf (codes "pem: KeyPEM is not valid PEM"))
    | some p ↦ key_of_block p.0
  ]

  unfoldable pub check_public : EcKey → Certificate → PublicKey → Result PemSigner
  check_public key issuer (PublicKey.ecdsa curve point) =
      if public_equal key curve point
      then ok (record { key = key; issuer = issuer })
      else err (errorf (codes "pem: private key does not match issuer certificate public key"))
  check_public key issuer _ = err (errorf (codes "pem: issuer certificate public key is not ECDSA"))

  unfoldable pub check_key : Certificate → Result EcKey → Result PemSigner
  check_key issuer (err e) = err e
  check_key issuer (ok key) =
      if is_p384 key.curve
      then check_public key issuer issuer.public_key
      else err (
          errorf
            (codes "pem: intermediate key must be EC P-384 (design " ++ 0xc2 ∷ 0xa7 ∷ codes "3)"))

  unfoldable pub with_issuer : Bytes → Option Certificate → Result PemSigner
  with_issuer key_pem none = err (errorf (codes "pem: Issuer certificate is required"))
  with_issuer key_pem (some issuer) = check_key issuer (parse_ec_key key_pem)

  unfoldable pub new : Config → Result PemSigner
  new cfg =
      if bytes_eq cfg.key_pem []
      then err (errorf (codes "pem: KeyPEM is required"))
      else with_issuer cfg.key_pem cfg.issuer

  unfoldable pub sign : PemSigner → Template → PublicKey → Action W Bytes
  sign s template subject_pub =
      context (codes "pem: create certificate")
        (cr.create_certificate template s.issuer subject_pub (cr.ec_signer s.key))

  unfoldable pub sign_crl : PemSigner → RevocationList → Action W Bytes
  sign_crl s template =
      context (codes "pem: create crl")
        (cr.create_revocation_list template s.issuer (cr.ec_signer s.key))

  -- The methods of *Signer, as an implementation of the interface.
  unfoldable pub pem_signer : PemSigner → Signer W
  pem_signer s = record { issuer_certificate = s.issuer; sign = sign s; sign_crl = sign_crl s }
