-- ===== src/Signer/Keys.antt =====
-- The private keys of crypto/ecdsa and crypto/x509 that the signers load, and the calls that sign with
-- them.
use developer_certificates.Common.{ℕ, Bool, true, false, ◌&&◌, List, Bytes, bytes_eq}
use developer_certificates.Clock.{Time}
use developer_certificates.Effects.{Action, Result}
use developer_certificates.X509.{
  Certificate, Curve, PublicKey, Template, RevocationList, KeyUsage, ExtKeyUsage,
  SignatureAlgorithm,
}

-- *ecdsa.PrivateKey; `point` is that of its public key.
pub record EcKey : Type 0 where
  pub curve : Curve
  pub point : Bytes
  pub secret : Bytes

-- What x509.ParsePKCS8PrivateKey returns.
pub data PrivateKey : Type 0 where
  ec : EcKey → PrivateKey
  other : Bytes → PrivateKey

unfoldable pub is_p384 : Curve → Bool
is_p384 Curve.p384 = true
is_p384 _ = false

abbrev pub curve_eq : Curve → Curve → Bool
curve_eq Curve.p384 Curve.p384 = true
curve_eq Curve.unknown Curve.unknown = true
curve_eq (Curve.other a) (Curve.other b) = bytes_eq a b
curve_eq _ _ = false

-- key.PublicKey.Equal(pub)
unfoldable pub public_equal : EcKey → Curve → Bytes → Bool
unfolding bytes_eq
public_equal key curve point = curve_eq key.curve curve && bytes_eq key.point point

pub data HashFunc : Type 0 where
  sha384 : HashFunc
  other : Bytes → HashFunc

-- crypto.Signer
pub record CryptoSigner (W : Type 0) : Type 0 where
  pub public : PublicKey
  pub sign : Bytes → HashFunc → Action W Bytes

-- The template of the in-memory intermediate.
pub record CaTemplate : Type 0 where
  pub serial_number : ℕ
  pub country : List Bytes
  pub organization : List Bytes
  pub common_name : Bytes
  pub not_before : Time
  pub not_after : Time
  pub key_usage : List KeyUsage
  pub ext_key_usage : List ExtKeyUsage
  pub basic_constraints_valid : Bool
  pub is_ca : Bool
  pub max_path_len : ℕ
  pub max_path_len_zero : Bool
  pub signature_algorithm : SignatureAlgorithm

-- `ec_signer` is an *ecdsa.PrivateKey as a crypto.Signer; `generate_key` is ecdsa.GenerateKey on
-- P-384, `random_below` rand.Int, and `create_ca` signs a template under itself.
pub record Crypto (W : Type 0) : Type 0 where
  pub parse_ec_private_key : Bytes → Result EcKey
  pub parse_pkcs8_private_key : Bytes → Result PrivateKey
  pub ec_signer : EcKey → CryptoSigner W
  pub create_certificate : Template → Certificate → PublicKey → CryptoSigner W → Action W Bytes
  pub create_revocation_list : RevocationList → Certificate → CryptoSigner W → Action W Bytes
  pub create_ca : CaTemplate → PublicKey → CryptoSigner W → Action W Bytes
  pub generate_key : Action W EcKey
  pub random_below : ℕ → Action W ℕ
