-- ===== src/X509.antt =====
-- The parts of Go's crypto packages that the program reads and builds: keys, requests,
-- certificates and revocation lists. Their encodings and the cryptography behind them are functions
-- that the model takes as parameters.
use developer_certificates.Common.{ℕ, Bool, List, Bytes}
use developer_certificates.Common.Int.{ℤ}
use developer_certificates.Clock.{Time}

-- `unknown` is a nil curve, or one with no parameters; `other` carries the name of its parameters.
pub data Curve : Type 0 where
  p384 unknown : Curve
  other : Bytes → Curve

-- The dynamic type of a public key: *ecdsa.PublicKey with its point, *rsa.PublicKey with its
-- modulus, nil, or another type under its name.
pub data PublicKey : Type 0 where
  ecdsa : Curve → Bytes → PublicKey
  rsa : ℕ → PublicKey
  nil : PublicKey
  other : Bytes → PublicKey

pub record Certificate : Type 0 where
  pub raw : Bytes
  pub serial_number : ℤ
  pub common_name : Bytes
  pub organization : List Bytes
  pub organizational_unit : List Bytes
  pub not_before : Time
  pub not_after : Time
  pub public_key : PublicKey

pub record CertificateRequest : Type 0 where
  pub raw : Bytes
  pub common_name : Bytes
  pub public_key : PublicKey

-- A PEM block.
pub record Block : Type 0 where
  pub kind : Bytes
  pub bytes : Bytes

pub data KeyUsage : Type 0 where
  digital_signature cert_sign crl_sign : KeyUsage

pub data ExtKeyUsage : Type 0 where
  code_signing : ExtKeyUsage

pub data SignatureAlgorithm : Type 0 where
  ecdsa_with_sha384 : SignatureAlgorithm

-- The fields of x509.Certificate that a template sets.
pub record Template : Type 0 where
  pub serial_number : ℕ
  pub common_name : Bytes
  pub organization : List Bytes
  pub organizational_unit : List Bytes
  pub not_before : Time
  pub not_after : Time
  pub key_usage : List KeyUsage
  pub ext_key_usage : List ExtKeyUsage
  pub basic_constraints_valid : Bool
  pub is_ca : Bool
  pub signature_algorithm : SignatureAlgorithm
  pub crl_distribution_points : List Bytes

pub record RevocationListEntry : Type 0 where
  pub serial_number : ℤ
  pub revocation_time : Time

pub record RevocationList : Type 0 where
  pub number : ℤ
  pub this_update : Time
  pub next_update : Time
  pub revoked_certificate_entries : List RevocationListEntry
