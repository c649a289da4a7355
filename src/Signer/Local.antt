-- ===== src/Signer/Local.antt =====
-- internal/signer/local: an intermediate in memory, for tests and dry runs.
use developer_certificates.Common.{ℕ, ◌*◌, ◌^◌, true, [], ◌∷◌, Bytes, codes}
use developer_certificates.Clock.{Time, day, add_time}
use developer_certificates.Effects.{Action, context, pure, lift, ◌>>=◌}
use developer_certificates.Runtime.{Runtime}
use developer_certificates.Signer.{Signer}
use developer_certificates.Signer.Keys.{EcKey, CaTemplate, Crypto}
use developer_certificates.X509.{
  Certificate, PublicKey, RevocationList, Template, KeyUsage, ExtKeyUsage, SignatureAlgorithm,
}

-- Five years of 365 days.
abbrev pub intermediate_validity : ℕ
intermediate_validity = 5 * 365 * day

pub record LocalSigner : Type 0 where
  pub cert : Certificate
  pub key : EcKey

unfoldable pub ca_template : ℕ → Time → CaTemplate
ca_template serial not_before = record {
  serial_number = serial;
  country = codes "DE" ∷ [];
  organization = codes "ownCloud GmbH" ∷ [];
  common_name = codes "ownCloud Code Signing Intermediate CA G2 (LOCAL TEST)";
  not_before = not_before;
  not_after = add_time not_before intermediate_validity;
  key_usage = KeyUsage.cert_sign ∷ KeyUsage.crl_sign ∷ [];
  ext_key_usage = ExtKeyUsage.code_signing ∷ [];
  basic_constraints_valid = true;
  is_ca = true;
  max_path_len = 0;
  max_path_len_zero = true;
  signature_algorithm = SignatureAlgorithm.ecdsa_with_sha384;
}

module _ {W : Type 0} (rt : Runtime) (cr : Crypto W) where
  unfoldable pub new : Time → Action W LocalSigner
  new not_before = do
    key ← context (codes "local: generate intermediate key") cr.generate_key
    serial ← context (codes "local: intermediate serial") (cr.random_below (2 ^ 128))
    der ← context (codes "local: self-sign intermediate") (
        cr.create_ca (ca_template serial not_before) (PublicKey.ecdsa key.curve key.point)
          (cr.ec_signer key))
    cert ← context (codes "local: parse intermediate") (lift (rt.parse_certificate der))
    pure (record { cert = cert; key = key })

  unfoldable pub sign : LocalSigner → Template → PublicKey → Action W Bytes
  sign s template subject_pub =
      context (codes "local: sign leaf")
        (cr.create_certificate template s.cert subject_pub (cr.ec_signer s.key))

  unfoldable pub sign_crl : LocalSigner → RevocationList → Action W Bytes
  sign_crl s template =
      context (codes "local: sign crl")
        (cr.create_revocation_list template s.cert (cr.ec_signer s.key))

  -- The methods of *Signer, as an implementation of the interface.
  unfoldable pub local_signer : LocalSigner → Signer W
  local_signer s = record { issuer_certificate = s.cert; sign = sign s; sign_crl = sign_crl s }
