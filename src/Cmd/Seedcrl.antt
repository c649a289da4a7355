-- ===== src/Cmd/Seedcrl.antt =====
-- cmd/seedcrl: an empty list, signed by a key file.
pub mod Seeded
use developer_certificates.Common.{
  ◌*◌, ℕ, Option, none, some, [], ◌∷◌, ◌++◌, Bytes, codes, bytes_eq, if◌then◌else◌,
}
use developer_certificates.Common.Int.{pos}
use developer_certificates.Clock.{Time, day, add_time}
use developer_certificates.Effects.{⊤, Action, Result, ok, err, errorf, wrap, context, lift, ◌>>=◌}
use developer_certificates.Runtime.{Runtime}
use developer_certificates.Signer.Keys.{EcKey, PrivateKey, ec, other, is_p384, Crypto}
use developer_certificates.X509.{Block, Certificate, RevocationList}

abbrev pub crl_validity : ℕ
crl_validity = 7 * day

unfoldable pub template : Time → RevocationList
template now = record {
  number = pos 1;
  this_update = now;
  next_update = add_time now crl_validity;
  revoked_certificate_entries = [];
}

-- `read_file` is os.ReadFile and `write_file` os.WriteFile. An EC key is a crypto.Signer, so the test
-- of that in the source always succeeds.
module _ {W : Type 0} (rt : Runtime) (cr : Crypto W) (read_file : Bytes → Result Bytes)
    (write_file : Bytes → Bytes → Action W ⊤) where
  unfoldable pub check_key : Bytes → PrivateKey → Result EcKey
  check_key path (other name) =
      err (errorf (codes "key " ++ (rt.codec.quote path ++ codes " is not an EC private key")))
  check_key path (ec key) =
      if is_p384 key.curve
      then ok key
      else err (
          errorf (
            codes "key "
            ++ (rt.codec.quote path
                ++ (codes " must be EC P-384 (design " ++ 0xc2 ∷ 0xa7 ∷ codes "3)"))))

  unfoldable pub parsed_key : Bytes → Result PrivateKey → Result EcKey
  parsed_key path (err e) = err e
  parsed_key path (ok key) = check_key path key

  abbrev pub as_private : Result EcKey → Result PrivateKey
  as_private (err e) = err e
  as_private (ok key) = ok (ec key)

  unfoldable pub key_of_block : Bytes → Block → Result EcKey
  key_of_block path block =
      if bytes_eq block.kind (codes "EC PRIVATE KEY")
      then parsed_key path (as_private (cr.parse_ec_private_key block.bytes))
      else if bytes_eq block.kind (codes "PRIVATE KEY")
      then parsed_key path (cr.parse_pkcs8_private_key block.bytes)
      else err (
          errorf (
            codes "key "
            ++ (rt.codec.quote path
                ++ (codes ": unexpected PEM block " ++ rt.codec.quote block.kind))))

  unfoldable pub load_key : Bytes → Result EcKey
  load_key path = elim (read_file path) [
    | err e ↦ err (wrap (codes "read key") e)
    | ok text ↦ elim (rt.pem_decode text) [
      | none ↦ err (errorf (codes "key " ++ (rt.codec.quote path ++ codes " is not PEM")))
      | some p ↦ key_of_block path p.0
    ]
  ]

  unfoldable pub cert_of_block : Bytes → Option (Block × Bytes) → Result Certificate
  cert_of_block path none =
      err (errorf (codes "cert " ++ (rt.codec.quote path ++ codes " is not a PEM CERTIFICATE")))
  cert_of_block path (some p) =
      if bytes_eq p.0.kind (codes "CERTIFICATE")
      then rt.parse_certificate p.0.bytes
      else err
          (errorf (codes "cert " ++ (rt.codec.quote path ++ codes " is not a PEM CERTIFICATE")))

  unfoldable pub load_cert : Bytes → Result Certificate
  load_cert path = elim (read_file path) [
    | err e ↦ err (wrap (codes "read cert") e)
    | ok text ↦ cert_of_block path (rt.pem_decode text)
  ]

  unfoldable pub run : Bytes → Bytes → Bytes → Time → Action W ⊤
  run key_path cert_path out_path now = do
    key ← lift (load_key key_path)
    cert ← lift (load_cert cert_path)
    der ←
        context (codes "create crl")
          (cr.create_revocation_list (template now) cert (cr.ec_signer key))
    context (codes "write " ++ out_path) (write_file out_path der)
