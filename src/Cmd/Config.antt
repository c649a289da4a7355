-- ===== src/Cmd/Config.antt =====
-- The configuration that the commands read, and the certificate and the signer that it names.
pub mod Selection
use developer_certificates.Common.{
  Bool, true, false, Option, none, some, [], ◌∷◌, ◌++◌, Bytes, codes, bytes_eq, if◌then◌else◌,
}
use developer_certificates.Effects.{Action, Result, ok, err, errorf, wrap, lift}
use developer_certificates.Runtime.{Runtime}
use developer_certificates.Signer.{Signer}
use developer_certificates.Signer.Keys.{Crypto}
use developer_certificates.Signer.Pem
use developer_certificates.Signer.Vault
use developer_certificates.Signer.Vault.{Vault}
use developer_certificates.X509.{Block, Certificate}

-- os.Getenv, which is empty for a name that is not set, and os.ReadFile.
pub record Env : Type 0 where
  pub getenv : Bytes → Bytes
  pub read_file : Bytes → Result Bytes

abbrev pub is_set : Bytes → Bool
is_set [] = false
is_set (_ ∷ _) = true

module _ (rt : Runtime) (env : Env) where
  unfoldable pub parse_cert : Bytes → Option (Block × Bytes) → Result Certificate
  parse_cert path none = err (
      errorf
        (codes "intermediate cert " ++ (rt.codec.quote path ++ codes " is not a PEM CERTIFICATE")))
  parse_cert path (some p) =
      if bytes_eq p.0.kind (codes "CERTIFICATE")
      then elim (rt.parse_certificate p.0.bytes) [
        | err e ↦ err (wrap (codes "parse intermediate cert") e)
        | ok cert ↦ ok cert
      ]
      else err (
          errorf (
            codes "intermediate cert "
            ++ (rt.codec.quote path ++ codes " is not a PEM CERTIFICATE")))

  unfoldable pub load_cert : Bytes → Result Certificate
  load_cert path =
      if is_set path
      then elim (env.read_file path) [
        | err e ↦ err (wrap (codes "read intermediate cert") e)
        | ok text ↦ parse_cert path (rt.pem_decode text)
      ]
      else err (errorf (codes "INTERMEDIATE_CERT is not set"))

module _ {W : Type 0} (rt : Runtime) (env : Env) (cr : Crypto W) (vault : Vault W) where
  unfoldable pub vault_config : Vault.Config
  vault_config = record {
    address = env.getenv (codes "VAULT_ADDR");
    token = env.getenv (codes "VAULT_TOKEN");
    key_name = env.getenv (codes "VAULT_TRANSIT_KEY");
  }

  unfoldable pub with_vault : Result Certificate → Result (Signer W)
  with_vault (err e) = err e
  with_vault (ok issuer) = elim (Vault.new vault_config (some issuer)) [
    | err e ↦ err e
    | ok s ↦ ok (Vault.vault_signer vault cr s)
  ]

  unfoldable pub pem_config : Certificate → Pem.Config
  pem_config issuer = record {
    key_pem = env.getenv (codes "INTERMEDIATE_KEY_PEM");
    issuer = some issuer;
  }

  unfoldable pub with_pem : Result Certificate → Result (Signer W)
  with_pem (err e) = err e
  with_pem (ok issuer) = elim (Pem.new rt cr (pem_config issuer)) [
    | err e ↦ err e
    | ok s ↦ ok (Pem.pem_signer rt cr s)
  ]

  -- The signer that the configuration names; `otherwise` is what the command does without one.
  unfoldable pub configured : Action W (Signer W) → Action W (Signer W)
  configured otherwise =
      if is_set (env.getenv (codes "VAULT_ADDR"))
      then lift (with_vault (load_cert rt env (env.getenv (codes "INTERMEDIATE_CERT"))))
      else if is_set (env.getenv (codes "INTERMEDIATE_KEY_PEM"))
      then lift (with_pem (load_cert rt env (env.getenv (codes "INTERMEDIATE_CERT"))))
      else otherwise
