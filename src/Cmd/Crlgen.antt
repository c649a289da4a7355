-- ===== src/Cmd/Crlgen.antt =====
-- cmd/crlgen: the revocation list is built from the checked-out ledgers, signed and published.
pub mod Published
pub mod Complete
use developer_certificates.Common.{
  Bool, true, false, ◌&&◌, [], ◌∷◌, ◌++◌, List, Bytes, codes, bytes_eq, if◌then◌else◌,
}
use developer_certificates.Clock.{Time}
use developer_certificates.Crl.{build}
use developer_certificates.Crl.Load.{Files, load_all}
use developer_certificates.Effects.{
  ⊤, Action, Error, Result, ok, err, errorf, wrap, attempt, always, context, fail, pure, lift,
  is_not_found, ◌>>=◌, ◌>>◌,
}
use developer_certificates.GitHub.{GitHub}
use developer_certificates.GitHub.Rest
use developer_certificates.GitHub.Rest.Transport.{Http}
use developer_certificates.Runtime.{Runtime}
use developer_certificates.Signer.{Signer}
use developer_certificates.Signer.Keys.{Crypto}
use developer_certificates.Signer.Local
use developer_certificates.Signer.Vault.{Vault}
use developer_certificates.X509.{RevocationListEntry}
use developer_certificates.Cmd.Config.{Env, is_set, configured}
use developer_certificates.Cmd.Issuer.{rest_config}

unfoldable pub ledger_dir : Bytes
ledger_dir = codes "ledger"

unfoldable pub crl_path : Bytes
crl_path = codes "crl/developers.crl"

-- What follows the read of the published list: the SHA to replace, or none.
unfoldable pub published_sha : Result (Bytes × Bytes) → Result Bytes
published_sha (err e) =
    if is_not_found e then ok [] else err (wrap (codes "crlgen: read published CRL") e)
published_sha (ok file) = ok file.1

unfoldable pub publish_crl : {W : Type 0} → GitHub W → Bytes → Bytes → Action W ⊤
publish_crl gh repo der = do
  answer ← attempt (gh.get_file repo crl_path)
  sha ← lift (published_sha answer)
  context (codes "crlgen: publish " ++ crl_path)
      (gh.put_file repo crl_path der sha (codes "chore: regenerate crl/developers.crl"))

-- os.MkdirAll and os.WriteFile.
pub record Disk (W : Type 0) : Type 0 where
  pub mkdir_all : Bytes → Action W ⊤
  pub write_file : Bytes → Bytes → Action W ⊤

module _ {W : Type 0} (rt : Runtime) (env : Env) (cr : Crypto W) (vault : Vault W) (http : Http W)
    (clock : W → Time × W) (fs : Files) (disk : Disk W)
    (sort : List RevocationListEntry → List RevocationListEntry) where
  unfoldable pub local_signer : Time → Action W (Signer W)
  local_signer now = do s ← Local.new rt cr now; pure (Local.local_signer rt cr s)

  unfoldable pub refused : Error
  refused = errorf (
      codes
        "crlgen: VAULT_ADDR is not set; refusing to sign with a throwaway key (set CRLGEN_ALLOW_LOCAL=1 for a local dry-run)")

  unfoldable pub without_key : Time → Action W (Signer W)
  without_key now =
      if bytes_eq (env.getenv (codes "CRLGEN_ALLOW_LOCAL")) (codes "1")
      then local_signer now
      else fail refused

  unfoldable pub new_signer : Time → Action W (Signer W)
  new_signer now = configured rt env cr vault (without_key now)

  unfoldable pub write_local : Bytes → Action W ⊤
  write_local der = do
    context (codes "create crl dir") (disk.mkdir_all (codes "crl"))
    context (codes "write " ++ crl_path) (disk.write_file crl_path der)

  unfoldable pub deliver : Bytes → Action W ⊤
  deliver der =
      if is_set (env.getenv (codes "GITHUB_TOKEN"))
        && is_set (env.getenv (codes "GITHUB_REPOSITORY"))
      then (do
        c ← context (codes "crlgen: init github client") (lift (Rest.new (rest_config env)))
        publish_crl (Rest.client http c) (env.getenv (codes "GITHUB_REPOSITORY")) der)
      else write_local der

  unfoldable pub run : Action W ⊤
  run = do
    now ← always clock
    sgn ← new_signer now
    ledgers ← lift (load_all rt.codec fs ledger_dir)
    tmpl ← lift (build rt.codec.quote sort ledgers now)
    der ← context (codes "sign crl") (sgn.sign_crl tmpl)
    deliver der
