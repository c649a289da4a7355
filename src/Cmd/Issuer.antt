-- ===== src/Cmd/Issuer.antt =====
-- cmd/issuer: one poll of the issuer bot over the open requests.
use developer_certificates.Common.{ℕ, [], codes}
use developer_certificates.Challenge.{Reader}
use developer_certificates.Clock.{Time}
use developer_certificates.Effects.{⊤, Action, fail, errorf, context, lift, ◌>>=◌}
use developer_certificates.GitHub.{GitHub}
use developer_certificates.GitHub.Rest
use developer_certificates.GitHub.Rest.Transport.{Http}
use developer_certificates.Runtime.{Runtime}
use developer_certificates.Signer.{Signer}
use developer_certificates.Signer.Keys.{Crypto}
use developer_certificates.Signer.Vault.{Vault}
use developer_certificates.Enroll.Issuance.{Deps}
use developer_certificates.Enroll.Process.{process}
use developer_certificates.Cmd.Batch.{run_all}
use developer_certificates.Cmd.Config.{Env, configured}

unfoldable pub rest_config : Env → Rest.Config
rest_config env = record {
  token = env.getenv (codes "GITHUB_TOKEN");
  bot_login = env.getenv (codes "ISSUER_BOT_LOGIN");
  repo = env.getenv (codes "GITHUB_REPOSITORY");
  api_base = [];
}

-- `clock` is realClock, `rand` crypto/rand.Reader, and `rounds` bounds the redraws of a serial.
module _ {W : Type 0} (rt : Runtime) (env : Env) (cr : Crypto W) (vault : Vault W) (http : Http W)
    (clock : W → Time × W) (rand : Reader W) (rounds : ℕ) where
  unfoldable pub new_signer : Action W (Signer W)
  new_signer = configured rt env cr vault (
      fail (errorf (codes "issuer: no signer configured (set VAULT_ADDR or INTERMEDIATE_KEY_PEM)")))

  unfoldable pub deps : GitHub W → Signer W → Deps W
  deps gh sgn = record { gh = gh; signer = sgn; clock = clock; rand = rand; rounds = rounds }

  unfoldable pub run : Action W ⊤
  run = do
    c ← lift (Rest.new (rest_config env))
    sgn ← new_signer
    issues ← context (codes "list open requests") ((Rest.client http c).list_open_cert_requests)
    run_all (process rt (deps (Rest.client http c) sgn)) issues
