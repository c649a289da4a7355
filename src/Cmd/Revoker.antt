-- ===== src/Cmd/Revoker.antt =====
-- cmd/revoker: one poll of the revocation bot over the open requests.
use developer_certificates.Common.{codes}
use developer_certificates.Effects.{⊤, Action, context, lift, ◌>>=◌}
use developer_certificates.GitHub.{GitHub}
use developer_certificates.GitHub.Rest
use developer_certificates.GitHub.Rest.Transport.{Http}
use developer_certificates.Runtime.{Runtime}
use developer_certificates.Revoke.SelfService.{Deps, process}
use developer_certificates.Cms.Openssl.{Os, verify}
use developer_certificates.Cmd.Batch.{run_all}
use developer_certificates.Cmd.Config.{Env}
use developer_certificates.Cmd.Issuer.{rest_config}

module _ {W : Type 0} (rt : Runtime) (env : Env) (http : Http W) (os : Os W) where
  unfoldable pub deps : GitHub W → Deps W
  deps gh = record { gh = gh; verify = verify rt os }

  unfoldable pub run : Action W ⊤
  run = do
    c ← lift (Rest.new (rest_config env))
    issues ←
        context (codes "list open revocation requests")
          ((Rest.client http c).list_open_revocation_requests)
    run_all (process rt (deps (Rest.client http c))) issues
