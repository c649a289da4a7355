-- ===== src/Cmd/Privrevoke.antt =====
-- cmd/privrevoke: one revocation that an operator asked for.
use developer_certificates.Common.{Option, none, some, ◌++◌, Bytes, codes, if◌then◌else◌}
use developer_certificates.Clock.{Time}
use developer_certificates.Effects.{⊤, Action, Result, ok, err, wrap, lift, ◌>>=◌}
use developer_certificates.GitHub.Rest
use developer_certificates.GitHub.Rest.Transport.{Http}
use developer_certificates.Runtime.{Runtime}
use developer_certificates.Revoke.Privileged.{PrivilegedRequest, privileged_process}
use developer_certificates.Cmd.Config.{Env, is_set}
use developer_certificates.Cmd.Issuer.{rest_config}

-- `parse_time` is time.Parse with the layout RFC3339.
module _ {W : Type 0} (rt : Runtime) (env : Env) (http : Http W)
    (parse_time : Bytes → Result Time) where
  unfoldable pub revoked_from : Bytes → Result (Option Time)
  revoked_from rf =
      if is_set rf
      then elim (parse_time rf) [
        | err e ↦ err (
            wrap
              (codes "privrevoke: REVOKED_FROM " ++ (rt.codec.quote rf ++ codes " is not RFC3339"))
              e)
        | ok t ↦ ok (some t)
      ]
      else ok none

  unfoldable pub request : Option Time → PrivilegedRequest
  request from = record {
    app_id = env.getenv (codes "APP_ID");
    serial = env.getenv (codes "SERIAL");
    reason = env.getenv (codes "REASON");
    revoked_from = from;
    actor = env.getenv (codes "ACTOR");
  }

  unfoldable pub run : Action W ⊤
  run = do
    c ← lift (Rest.new (rest_config env))
    from ← lift (revoked_from (env.getenv (codes "REVOKED_FROM")))
    privileged_process rt (Rest.client http c) (request from)
