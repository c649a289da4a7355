-- ===== src/Revoke/Privileged.antt =====
-- internal/revoke/privileged.go: the authoritative revocation of a certificate by its serial.
pub mod Safety
use developer_certificates.Common.{
  ℕ, Option, none, some, List, [], ◌∷◌, ◌++◌, Bytes, codes, bytes_eq, if◌then◌else◌,
}
use developer_certificates.Clock.{Time, before}
use developer_certificates.Clock.Layout.{format_time}
use developer_certificates.AppId.{validate_strict}
use developer_certificates.Effects.{
  ⊤, Action, Result, ok, err, errorf, wrap, pure, fail, lift, ◌>>=◌, ◌>>◌,
}
use developer_certificates.GitHub.{GitHub}
use developer_certificates.Ledger.{Ledger, Certificate}
use developer_certificates.Runtime.{Runtime}
use developer_certificates.Text.{trim_space}
use developer_certificates.Revoke.Apply.{Revocation, target, load_ledger, apply_revocation}
use developer_certificates.Revoke.Find.{find_by_serial}

pub record PrivilegedRequest : Type 0 where
  pub app_id : Bytes
  pub serial : Bytes
  pub reason : Bytes
  pub revoked_from : Option Time
  pub actor : Bytes

unfoldable pub require : Bytes → Bytes → Result ⊤
require name value =
    if bytes_eq value []
    then err (errorf (codes "privrevoke: " ++ (name ++ codes " is required")))
    else ok tt

infixr 5 ◌then◌
abbrev pub ◌then◌ {ℓ} : {A : Type ℓ} → Result ⊤ → Result A → Result A
ok _ then r = r
err e then r = err e

module _ {W : Type 0} (rt : Runtime) (gh : GitHub W) (req : PrivilegedRequest) where
  -- Step 1; it hands on the trimmed serial.
  unfoldable pub check_request : Result Bytes
  check_request = elim (validate_strict req.app_id) [
    | err e ↦ err (
        wrap
          (codes "privrevoke: appId "
            ++ (rt.codec.quote req.app_id ++ codes " is not a valid appId"))
          e)
    | ok _ ↦
        require (codes "serial") (trim_space req.serial)
        then require (codes "reason") req.reason
        then require (codes "actor") req.actor
        then ok (trim_space req.serial)
  ]

  -- Step 4: the date asked for, or the certificate's notBefore, which it may not precede.
  unfoldable pub resolve_date : Certificate → Result Time
  resolve_date c = elim req.revoked_from [
    | none ↦ ok c.not_before
    | some rf ↦
        if before rf c.not_before
        then err (
            errorf (
              codes "privrevoke: revokedFrom "
              ++ (format_time rf
                  ++ (codes " is before the cert's notBefore " ++ format_time c.not_before))))
        else ok rf
  ]

  -- Steps 3 to 5, in a ledger that exists.
  unfoldable pub revoke : Bytes → Option Ledger → Bytes → Action W ⊤
  revoke serial l prev_sha = elim (target (λ lg. find_by_serial lg serial) l) [
    | none ↦ lift (
        err (
          errorf (
            codes "privrevoke: serial "
            ++ (rt.codec.quote serial
                ++ (codes " not found in ledger for " ++ rt.codec.quote req.app_id)))))
    | some t ↦ (do
      revoked_from ← lift (resolve_date t.2)
      apply_revocation rt.codec gh req.app_id (λ lg. find_by_serial lg serial)
          (record { reason = req.reason; revoked_from = revoked_from; actor = req.actor }) l
          prev_sha
      pure tt)
  ]

  -- What follows the read of the ledger.
  unfoldable pub in_ledger : Bytes → Option Ledger × Bytes → Action W ⊤
  in_ledger serial (none, prev_sha) =
      fail (errorf (codes "privrevoke: no ledger for appId " ++ rt.codec.quote req.app_id))
  in_ledger serial (some found, prev_sha) = revoke serial (some found) prev_sha

  unfoldable pub privileged_process : Action W ⊤
  privileged_process = do
    serial ← lift check_request
    l ← load_ledger rt.codec gh req.app_id
    in_ledger serial l
