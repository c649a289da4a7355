-- ===== src/Ledger.antt =====
-- internal/ledger: the record of one appId, the first-come-first-served decision, and the checks on
-- a ledger that was read.
pub mod Ownership
pub mod Validity
pub mod Timestamp
pub mod Json
use developer_certificates.Common.{
  ℕ, Bool, Option, none, some, List, [], ◌∷◌, ◌++◌, Bytes, codes, bytes_eq, if◌then◌else◌,
}
use developer_certificates.Common.Int.{ℤ}
use developer_certificates.Clock.{Time}
use developer_certificates.Effects.{Error, errorf, wrap, Result, ok, err}
use developer_certificates.AppId.{validate_strict}

unfoldable pub origin_github : Bytes
unfolding codes
origin_github = codes "github"

unfoldable pub status_active : Bytes
unfolding codes
status_active = codes "active"

unfoldable pub status_revoked : Bytes
unfolding codes
status_revoked = codes "revoked"

pub record Owner : Type 0 where
  pub origin : Bytes
  pub repo : Bytes

pub record Requester : Type 0 where
  pub origin : Bytes
  pub login : Bytes
  pub user_id : ℤ

pub record Certificate : Type 0 where
  pub serial : Bytes
  pub fingerprint : Bytes
  pub not_before : Time
  pub not_after : Time
  pub requester : Requester
  pub issue_ref : Bytes
  pub status : Bytes
  pub revoked_from : Option Time
  pub reason : Bytes
  pub actor : Bytes

pub record Ledger : Type 0 where
  pub app_id : Bytes
  pub owner : Owner
  pub claimed_at : Time
  pub reserved : Bool
  pub certificates : List Certificate

pub data Decision : Type 0 where
  new_claim allowed rejected_mismatch rejected_reserved : Decision

-- `none` is the nil pointer: no ledger file exists.
unfoldable pub decide : Option Ledger → Bytes → Decision
unfolding bytes_eq
decide none target_repo = Decision.new_claim
decide (some existing) target_repo =
    if existing.reserved
    then Decision.rejected_reserved
    else if bytes_eq existing.owner.repo target_repo
    then Decision.allowed
    else Decision.rejected_mismatch

-- encoding/json, and strconv.Quote for %q. The decoder refuses unknown fields.
pub record Codec : Type 0 where
  pub quote : Bytes → Bytes
  pub decode : Bytes → Result Ledger
  pub encode : Ledger → Result Bytes

module _ (codec : Codec) where
  -- The body of the loop of `Parse`; `none` is that it goes on.
  unfoldable pub check_certificate : Certificate → Option Error
  unfolding errorf
  check_certificate c =
      if bytes_eq c.status status_active
      then none
      else if bytes_eq c.status status_revoked
      then elim c.revoked_from [
        | none ↦ some (
            errorf (
              codes "ledger: cert "
              ++ (codec.quote c.serial ++ codes " is revoked but has no revokedFrom")))
        | some _ ↦ none
      ]
      else some (
          errorf (
            codes "ledger: cert "
            ++ (codec.quote c.serial ++ (codes " has unknown status " ++ codec.quote c.status))))

  unfoldable pub check_certificates : List Certificate → Option Error
  unfolding check_certificate
  check_certificates [] = none
  check_certificates (c ∷ cs) =
      let later = check_certificates cs in
      elim (check_certificate c) [ some e ↦ some e | none ↦ later ]

  -- What `Parse` does with a decoded ledger.
  unfoldable pub check : Ledger → Result Ledger
  unfolding check_certificates wrap
  check l = elim (validate_strict l.app_id) [
    | err e ↦ err (wrap (codes "ledger: appId " ++ codec.quote l.app_id) e)
    | ok _ ↦ elim (check_certificates l.certificates) [ some e ↦ err e | none ↦ ok l ]
  ]

  unfoldable pub parse : Bytes → Result Ledger
  unfolding check wrap
  parse text = elim (codec.decode text) [
    | err e ↦ err (wrap (codes "ledger: decode") e)
    | ok l ↦ check l
  ]

  -- `read` is os.ReadFile.
  unfoldable pub load : (Bytes → Result Bytes) → Bytes → Result Ledger
  unfolding parse
  load read path = elim (read path) [ err e ↦ err e | ok text ↦ parse text ]

  unfoldable pub marshal : Ledger → Result Bytes
  marshal l = codec.encode l

unfoldable pub file_name : Bytes → Bytes
unfolding codes
file_name app_id = app_id ++ codes ".json"
