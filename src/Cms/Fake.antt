-- ===== src/Cms/Fake.antt =====
-- internal/cms/fake: a preset result.
use developer_certificates.Common.{Option, none, some, Bytes}
use developer_certificates.Effects.{Action, Error, Result, ok, err, lift, panicked}
use developer_certificates.Revoke.SelfService.{CmsResult}

-- A nil result with no error is the zero value, which no test uses; its caller panics.
pub record Verifier : Type 0 where
  pub result : Option CmsResult
  pub error : Option Error

unfoldable pub preset : Verifier → Result CmsResult
preset v = elim v.error [
  | some e ↦ err e
  | none ↦ elim v.result [ none ↦ err panicked | some r ↦ ok r ]
]

unfoldable pub verify : {W : Type 0} → Verifier → Bytes → Action W CmsResult
verify v request = lift (preset v)
