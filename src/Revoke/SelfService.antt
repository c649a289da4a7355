-- ===== src/Revoke/SelfService.antt =====
-- internal/revoke/revoke.go, form.go and internal/cms: one poll of the revocation bot for one issue,
-- stage by stage.
pub mod Authorized
use developer_certificates.Common.{
  ℕ, Bool, true, false, Option, none, some, List, [], ◌∷◌, ◌++◌, Bytes, codes, bytes_eq,
  if◌then◌else◌,
}
use developer_certificates.Clock.{Time}
use developer_certificates.Clock.Layout.{format_time}
use developer_certificates.AppId.{canonicalize}
use developer_certificates.Effects.{
  ⊤, Action, Result, ok, err, errorf, wrap, attempt, context, pure, fail, is_invalid_cms, ◌>>=◌,
  ◌>>◌,
}
use developer_certificates.GitHub.{GitHub, Issue}
use developer_certificates.Ledger.{Ledger, Certificate, status_revoked}
use developer_certificates.Regex.{Piece, lit, lazy, one_of, find_string}
use developer_certificates.Runtime.{Runtime}
use developer_certificates.Signer.{fingerprint}
use developer_certificates.X509
use developer_certificates.Revoke.Apply.{target, load_ledger, apply_revocation}
use developer_certificates.Revoke.Find.{find_by_fingerprint}
use developer_certificates.Revoke.Messages.{
  label_invalid, label_revoked, unreadable, unverified, bad_common_name, not_ours, already_revoked,
  revoked_now,
}

-- cms.Result
pub record CmsResult : Type 0 where
  pub signer_cert : X509.Certificate
  pub content : Bytes

-- Deps; `verify` is cms.Verifier. The Clock of the source is never read.
pub record Deps (W : Type 0) : Type 0 where
  pub gh : GitHub W
  pub verify : Bytes → Action W CmsResult

-- (?s)-----BEGIN (?:CMS|PKCS7)-----.*?-----END (?:CMS|PKCS7)-----
unfoldable pub cms_block_re : List Piece
cms_block_re =
    lit (codes "-----BEGIN ")
    ∷ one_of (codes "CMS" ∷ codes "PKCS7" ∷ [])
    ∷ lit (codes "-----")
    ∷ lazy (λ _. true)
    ∷ lit (codes "-----END ")
    ∷ one_of (codes "CMS" ∷ codes "PKCS7" ∷ [])
    ∷ lit (codes "-----")
    ∷ []

-- The form has the one field, the CMS block.
unfoldable pub parse_form : Bytes → Result Bytes
parse_form body =
    let block = find_string cms_block_re body in
    if bytes_eq block []
    then err (errorf (codes "no PEM CMS revocation request block found"))
    else ok block

unfoldable pub has_label : List Bytes → Bytes → Bool
has_label [] want = false
has_label (l ∷ labels) want = if bytes_eq l want then true else has_label labels want

module _ {W : Type 0} (rt : Runtime) (d : Deps W) (issue : Issue) where
  unfoldable pub terminal : Bytes → Bytes → Action W ⊤
  terminal label comment = do
    context (codes "revoke: post " ++ (label ++ codes " comment"))
        (d.gh.post_comment issue.number comment)
    d.gh.set_labels issue.number (label ∷ []) []

  -- Step 5.
  unfoldable pub deliver : Bytes → Bytes → Time → Action W ⊤
  deliver serial app_id revoked_from = do
    context (codes "revoke: post revoked comment")
        (d.gh.post_comment issue.number (revoked_now serial app_id (format_time revoked_from)))
    context (codes "revoke: set revoked label")
        (d.gh.set_labels issue.number (label_revoked ∷ []) [])
    d.gh.close_issue issue.number

  -- Step 4: a hard revoke, from the certificate's own notBefore, with no actor.
  unfoldable pub revoke : Bytes → Bytes → Option Ledger → Bytes → Certificate → Action W ⊤
  revoke app_id fp l prev_sha c = do
    serial ←
        apply_revocation rt.codec d.gh app_id (λ lg. find_by_fingerprint lg fp)
          (record { reason = codes "self-service"; revoked_from = c.not_before; actor = [] }) l
          prev_sha
    deliver serial app_id c.not_before

  -- Step 3, for the certificate that the ledger lists.
  unfoldable pub judge_target :
      Bytes → Bytes → Option Ledger × Bytes → Option (Ledger × ℕ × Certificate) → Action W ⊤
  judge_target app_id fp l none = terminal label_invalid (not_ours fp app_id)
  judge_target app_id fp l (some t) =
      if bytes_eq t.2.status status_revoked
      then terminal label_revoked already_revoked >> d.gh.close_issue issue.number
      else revoke app_id fp l.0 l.1 t.2

  unfoldable pub match_loaded : Bytes → Bytes → Option Ledger × Bytes → Action W ⊤
  match_loaded app_id fp l = judge_target app_id fp l (target (λ lg. find_by_fingerprint lg fp) l.0)

  -- Step 3, from the ledger on.
  unfoldable pub match_cert : Bytes → Bytes → Action W ⊤
  match_cert app_id fp = do l ← load_ledger rt.codec d.gh app_id; match_loaded app_id fp l

  unfoldable pub check_name : X509.Certificate → Result Bytes → Action W ⊤
  check_name cert (err e) = terminal label_invalid (bad_common_name rt.codec.quote cert.common_name)
  check_name cert (ok app_id) = match_cert app_id (fingerprint rt cert.raw)

  -- Step 3: the embedded certificate names the ledger.
  unfoldable pub check_signer : X509.Certificate → Action W ⊤
  check_signer cert = check_name cert (canonicalize cert.common_name)

  -- What follows the verification.
  unfoldable pub judge_cms : Result CmsResult → Action W ⊤
  judge_cms (err e) =
      if is_invalid_cms e
      then terminal label_invalid unverified
      else fail (wrap (codes "revoke: verify cms") e)
  judge_cms (ok res) = check_signer res.signer_cert

  -- Step 2.
  unfoldable pub check_cms : Bytes → Action W ⊤
  check_cms cms = do answer ← attempt (d.verify cms); judge_cms answer

  -- Step 1.
  unfoldable pub check_form : Result Bytes → Action W ⊤
  check_form (err e) = terminal label_invalid (unreadable e)
  check_form (ok cms) = check_cms cms

  unfoldable pub process : Action W ⊤
  process =
      if has_label issue.labels label_revoked then pure tt else check_form (parse_form issue.body)
