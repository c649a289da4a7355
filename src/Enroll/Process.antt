-- ===== src/Enroll/Process.antt =====
-- internal/enroll/enroll.go: one poll of the issuer bot for one issue, stage by stage.
pub mod Quiet
pub mod Cleared
pub mod Stages
pub mod Clearance
pub mod OnFake
use developer_certificates.Common.{
  ℕ, Bool, true, false, Option, none, some, List, [], ◌∷◌, ◌++◌, Bytes, codes, bytes_eq,
  if◌then◌else◌,
}
use developer_certificates.Clock.{Time}
use developer_certificates.AppId.{validate_strict, canonicalize}
use developer_certificates.AppInfo.{extract_id}
use developer_certificates.Challenge.{
  file_path, generate, comment_body, parse_nonce, expired, match,
}
use developer_certificates.Csr
use developer_certificates.Effects.{
  ⊤, Action, Result, ok, err, Error, wrap, attempt, context, pure, fail, always, is_not_found,
  ◌>>=◌, ◌>>◌,
}
use developer_certificates.GitHub.{GitHub, Issue, Comment}
use developer_certificates.Ledger.{Ledger, Decision, decide}
use developer_certificates.Runtime.{Runtime}
use developer_certificates.X509.{CertificateRequest, PublicKey}
use developer_certificates.Enroll.Form.{Form, parse_form}
use developer_certificates.Enroll.Issuance.{Deps, issue_certificate}
use developer_certificates.Enroll.Ledgers.{load_ledger}
use developer_certificates.Enroll.Messages.{
  label_invalid, label_needs_changes, label_awaiting_challenge, label_expired, label_rejected,
  label_issued, unreadable, csr_rejected, bad_common_name, no_access, no_info_xml, no_usable_id,
  bad_info_id, ids_differ, challenge_expired, is_reserved, owned_by_other,
}

unfoldable pub has_label : List Bytes → Bytes → Bool
has_label [] want = false
has_label (l ∷ labels) want = if bytes_eq l want then true else has_label labels want

unfoldable pub info_path : Bytes
info_path = codes "appinfo/info.xml"

-- The nonce of the last comment that carries one, with the comment's time.
unfoldable pub latest : Option (Bytes × Time) → List Comment → Option (Bytes × Time)
latest found [] = found
latest found (c ∷ cs) =
    latest (elim (parse_nonce c.body) [ none ↦ found | some n ↦ some (n, c.created_at) ]) cs

module _ {W : Type 0} (rt : Runtime) (d : Deps W) (issue : Issue) where
  -- helpers.go: a comment, and then the label.
  unfoldable pub terminal : Bytes → Bytes → Action W ⊤
  terminal label comment = do
    context (codes "enroll: post " ++ (label ++ codes " comment"))
        (d.gh.post_comment issue.number comment)
    d.gh.set_labels issue.number (label ∷ []) []

  unfoldable pub prior_challenge : Action W (Option (Bytes × Time))
  prior_challenge = do
    comments ← context (codes "enroll: read own comments") (d.gh.own_comments issue.number)
    pure (latest none comments)

  unfoldable pub post_challenge : Action W ⊤
  post_challenge = do
    nonce ← context (codes "enroll: generate nonce") (generate d.rand (some d.rand))
    context (codes "enroll: post challenge") (d.gh.post_comment issue.number (comment_body nonce))
    d.gh.set_labels issue.number (label_awaiting_challenge ∷ []) []

  -- Step 8: the ledger decides.
  unfoldable pub decided : Form → CertificateRequest → Bytes → Option Ledger × Bytes → Action W ⊤
  decided f req app_id l = elim (decide l.0 f.repo) [
    | Decision.rejected_reserved ↦ terminal label_rejected (is_reserved app_id)
    | Decision.rejected_mismatch ↦ terminal label_rejected (owned_by_other app_id)
    | _ ↦ issue_certificate rt d issue f app_id req.public_key l.0 l.1
  ]

  unfoldable pub claim : Form → CertificateRequest → Bytes → Action W ⊤
  claim f req app_id = do l ← load_ledger rt.codec d.gh app_id; decided f req app_id l

  -- What follows the read of the file that should hold the nonce.
  unfoldable pub judge_file :
      Form → CertificateRequest → Bytes → Bytes → Result (Bytes × Bytes) → Action W ⊤
  judge_file f req app_id nonce (err e) =
      if is_not_found e then pure tt else fail (wrap (codes "enroll: fetch challenge file") e)
  judge_file f req app_id nonce (ok file) =
      if match nonce file.0 then claim f req app_id else pure tt

  unfoldable pub check_file : Form → CertificateRequest → Bytes → Bytes → Action W ⊤
  check_file f req app_id nonce = do
    answer ← attempt (d.gh.get_file f.repo file_path)
    judge_file f req app_id nonce answer

  unfoldable pub check_window : Form → CertificateRequest → Bytes → Bytes × Time → Time → Action W ⊤
  check_window f req app_id (nonce, posted_at) now =
      if expired posted_at now
      then terminal label_expired challenge_expired
      else check_file f req app_id nonce

  -- Steps 6 and 7, for the prior challenge if there is one.
  unfoldable pub judge_prior :
      Form → CertificateRequest → Bytes → Option (Bytes × Time) → Action W ⊤
  judge_prior f req app_id none = post_challenge
  judge_prior f req app_id (some prior) = do
    now ← always d.clock
    check_window f req app_id prior now

  unfoldable pub check_challenge : Form → CertificateRequest → Bytes → Action W ⊤
  check_challenge f req app_id = do prior ← prior_challenge; judge_prior f req app_id prior

  -- Step 5: the two appIds must be the same.
  unfoldable pub compare_ids : Form → CertificateRequest → Bytes → Bytes → Result Bytes → Action W ⊤
  compare_ids f req csr_app_id raw_id (err e) =
      terminal label_needs_changes (bad_info_id rt.codec.quote raw_id)
  compare_ids f req csr_app_id raw_id (ok info_app_id) =
      if bytes_eq csr_app_id info_app_id
      then check_challenge f req csr_app_id
      else terminal label_needs_changes (ids_differ rt.codec.quote csr_app_id info_app_id)

  -- The second half of step 4, for the id in info.xml.
  unfoldable pub check_id : Form → CertificateRequest → Bytes → Result Bytes → Action W ⊤
  check_id f req csr_app_id (err e) = terminal label_needs_changes (no_usable_id f.repo e)
  check_id f req csr_app_id (ok raw_id) = compare_ids f req csr_app_id raw_id (canonicalize raw_id)

  -- A missing info.xml, or a repository that the bot cannot see.
  unfoldable pub explain_missing : Form → Action W ⊤
  explain_missing f = do
    accessible ← context (codes "enroll: check repo access") (d.gh.repo_accessible f.repo)
    terminal label_needs_changes (if accessible then no_info_xml f.repo else no_access f.repo)

  -- Step 4.
  unfoldable pub judge_info :
      Form → CertificateRequest → Bytes → Result (Bytes × Bytes) → Action W ⊤
  judge_info f req csr_app_id (err e) =
      if is_not_found e then explain_missing f else fail (wrap (codes "enroll: fetch info.xml") e)
  judge_info f req csr_app_id (ok file) = check_id f req csr_app_id (extract_id rt file.0)

  unfoldable pub fetch_info : Form → CertificateRequest → Bytes → Action W ⊤
  fetch_info f req csr_app_id = do
    answer ← attempt (d.gh.get_file f.repo info_path)
    judge_info f req csr_app_id answer

  -- Step 3.
  unfoldable pub check_name : Form → CertificateRequest → Result Bytes → Action W ⊤
  check_name f req (err e) = terminal label_invalid (bad_common_name rt.codec.quote req.common_name)
  check_name f req (ok csr_app_id) = fetch_info f req csr_app_id

  -- Step 2.
  unfoldable pub check_csr : Form → Result CertificateRequest → Action W ⊤
  check_csr f (err e) = terminal label_invalid (csr_rejected e)
  check_csr f (ok req) = check_name f req (validate_strict req.common_name)

  -- Step 1.
  unfoldable pub check_form : Result Form → Action W ⊤
  check_form (err e) = terminal label_invalid (unreadable e)
  check_form (ok f) = check_csr f (Csr.parse rt f.csr)

  unfoldable pub process : Action W ⊤
  process =
      if has_label issue.labels label_issued
      then pure tt
      else check_form (parse_form rt.codec.quote issue.body)
