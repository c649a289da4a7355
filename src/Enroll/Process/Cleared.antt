-- ===== src/Enroll/Process/Cleared.antt =====
-- What a request has passed when the bot begins to mint, stage by stage. Each record says what the
-- stage read, in a world where `J` holds, and that from the world `at` the run is the minting.
use developer_certificates.Common.{◌≡◌, true, false, Option, none, some, List, Bytes}
use developer_certificates.Clock.{Time}
use developer_certificates.AppId.{validate_strict, canonicalize}
use developer_certificates.AppInfo.{extract_id}
use developer_certificates.Challenge.{file_path, expired, match}
use developer_certificates.Csr
use developer_certificates.Effects.{⊤, Result, ok}
use developer_certificates.GitHub.{Issue, Comment}
use developer_certificates.Ledger.{Ledger}
use developer_certificates.Ledger.Ownership.{IsOpenTo}
use developer_certificates.Runtime.{Runtime}
use developer_certificates.X509.{CertificateRequest}
use developer_certificates.Enroll.Form.{Form, parse_form}
use developer_certificates.Enroll.Issuance.{Deps, issue_certificate}
use developer_certificates.Enroll.Ledgers.{load_ledger}
use developer_certificates.Enroll.Messages.{label_issued}
use developer_certificates.Enroll.Process.{latest, info_path, has_label}

module _ {W : Type 0} (rt : Runtime) (d : Deps W) (issue : Issue) (I J : W → Type 0) where
  -- The run with this outcome is the minting, from a world where `I` holds, for this form, request
  -- and appId, and with the ledger that was just read, which leaves the appId open to the repository.
  pub record Mints (f : Form) (req : CertificateRequest) (app_id : Bytes) (out : Result ⊤ × W)
      : Type 0 where
    pub existing : Option Ledger
    pub prev_sha : Bytes
    pub before : W
    pub read_at : J before
    pub at : W
    pub loaded : load_ledger rt.codec d.gh app_id before ≡ (ok (existing, prev_sha), at)
    pub open_to : IsOpenTo f.repo existing
    pub keeps : I at
    pub runs : out ≡ issue_certificate rt d issue f app_id req.public_key existing prev_sha at

  -- The repository's challenge file holds the nonce.
  pub record HoldsNonce (f : Form) (req : CertificateRequest) (app_id nonce : Bytes)
      (out : Result ⊤ × W) : Type 0 where
    pub file : Bytes × Bytes
    pub asked : W
    pub read_at : J asked
    pub fetched : (d.gh.get_file f.repo file_path asked).0 ≡ ok file
    pub matched : match nonce file.0 ≡ true
    pub mints : Mints f req app_id out

  -- And it was in time.
  pub record InTime (f : Form) (req : CertificateRequest) (app_id : Bytes) (prior : Bytes × Time)
      (out : Result ⊤ × W) : Type 0 where
    pub asked : W
    pub read_at : J asked
    pub in_time : expired prior.1 (d.clock asked).0 ≡ false
    pub holds : HoldsNonce f req app_id prior.0 out

  -- The nonce is the one that the bot's own comments posted last.
  pub record Proven (f : Form) (req : CertificateRequest) (app_id : Bytes) (out : Result ⊤ × W)
      : Type 0 where
    pub comments : List Comment
    pub prior : Bytes × Time
    pub asked : W
    pub read_at : J asked
    pub own : (d.gh.own_comments issue.number asked).0 ≡ ok comments
    pub last : latest none comments ≡ some prior
    pub timely : InTime f req app_id prior out

  -- The label, the form, the request and the two appIds, before the proof of control.
  pub record Cleared (out : Result ⊤ × W) : Type 0 where
    pub form : Form
    pub req : CertificateRequest
    pub app_id : Bytes
    pub info : Bytes × Bytes
    pub raw_id : Bytes
    pub asked : W
    pub read_at : J asked
    pub fresh : has_label issue.labels label_issued ≡ false
    pub formed : parse_form rt.codec.quote issue.body ≡ ok form
    pub accepted : Csr.parse rt form.csr ≡ ok req
    pub named : validate_strict req.common_name ≡ ok app_id
    pub informed : (d.gh.get_file form.repo info_path asked).0 ≡ ok info
    pub extracted : extract_id rt info.0 ≡ ok raw_id
    pub same_id : canonicalize raw_id ≡ ok app_id
    pub proven : Proven form req app_id out
