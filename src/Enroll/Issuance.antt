-- ===== src/Enroll/Issuance.antt =====
-- internal/enroll/steps.go, issue: the leaf is minted, recorded in the ledger and delivered.
pub mod Issued
use developer_certificates.Common.{ℕ, Option, none, some, [], ◌∷◌, ◌++◌, Bytes, codes}
use developer_certificates.Clock.{Time}
use developer_certificates.Challenge.{Reader}
use developer_certificates.CertTemplate.{leaf}
use developer_certificates.Decimal.{decimal}
use developer_certificates.Effects.{
  ⊤, Action, Result, ok, err, panicked, context, lift, pure, always, ◌>>=◌, ◌>>◌,
}
use developer_certificates.GitHub.{GitHub, Issue}
use developer_certificates.Ledger.{Certificate, Ledger, origin_github, status_active}
use developer_certificates.Runtime.{Runtime}
use developer_certificates.Signer.{Signer, format_serial, fingerprint, encode_pem}
use developer_certificates.X509
use developer_certificates.X509.{PublicKey}
use developer_certificates.Enroll.Form.{Form, owner_of}
use developer_certificates.Enroll.Ledgers.{commit_ledger}
use developer_certificates.Enroll.Messages.{
  label_awaiting_challenge, label_issued, certificate_issued,
}

-- Deps; `clock` is Clock.Now. `rounds` bounds the redraws of a serial.
pub record Deps (W : Type 0) : Type 0 where
  pub gh : GitHub W
  pub signer : Signer W
  pub clock : W → Time × W
  pub rand : Reader W
  pub rounds : ℕ

-- The owner, or the panic of `ownerOf`.
unfoldable pub owner : Bytes → Result Bytes
owner repo = elim (owner_of repo) [ none ↦ err panicked | some o ↦ ok o ]

module _ {W : Type 0} (rt : Runtime) (d : Deps W) where
  -- The signed leaf in DER, and as it is parsed back.
  unfoldable pub mint : Form → Bytes → PublicKey → Action W (Bytes × X509.Certificate)
  mint f app_id key = do
    now ← always d.clock
    o ← lift (owner f.repo)
    tmpl ← context (codes "enroll: build leaf template") (
        leaf rt.codec.quote d.rand d.rounds (record {
          app_id = app_id;
          owner = o;
          origin = origin_github;
          public_key = key;
          not_before = now;
          issuer = some d.signer.issuer_certificate;
        }))
    der ← context (codes "enroll: sign leaf") (d.signer.sign tmpl key)
    cert ← context (codes "enroll: parse issued leaf") (lift (rt.parse_certificate der))
    pure (der, cert)

  -- The ledger's record of the leaf.
  unfoldable pub entry : Issue → Bytes → X509.Certificate → Certificate
  entry issue der cert = record {
    serial = format_serial cert.serial_number;
    fingerprint = fingerprint rt der;
    not_before = cert.not_before;
    not_after = cert.not_after;
    requester = record {
      origin = origin_github;
      login = issue.author.login;
      user_id = issue.author.user_id;
    };
    issue_ref = codes "#" ++ decimal issue.number;
    status = status_active;
    revoked_from = none;
    reason = [];
    actor = [];
  }

  unfoldable pub deliver : Issue → Bytes → Bytes → Action W ⊤
  deliver issue app_id der = do
    let chain = encode_pem rt der ++ encode_pem rt d.signer.issuer_certificate.raw
    context (codes "enroll: deliver cert")
        (d.gh.post_comment issue.number (certificate_issued app_id chain))
    context (codes "enroll: set issued label")
        (d.gh.set_labels issue.number (label_issued ∷ []) (label_awaiting_challenge ∷ []))
    d.gh.close_issue issue.number

  unfoldable pub issue_certificate :
      Issue → Form → Bytes → PublicKey → Option Ledger → Bytes → Action W ⊤
  issue_certificate issue f app_id key existing prev_sha = do
    minted ← mint f app_id key
    commit_ledger rt.codec d.gh d.clock app_id f.repo (entry issue minted.0 minted.1) existing
        prev_sha
    deliver issue app_id minted.0
