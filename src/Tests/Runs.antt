-- ===== src/Tests/Runs.antt =====
-- The theorems on whole runs, at runs against the in-memory hub.
use developer_certificates.Common.{ℕ, ◌<◌, ◌≡◌, ◌↔◌, ◌⊎◌, refl, some, codes}
use developer_certificates.CertTemplate.{
  leaf, Inputs, random_serial, big_endian, template, rand_int, check_inputs, is_nil,
}
use developer_certificates.CertTemplate.Bounds.{IsLeaf, leaf-IsLeaf, Draws, random_serial_iff}
use developer_certificates.Effects.{ok, context, ◌>>=◌}
use developer_certificates.AppId.{validate_strict}
use developer_certificates.Text.{trim_space}
use developer_certificates.Enroll.Form.{owner_of}
use developer_certificates.Revoke
use developer_certificates.GitHub.Fake.{Client}
use developer_certificates.Ledger.{marshal, parse, status_active}
use developer_certificates.X509.{Template}
use developer_certificates.Enroll.Issuance.{issue_certificate, mint, owner, deliver}
use developer_certificates.Enroll.Issuance.Issued.{Issued, issue_certificate-Issued}
use developer_certificates.Enroll.Ledgers.{commit_ledger, commit_from, write_extended, after_write}
use developer_certificates.Enroll.Ledgers.Written.{Written, commit_ledger-Written}
use developer_certificates.Enroll.Process.{process}
use developer_certificates.Enroll.Process.Cleared.{Cleared}
use developer_certificates.Enroll.Process.Clearance.{process-cases}
use developer_certificates.Enroll.Process.OnFake.{
  HasLedgers, on_fake, on_fake-IsQuiet, on_fake-IsRead, process-HasLedgers,
}
use developer_certificates.Revoke.Apply.{
  Revocation, apply_revocation, apply_from, write_flipped, flipped, target, load_ledger, loaded,
}
use developer_certificates.Revoke.Apply.Rewritten.{Rewritten, apply_revocation-Rewritten}
use developer_certificates.Revoke.Find.{find_by_serial}
use developer_certificates.Revoke.Privileged.{
  PrivilegedRequest, privileged_process, check_request, require, in_ledger, revoke, resolve_date,
}
use developer_certificates.Revoke.Privileged.Safety.{Revoked, privileged_process-Revoked}
use developer_certificates.Tests.Data.{
  app_id, repo, cert, ledger, codec, rt, deps, hub, issue, form, key, issuer, rand-IsFull, ones,
}

still : (k : Client) → (deps.clock k).1 ≡ k
unfolding deps
still k = refl

process-HasLedgers_example :
    ((process rt (on_fake deps) issue hub).1.ledgers ≡ hub.ledgers)
    ⊎ Cleared rt
        (on_fake deps)
        issue
        (HasLedgers hub.ledgers)
        (λ k. k ≡ hub)
        (process rt (on_fake deps) issue hub)
unfolding deps
process-HasLedgers_example = process-HasLedgers rt deps issue hub still (λ n c h. h)

process-cases_example :
    HasLedgers hub.ledgers (process rt (on_fake deps) issue hub).1
    ⊎ Cleared rt
        (on_fake deps)
        issue
        (HasLedgers hub.ledgers)
        (λ k. k ≡ hub)
        (process rt (on_fake deps) issue hub)
unfolding deps
process-cases_example =
    process-cases rt (on_fake deps) issue (HasLedgers hub.ledgers) (λ k. k ≡ hub)
      (on_fake-IsQuiet deps hub.ledgers (λ c h. h) (λ n c h. h)) (on_fake-IsRead deps hub still) hub
      refl refl

abbrev inputs : Inputs
inputs = record {
  app_id = app_id;
  owner = codes "o";
  origin = codes "github";
  public_key = key;
  not_before = 100;
  issuer = some issuer;
}

drawn : (random_serial deps.rand 1 hub).0 ≡ ok (big_endian 0 (ones 16))
unfolding random_serial deps ◌>>=◌ context rand_int big_endian
drawn = refl

random_serial_iff_example :
    (random_serial deps.rand 1 hub ≡ (ok (big_endian 0 (ones 16)), hub))
    ↔ ((k : ℕ) × (k < 1) × Draws deps.rand (big_endian 0 (ones 16)) hub k hub)
random_serial_iff_example = random_serial_iff deps.rand 1 (big_endian 0 (ones 16)) hub hub

-- The same for the whole minting, whose result is not spelled out.
minted :
    (issue_certificate rt deps issue form app_id key (some ledger) (codes "sha1") hub).0 ≡ ok tt
unfolding issue_certificate deps hub codes ◌>>=◌ mint owner owner_of context leaf check_inputs
    validate_strict is_nil random_serial rand_int big_endian commit_ledger commit_from
    write_extended marshal after_write deliver
minted = refl

issue_certificate-Issued_example :
    Issued rt deps issue form app_id key
      (some ledger)
      (codes "sha1")
      (issue_certificate rt deps issue form app_id key (some ledger) (codes "sha1") hub)
issue_certificate-Issued_example =
    issue_certificate-Issued rt deps issue form app_id key (some ledger) (codes "sha1") hub
      rand-IsFull minted

unfoldable committed_hub : Client
committed_hub =
    (commit_ledger codec deps.gh deps.clock app_id repo cert (some ledger) (codes "sha1") hub).1

committed :
    commit_ledger codec deps.gh deps.clock app_id repo cert (some ledger) (codes "sha1") hub
    ≡ (ok tt, committed_hub)
unfolding committed_hub commit_ledger deps hub codes ◌>>=◌ commit_from write_extended context
    marshal after_write
committed = refl

commit_ledger-Written_example :
    Written codec deps.gh app_id repo cert
      (deps.clock hub).0
      (some ledger)
      (codes "sha1")
      committed_hub
commit_ledger-Written_example =
    commit_ledger-Written codec deps.gh deps.clock app_id repo cert (some ledger) (codes "sha1") hub
      committed_hub committed

abbrev lost : PrivilegedRequest
lost = record {
  app_id = app_id;
  serial = codes " 0x1f";
  reason = codes "lost";
  revoked_from = some 150;
  actor = codes "admin";
}

unfoldable revoked_hub : Client
revoked_hub = (privileged_process rt deps.gh lost hub).1

revokes : privileged_process rt deps.gh lost hub ≡ (ok tt, revoked_hub)
unfolding revoked_hub privileged_process deps hub codes ◌>>=◌ check_request validate_strict require
    trim_space load_ledger loaded parse status_active in_ledger revoke target find_by_serial
    resolve_date apply_revocation apply_from write_flipped context marshal Revoke.Apply.after_write
    flipped
revokes = refl

privileged_process-Revoked_example : Revoked rt deps.gh lost revoked_hub
privileged_process-Revoked_example =
    privileged_process-Revoked rt deps.gh lost hub revoked_hub revokes

abbrev rev : Revocation
rev = record { reason = codes "lost"; revoked_from = 150; actor = codes "admin" }

unfoldable applied_hub : Client
applied_hub =
    (apply_revocation codec deps.gh app_id (λ l. find_by_serial l (codes "0x1f")) rev (some ledger)
      (codes "sha1") hub).1

applies :
    apply_revocation codec deps.gh app_id
      (λ l. find_by_serial l (codes "0x1f"))
      rev
      (some ledger)
      (codes "sha1")
      hub
    ≡ (ok (codes "0x1f"), applied_hub)
unfolding applied_hub apply_revocation deps hub codes ◌>>=◌ apply_from target find_by_serial
    write_flipped context marshal Revoke.Apply.after_write flipped
applies = refl

apply_revocation-Rewritten_example :
    Rewritten codec deps.gh app_id
      (λ l. find_by_serial l (codes "0x1f"))
      rev
      (some ledger)
      (codes "sha1")
      (codes "0x1f")
      applied_hub
apply_revocation-Rewritten_example =
    apply_revocation-Rewritten codec deps.gh app_id (λ l. find_by_serial l (codes "0x1f")) rev
      (some ledger) (codes "sha1") hub (codes "0x1f") applied_hub applies

abbrev built : Template
built = template inputs issuer (big_endian 0 (ones 16))

builds : (leaf (λ s. s) deps.rand 1 inputs hub).0 ≡ ok built
unfolding leaf deps ◌>>=◌ context rand_int big_endian random_serial check_inputs validate_strict
    is_nil codes
builds = refl

leaf-IsLeaf_example : IsLeaf inputs built
leaf-IsLeaf_example = leaf-IsLeaf (λ s. s) deps.rand 1 inputs hub built rand-IsFull builds
