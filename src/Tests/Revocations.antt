-- ===== src/Tests/Revocations.antt =====
-- The revocation bot, and the loop of the issuer bot's ledger, on the in-memory hub.
use developer_certificates.Common.{bytes_eq, ◌≡◌, ◌⊎◌, refl, true, none, [], codes}
use developer_certificates.AppId.{validate_strict}
use developer_certificates.Effects.{ok}
use developer_certificates.GitHub.Fake.{
  Client, client, get_ledger, post_comment, set_labels, close_issue,
}
use developer_certificates.Ledger.{
  parse, check, check_certificates, check_certificate, status_active,
}
use developer_certificates.Enroll.Ledgers.{commit_ledger}
use developer_certificates.Enroll.Ledgers.Progress.{IsReadable, commit_ledger-lands}
use developer_certificates.Enroll.Process.OnFake.{HasLedgers}
use developer_certificates.Revoke.SelfService.{Deps, process}
use developer_certificates.Revoke.SelfService.Authorized.{IsQuiet, Authorized, process-Authorized}
use developer_certificates.Tests.Data.{rt, app_id, repo, cert, ledger, codec, hub, issue, issuer}

abbrev contended : Client
contended = record hub { fail_next_put_with_conflict = true }

readable : IsReadable codec app_id contended
unfolding parse check check_certificates check_certificate status_active validate_strict bytes_eq
    codes
readable b at = (ledger, refl)

commit_ledger-lands_example :
    (commit_ledger codec client (λ c. (300, c)) app_id repo cert none (codes "stale") contended).0
    ≡ ok tt
commit_ledger-lands_example =
    commit_ledger-lands codec (λ c. (300, c)) app_id repo cert none (codes "stale") contended
      (λ l. (codes "{}", refl)) (λ k. refl) readable

abbrev verifying : Deps Client
verifying = record {
  gh = client;
  verify = λ cms c. (ok (record { signer_cert = issuer; content = [] }), c);
}

verifying-IsQuiet : IsQuiet verifying (HasLedgers hub.ledgers)
unfolding client post_comment set_labels close_issue get_ledger
verifying-IsQuiet = record {
  post_comment = λ n body c h. h;
  set_labels = λ n add remove c h. h;
  close_issue = λ n c h. h;
  get_ledger = λ app_id c h. h;
  verify = λ cms c h. h;
}

process-Authorized_example :
    HasLedgers hub.ledgers (process rt verifying issue hub).1
    ⊎ Authorized rt verifying issue (HasLedgers hub.ledgers) (process rt verifying issue hub)
process-Authorized_example =
    process-Authorized rt verifying issue (HasLedgers hub.ledgers) verifying-IsQuiet hub refl
