-- ===== src/Tests/Retries.antt =====
-- The loops of the bots against a hub that refuses their first write, as steps of interleaved runs.
use developer_certificates.Common.{◌≡◌, refl, some, [], codes}
use developer_certificates.AppId.{validate_strict}
use developer_certificates.Effects.{ok, errorf, context, ◌>>=◌}
use developer_certificates.GitHub.{err_conflict}
use developer_certificates.GitHub.Fake.{Client}
use developer_certificates.Ledger.{marshal, parse, status_active}
use developer_certificates.Enroll.Ledgers.{
  commit_from, write_extended, after_write, load_ledger, loaded,
}
use developer_certificates.Revoke.Apply.{
  Revocation, FindFunc, apply_from, write_flipped, flipped, target,
}
use developer_certificates.Revoke.Apply
use developer_certificates.Revoke.Find.{find_by_serial}
use developer_certificates.Bots.{issue, revoke, holding, done, System, Reach}
use developer_certificates.Bots.Runs.{commit_from-Reach}
use developer_certificates.Bots.Revocations.{apply_from-Reach}
use developer_certificates.Tests.Data.{app_id, repo, cert, ledger, codec, deps, hub}

-- The run holds the ledger under a SHA that is not the hub's.
abbrev outdated : System Client
outdated = record { world = hub; phase = λ i. holding (some ledger) (codes "sha0") }

unfoldable committed_hub : Client
committed_hub =
    (commit_from codec deps.gh app_id repo cert 300 2 (errorf []) (some ledger) (codes "sha0")
      hub).1

commits :
    commit_from codec deps.gh app_id repo cert 300 2 (errorf []) (some ledger) (codes "sha0") hub
    ≡ (ok tt, committed_hub)
unfolding committed_hub deps hub codes ◌>>=◌ commit_from write_extended after_write context marshal
    load_ledger loaded parse validate_strict status_active err_conflict
commits = refl

commit_from-Reach_example :
    (t : System Client) × Reach codec deps.gh
      (λ c. c.ledgers)
      app_id
      (λ i. issue repo cert 300)
      outdated
      t
    × (t.world ≡ committed_hub)
    × (t.phase 1 ≡ done cert.serial)
commit_from-Reach_example =
    commit_from-Reach codec deps.gh (λ c. c.ledgers) app_id (λ i. issue repo cert 300) 1 repo cert
      300 refl 2 (errorf []) (some ledger) (codes "sha0") outdated committed_hub refl commits

abbrev lost : Revocation
lost = record { reason = codes "lost"; revoked_from = 150; actor = [] }

abbrev the_cert : FindFunc
the_cert l = find_by_serial l (codes "0x1f")

unfoldable revoked_hub : Client
revoked_hub =
    (apply_from codec deps.gh app_id the_cert lost 2 (errorf []) (some ledger) (codes "sha0") hub).1

revokes :
    apply_from codec deps.gh app_id the_cert lost 2 (errorf []) (some ledger) (codes "sha0") hub
    ≡ (ok (codes "0x1f"), revoked_hub)
unfolding revoked_hub deps hub codes ◌>>=◌ apply_from write_flipped Apply.after_write target
    find_by_serial flipped context marshal Apply.load_ledger Apply.loaded parse validate_strict
    status_active err_conflict
revokes = refl

apply_from-Reach_example :
    (t : System Client) × Reach codec deps.gh
      (λ c. c.ledgers)
      app_id
      (λ i. revoke the_cert lost)
      outdated
      t
    × (t.world ≡ revoked_hub)
    × (t.phase 1 ≡ done (codes "0x1f"))
apply_from-Reach_example =
    apply_from-Reach codec deps.gh (λ c. c.ledgers) app_id (λ i. revoke the_cert lost) 1 the_cert
      lost refl 2 (errorf []) (some ledger) (codes "sha0") (codes "0x1f") outdated revoked_hub refl
      revokes
