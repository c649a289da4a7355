-- ===== src/Tests/Race.antt =====
-- Two claims of one appId, of which the later loses the race for the ledger.
use developer_certificates.Common.{◌≡◌, ◌≢◌, refl, none, some, [], codes, bytes_eq}
use developer_certificates.AppId.{validate_strict}
use developer_certificates.Effects.{ok}
use developer_certificates.GitHub.Fake.{Blob, client}
use developer_certificates.Ledger.{parse, status_active}
use developer_certificates.Enroll.Ledgers.{commit_ledger}
use developer_certificates.Enroll.Ledgers.Appended.{IsAppended, commit_ledger-IsAppended}
use developer_certificates.Tests.Data.{app_id, cert, ledger, codec, hub}

-- The ledger of the first repository, which a claim for "x/y" that found none does not know of.
abbrev theirs : Blob
theirs = record { content = codes "{}"; sha = codes "sha1" }

parsed : parse codec theirs.content ≡ ok ledger
unfolding parse validate_strict codes status_active bytes_eq
parsed = refl

there : hub.ledgers app_id ≡ some theirs
unfolding hub
there = refl

late : theirs.sha ≢ []
unfolding codes
late e = cc e

commit_ledger-IsAppended_example :
    IsAppended codec app_id
      (codes "x/y")
      cert
      theirs
      ledger
      parsed
      (λ l. (codes "{}", refl))
      (commit_ledger codec client (λ c. (300, c)) app_id (codes "x/y") cert none [] hub)
commit_ledger-IsAppended_example =
    commit_ledger-IsAppended codec (λ c. (300, c)) app_id (codes "x/y") cert none [] hub theirs
      ledger parsed (λ l. (codes "{}", refl)) (λ c. refl) there late
