-- ===== src/Ledger/Json/Read.antt =====
-- A reader of the canonical texts of ledgers. It accepts no other layout, which the decoder of
-- encoding/json does.
use developer_certificates.Common.{
  ℕ, zero, suc, Bool, true, false, Option, none, some, List, [], ◌∷◌, ◌++◌, Bytes, codes,
  strip_prefix,
}
use developer_certificates.Clock.{Time}
use developer_certificates.Clock.Layout.{scan_time}
use developer_certificates.Ledger.{Owner, Requester, Certificate, Ledger}
use developer_certificates.Ledger.Json.{margin, first, next, close}
use developer_certificates.Text.Json.RoundTrip.{scan_string, scan_int}
use developer_certificates.Text.Scan.{Scan, ◌>>=◌, ◌>>◌, pure, lit}

-- A value behind its key, and one that may be missing with its key.
unfoldable pub field : {A : Type 0} → Bytes → Scan A → Scan A
field w m = lit w >> m

unfoldable pub maybe : {A : Type 0} → Bytes → A → Scan A → Scan A
maybe w absent m s = elim (strip_prefix w s) [ none ↦ some (absent, s) | some r ↦ m r ]

unfoldable pub scan_timestamp : Scan Time
scan_timestamp = do lit (34 ∷ []); t ← scan_time; lit (34 ∷ []); pure t

unfoldable pub scan_owner : Scan Owner
scan_owner = do
  origin ← field (first 2 (codes "origin")) scan_string
  repo ← field (next 2 (codes "repo")) scan_string
  lit (close 1)
  pure (record { origin = origin; repo = repo })

unfoldable pub scan_requester : Scan Requester
scan_requester = do
  origin ← field (first 4 (codes "origin")) scan_string
  login ← field (next 4 (codes "login")) scan_string
  user_id ← field (next 4 (codes "userId")) scan_int
  lit (close 3)
  pure (record { origin = origin; login = login; user_id = user_id })

unfoldable pub scan_some_time : Scan (Option Time)
scan_some_time = do t ← scan_timestamp; pure (some t)

unfoldable pub scan_revocation : Scan (Option Time × Bytes × Bytes)
scan_revocation = do
  from ← maybe (next 3 (codes "revokedFrom")) none scan_some_time
  reason ← maybe (next 3 (codes "reason")) [] scan_string
  actor ← maybe (next 3 (codes "actor")) [] scan_string
  pure (from, reason, actor)

unfoldable pub scan_certificate : Scan Certificate
scan_certificate = do
  serial ← field (first 3 (codes "serial")) scan_string
  fingerprint ← field (next 3 (codes "fingerprint")) scan_string
  not_before ← field (next 3 (codes "notBefore")) scan_timestamp
  not_after ← field (next 3 (codes "notAfter")) scan_timestamp
  requester ← field (next 3 (codes "requester")) scan_requester
  issue_ref ← field (next 3 (codes "issueRef")) scan_string
  status ← field (next 3 (codes "status")) scan_string
  revocation ← scan_revocation
  lit (close 2)
  pure (record {
    serial = serial;
    fingerprint = fingerprint;
    not_before = not_before;
    not_after = not_after;
    requester = requester;
    issue_ref = issue_ref;
    status = status;
    revoked_from = revocation.0;
    reason = revocation.1;
    actor = revocation.2;
  })

-- At most as many certificates as there are rounds.
unfoldable pub scan_others : ℕ → Scan (List Certificate)
scan_others zero s = none
scan_others (suc rounds) s =
    let rest = (do c ← scan_certificate; cs ← scan_others rounds; pure (c ∷ cs)) in
    elim (strip_prefix (b',' ∷ margin 2) s) [ none ↦ some ([], s) | some r ↦ rest r ]

unfoldable pub scan_listed : ℕ → Scan (List Certificate)
scan_listed rounds = do
  lit (b'[' ∷ margin 2)
  c ← scan_certificate
  cs ← scan_others rounds
  lit (margin 1 ++ b']' ∷ [])
  pure (c ∷ cs)

unfoldable pub scan_certificates : ℕ → Scan (List Certificate)
scan_certificates rounds s = elim (strip_prefix (codes "[]") s) [
  | none ↦ scan_listed rounds s
  | some r ↦ some ([], r)
]

unfoldable pub scan_true : Scan Bool
scan_true = do lit (codes "true"); pure true

unfoldable pub scan_ledger : ℕ → Scan Ledger
scan_ledger rounds = do
  app_id ← field (first 1 (codes "appId")) scan_string
  owner ← field (next 1 (codes "owner")) scan_owner
  claimed_at ← field (next 1 (codes "claimedAt")) scan_timestamp
  reserved ← maybe (next 1 (codes "reserved")) false scan_true
  certificates ← field (next 1 (codes "certificates")) (scan_certificates rounds)
  lit (close 0)
  pure (record {
    app_id = app_id;
    owner = owner;
    claimed_at = claimed_at;
    reserved = reserved;
    certificates = certificates;
  })
