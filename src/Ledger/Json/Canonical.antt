-- ===== src/Ledger/Json/Canonical.antt =====
-- The canonical text is the same before and after a round trip.
use developer_certificates.Common.{
  ◌/◌, ◌<◌, ◌≡◌, refl, Option, none, some, List, [], ◌∷◌, Bytes, length, map, arith, ℕ,
}
use mathlib.Core.Option
use mathlib.Core.Option.{some_inj}
use developer_certificates.Clock.{Time, second}
use developer_certificates.Clock.Layout.{time_text}
use developer_certificates.Ledger.{Certificate, Ledger}
use developer_certificates.Ledger.Json.{
  timestamp, revoked_from, revocation, certificate, others, certificates, ledger, marshal_text,
}
use developer_certificates.Ledger.Json.Read.{scan_ledger}
use developer_certificates.Ledger.Json.RoundTrip.{to_second, truncated}
use developer_certificates.Ledger.Json.Trip.{IsReadableLedger, truncated_ledger, scan_ledger-ledger}

-- The layout shows nothing below the second.
pub time_text-to_second : (t : Time) (r : Bytes) → time_text (to_second t) r ≡ time_text t r
unfolding time_text
time_text-to_second t r = let same : to_second t / second ≡ t / second = omega arith in rw same refl

timestamp-to_second : (t : Time) (r : Bytes) → timestamp (to_second t) r ≡ timestamp t r
unfolding timestamp
timestamp-to_second t r = rw (time_text-to_second t (34 ∷ r)) refl

revoked_from-to_second :
    (o : Option Time) (r : Bytes) → revoked_from (Option.map to_second o) r ≡ revoked_from o r
unfolding revoked_from
revoked_from-to_second none r = refl
revoked_from-to_second (some t) r = rw (timestamp-to_second t r) refl

certificate-truncated :
    (c : Certificate) (r : Bytes) → certificate (truncated c) r ≡ certificate c r
unfolding certificate revocation
certificate-truncated c r = simp (timestamp-to_second, revoked_from-to_second)

others-truncated : (cs : List Certificate) (r : Bytes) → others (map truncated cs) r ≡ others cs r
unfolding others
others-truncated [] r = refl
others-truncated (c ∷ cs) r = simp (certificate-truncated, others-truncated cs)

certificates-truncated :
    (cs : List Certificate) (r : Bytes) → certificates (map truncated cs) r ≡ certificates cs r
unfolding certificates
certificates-truncated [] r = refl
certificates-truncated (c ∷ cs) r = simp (certificate-truncated, others-truncated)

marshal_text-truncated : (l : Ledger) → marshal_text (truncated_ledger l) ≡ marshal_text l
unfolding marshal_text ledger
marshal_text-truncated l = simp (timestamp-to_second, certificates-truncated)

-- What Marshal writes is read back as the ledger with its times to the second, and written again it is
-- the same text, byte by byte. Every time is before the year 10000, and every text of the ledger is
-- in UTF-8 without U+2028 and U+2029; the rounds of the reader are more than the certificates.
pub scan_ledger-marshal_text :
    (rounds : ℕ) (l : Ledger)
    → length l.certificates < rounds
    → IsReadableLedger l
    → (scan_ledger rounds (marshal_text l) ≡ some (truncated_ledger l, 10 ∷ []))
      × (marshal_text (truncated_ledger l) ≡ marshal_text l)
unfolding marshal_text
scan_ledger-marshal_text rounds l h readable =
    (scan_ledger-ledger rounds l (10 ∷ []) h readable, marshal_text-truncated l)
