-- ===== src/Ledger/Json/Trip.antt =====
-- The canonical text of a ledger is read back.
use developer_certificates.Common.{
  ℕ, zero, suc, ◌<◌, ◌≡◌, refl, ◌∙◌, Bool, true, false, none, some, List, [], ◌∷◌, ◌++◌, Bytes,
  codes, strip_prefix, strip_prefix-append, All, length, map, arith,
}
use developer_certificates.Clock.Layout.{year_10000}
use developer_certificates.Ledger.{Certificate, Ledger}
use developer_certificates.Ledger.Json.{
  margin, key, first, next, close, certificate, others, certificates, reserved, ledger,
}
use developer_certificates.Ledger.Json.Read.{
  maybe, scan_others, scan_listed, scan_certificates, scan_true, scan_ledger,
}
use developer_certificates.Ledger.Json.RoundTrip.{
  to_second, truncated, IsReadable, field-scans, maybe-scans, maybe-absent,
  scan_timestamp-timestamp, scan_owner-owner, scan_certificate-certificate,
}
use developer_certificates.Text.Json.RoundTrip.{IsText, scan_string-string}
use developer_certificates.Text.Scan.{>>=-scans, lit-scans}

scan_others-others :
    (rounds : ℕ) (cs : List Certificate) (r : Bytes)
    → length cs < rounds
    → All IsReadable cs
    → strip_prefix (b',' ∷ margin 2) r ≡ none
    → scan_others rounds (others cs r) ≡ some (map truncated cs, r)
unfolding scan_others others
scan_others-others zero cs r h readable ends = absurd (omega (arith, h))
scan_others-others (suc rounds) [] r h readable ends = rw (ends, scan_others) refl
scan_others-others (suc rounds) (c ∷ cs) r h (here, rest) ends =
    rw (strip_prefix-append (b',' ∷ margin 2) (certificate c (others cs r)), scan_others)
      (>>=-scans _ _ _ (scan_certificate-certificate c _ here)
        ∙ >>=-scans _ _ _ (scan_others-others rounds cs r (omega (arith, h)) rest ends))

scan_certificates-certificates :
    (rounds : ℕ) (cs : List Certificate) (r : Bytes)
    → length cs < rounds
    → All IsReadable cs
    → scan_certificates rounds (certificates cs r) ≡ some (map truncated cs, r)
unfolding scan_certificates certificates scan_listed strip_prefix codes margin
scan_certificates-certificates rounds [] r h readable = refl
scan_certificates-certificates rounds (c ∷ cs) r h (here, rest) =
    >>=-scans _ _ _ (lit-scans (b'[' ∷ margin 2) _)
    ∙ (>>=-scans _ _ _ (scan_certificate-certificate c _ here)
        ∙ (>>=-scans _ _ _
              (scan_others-others rounds cs (margin 1 ++ b']' ∷ r) (omega (arith, h)) rest refl)
            ∙ >>=-scans _ _ _ (lit-scans (margin 1 ++ b']' ∷ []) r)))

-- Every text of the ledger is in UTF-8 with no separator, and every time is before the year 10000.
pub record IsReadableLedger (l : Ledger) : Type 0 where
  pub app_id : IsText 0 l.app_id
  pub origin : IsText 0 l.owner.origin
  pub repo : IsText 0 l.owner.repo
  pub claimed_at : l.claimed_at < year_10000
  pub certificates : All IsReadable l.certificates

abbrev pub truncated_ledger : Ledger → Ledger
truncated_ledger l = record l {
  claimed_at = to_second l.claimed_at;
  certificates = map truncated l.certificates;
}

reserved_absent :
    (s : Bytes)
    → strip_prefix (next 1 (codes "reserved")) (next 1 (codes "certificates") ++ s) ≡ none
unfolding next key margin codes strip_prefix
reserved_absent s = refl

maybe-reserved :
    (b : Bool) (s : Bytes)
    → maybe
        (next 1 (codes "reserved"))
        false
        scan_true
        (reserved b (next 1 (codes "certificates") ++ s))
      ≡ some (b, next 1 (codes "certificates") ++ s)
unfolding reserved scan_true
maybe-reserved true s =
    maybe-scans (next 1 (codes "reserved")) false _ _ (>>=-scans _ _ _ (lit-scans (codes "true") _))
maybe-reserved false s = maybe-absent _ false _ _ (reserved_absent s)

-- A ledger with its times to the second is read back from its canonical text, whatever follows the
-- text: where every time is before the year 10000, and every text of the ledger is in UTF-8 and has
-- neither of the two separators that JSON escapes beyond what it must, in as many rounds as the ledger
-- has certificates and one.
pub scan_ledger-ledger :
    (rounds : ℕ) (l : Ledger) (r : Bytes)
    → length l.certificates < rounds
    → IsReadableLedger l
    → scan_ledger rounds (ledger l r) ≡ some (truncated_ledger l, r)
unfolding scan_ledger ledger
scan_ledger-ledger rounds l r h readable =
    >>=-scans _ _ _
      (field-scans (first 1 (codes "appId")) _ _ (scan_string-string l.app_id _ readable.app_id))
    ∙ (>>=-scans _ _ _ (
          field-scans (next 1 (codes "owner")) _ _
            (scan_owner-owner l.owner _ readable.origin readable.repo))
        ∙ (>>=-scans _ _ _ (
              field-scans (next 1 (codes "claimedAt")) _ _
                (scan_timestamp-timestamp l.claimed_at _ readable.claimed_at))
            ∙ (>>=-scans _ _ _ (maybe-reserved l.reserved _)
                ∙ (>>=-scans _ _ _ (
                      field-scans (next 1 (codes "certificates")) _ _ (
                        scan_certificates-certificates rounds l.certificates _ h
                          readable.certificates))
                    ∙ >>=-scans _ _ _ (lit-scans (close 0) r)))))
