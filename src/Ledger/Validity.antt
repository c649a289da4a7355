-- ===== src/Ledger/Validity.antt =====
-- What holds of every ledger that `parse` returns, and that it is all that `parse` checks.
use developer_certificates.Common.{
  ◌≡◌, ◌≢◌, ◌↔◌, ◌⊎◌, inl, inr, refl, none, List, [], ◌∷◌, Bytes, codes, bytes_eq_iff, All, arith,
  Option-cases,
}
use developer_certificates.Effects.{ok, Result-cases}
use developer_certificates.AppId.{validate_strict}
use developer_certificates.AppId.Grammar.{IsAppId, validate_strict_iff, validate_strict_of_IsAppId}
use developer_certificates.Ledger.{
  Certificate, Ledger, Codec, status_active, status_revoked, check_certificate, check_certificates,
  check, parse,
}

-- Active, or revoked with the date from which.
abbrev pub HasStatus : Certificate → Type 0
HasStatus c = (c.status ≡ status_active) ⊎ ((c.status ≡ status_revoked) × (c.revoked_from ≢ none))

pub record IsWellFormed (l : Ledger) : Type 0 where
  pub named : IsAppId l.app_id
  pub statuses : All HasStatus l.certificates

pub active-ne-revoked : status_active ≢ status_revoked
unfolding status_active status_revoked codes
active-ne-revoked = ground arith

module _ (codec : Codec) where
  check_certificate_iff : (c : Certificate) → (check_certificate codec c ≡ none) ↔ HasStatus c
  unfolding check_certificate
  check_certificate_iff c = ground (
    arith,
    bytes_eq_iff c.status status_active,
    bytes_eq_iff c.status status_revoked,
    active-ne-revoked,
  )

  check_certificates_iff :
      (cs : List Certificate) → (check_certificates codec cs ≡ none) ↔ All HasStatus cs
  unfolding check_certificates
  check_certificates_iff [] = ground arith
  check_certificates_iff (c ∷ cs) =
      ground (arith, check_certificate_iff c, check_certificates_iff cs)

  check-eq-ok : (l m : Ledger) → check codec l ≡ ok m → (m ≡ l) × IsWellFormed l
  unfolding check
  check-eq-ok l m h = elim (Result-cases (validate_strict l.app_id)) [
    | inl (a, e) ↦ elim (Option-cases (check_certificates codec l.certificates)) [
      | inl clean ↦ (
        ground arith,
        record {
          named = ((validate_strict_iff l.app_id a).0 e).1;
          statuses = (check_certificates_iff l.certificates).0 clean;
        },
      )
      | inr (bad, found) ↦ ground arith
    ]
    | inr (bad, e) ↦ ground arith
  ]

  check_of_IsWellFormed : (l m : Ledger) → m ≡ l → IsWellFormed l → check codec l ≡ ok m
  unfolding check
  check_of_IsWellFormed l m same w = ground (
    arith,
    validate_strict_of_IsAppId l.app_id w.named,
    (check_certificates_iff l.certificates).1 w.statuses,
  )

  -- The checks pass exactly on the well-formed ledgers, and pass them on unchanged.
  pub check_iff : (l m : Ledger) → (check codec l ≡ ok m) ↔ ((m ≡ l) × IsWellFormed l)
  check_iff l m = (check-eq-ok l m, λ h. check_of_IsWellFormed l m h.0 h.1)

  -- Every ledger that is read is well formed: its appId is legal, and each certificate is active, or
  -- revoked with a date.
  pub parse-IsWellFormed : (text : Bytes) (l : Ledger) → parse codec text ≡ ok l → IsWellFormed l
  unfolding parse
  parse-IsWellFormed text l h = elim (Result-cases (codec.decode text)) [
    | inl (m, e) ↦ let (same, w) = check-eq-ok m l (ground arith) in rw same w
    | inr (bad, e) ↦ ground arith
  ]

  -- A well-formed ledger that the codec reads back from its encoding is parsed from it.
  pub parse_of_IsWellFormed :
      (text : Bytes) (l : Ledger)
      → codec.decode text ≡ ok l
      → IsWellFormed l
      → parse codec text ≡ ok l
  unfolding parse
  parse_of_IsWellFormed text l decoded w = rw (decoded, parse) (check_of_IsWellFormed l l refl w)
