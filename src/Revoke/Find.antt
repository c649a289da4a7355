-- ===== src/Revoke/Find.antt =====
-- The certificate of a ledger that a revocation is about; a nil ledger holds none.
use developer_certificates.Common.{
  ℕ, suc, Option, none, some, List, [], ◌∷◌, Bytes, bytes_eq, if◌then◌else◌,
}
use developer_certificates.Ledger.{Certificate, Ledger}

-- The index of the first certificate whose field is the key; `none` is -1.
unfoldable pub index_by : (Certificate → Bytes) → Bytes → List Certificate → Option ℕ
unfolding bytes_eq
index_by field key [] = none
index_by field key (c ∷ cs) =
    let later : Option ℕ = elim (index_by field key cs) [ none ↦ none | some i ↦ some (suc i) ] in
    if bytes_eq (field c) key then some 0 else later

unfoldable pub find_by_fingerprint : Option Ledger → Bytes → Option ℕ
unfolding index_by
find_by_fingerprint none fp = none
find_by_fingerprint (some l) fp = index_by (λ c. c.fingerprint) fp l.certificates

unfoldable pub find_by_serial : Option Ledger → Bytes → Option ℕ
unfolding index_by
find_by_serial none serial = none
find_by_serial (some l) serial = index_by (λ c. c.serial) serial l.certificates
