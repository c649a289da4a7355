-- ===== src/Tests/Records.antt =====
-- The theorems on ledgers, the in-memory hub and the revocation list at concrete inputs.
use developer_certificates.Common.{ℕ, ◌≡◌, ◌≢◌, ◌↔◌, ◌⊎◌, inl, refl, some, codes, arith, get_elem?}
use developer_certificates.AppId.{validate_strict}
use developer_certificates.AppId.Grammar.{IsAppId, validate_strict_iff}
use developer_certificates.Effects.{ok}
use developer_certificates.Ledger.{Decision, decide, check, status_active, status_revoked}
use developer_certificates.Ledger.Ownership.{IsOpenTo, decide_passes_iff}
use developer_certificates.Ledger.Validity.{HasStatus, IsWellFormed, check_iff}
use developer_certificates.Revoke.Apply.{Revocation, flipped}
use developer_certificates.Revoke.Apply.Flip.{flipped_lem}
use developer_certificates.Tests.Data.{app_id, repo, cert, ledger, codec}

decide_passes_iff_example :
    ((decide (some ledger) repo ≡ Decision.new_claim)
      ⊎ (decide (some ledger) repo ≡ Decision.allowed))
    ↔ IsOpenTo repo (some ledger)
decide_passes_iff_example = decide_passes_iff (some ledger) repo

allowed : decide (some ledger) repo ≡ Decision.allowed
unfolding decide codes
allowed = refl

other : codes "x/y" ≢ repo
unfolding codes
other = ground arith

legal : IsAppId app_id
unfolding validate_strict codes
legal = ((validate_strict_iff app_id app_id).0 refl).1

status : HasStatus cert
unfolding status_active codes
status = inl refl

ledger-IsWellFormed : IsWellFormed ledger
ledger-IsWellFormed = record { named = legal; statuses = (status, tt) }

check_iff_example : (check codec ledger ≡ ok ledger) ↔ ((ledger ≡ ledger) × IsWellFormed ledger)
check_iff_example = check_iff codec ledger ledger

abbrev rev : Revocation
rev = record { reason = codes "lost"; revoked_from = 150; actor = codes "admin" }

flipped_lem_example :
    let m = flipped rev ledger 0 cert in
    IsWellFormed m
    × (m.app_id ≡ ledger.app_id)
    × (m.owner ≡ ledger.owner)
    × (m.claimed_at ≡ ledger.claimed_at)
    × (m.reserved ≡ ledger.reserved)
    × ((j : ℕ) → j ≢ 0 → get_elem? m.certificates j ≡ get_elem? ledger.certificates j)
    × (get_elem? m.certificates 0
        ≡ some (record cert {
          status = status_revoked;
          revoked_from = some 150;
          reason = codes "lost";
          actor = codes "admin";
        }))
flipped_lem_example = flipped_lem rev ledger 0 cert refl ledger-IsWellFormed
