-- ===== src/Ledger/Ownership.antt =====
-- Who may have a certificate for an appId.
use developer_certificates.Common.{
  ◌≡◌, ◌≢◌, ◌↔◌, ◌⊎◌, inl, refl, true, false, Option, none, some, Bytes, bytes_eq_iff, arith,
}
use developer_certificates.Ledger.{Ledger, Decision, decide}

-- The appId is free, or a claim that is not a reservation binds it to `repo`.
abbrev pub IsOpenTo : Bytes → Option Ledger → Type 0
IsOpenTo repo none = Unit
IsOpenTo repo (some l) = (l.reserved ≡ false) × (l.owner.repo ≡ repo)

-- The decision lets a request through exactly when the appId is open to its repository.
pub decide_passes_iff :
    (existing : Option Ledger) (repo : Bytes)
    → ((decide existing repo ≡ Decision.new_claim) ⊎ (decide existing repo ≡ Decision.allowed))
      ↔ IsOpenTo repo existing
unfolding decide
decide_passes_iff none repo = (λ h. tt, λ h. inl refl)
decide_passes_iff (some l) repo = ground (arith, bytes_eq_iff l.owner.repo repo)

-- A reservation turns every repository away, its own owner's included; any other claim turns away
-- exactly the other repositories, as a mismatch.
pub decide_rejects :
    (l : Ledger) (repo : Bytes)
    → ((decide (some l) repo ≡ Decision.rejected_reserved) ↔ (l.reserved ≡ true))
      × ((decide (some l) repo ≡ Decision.rejected_mismatch)
          ↔ ((l.reserved ≡ false) × (l.owner.repo ≢ repo)))
unfolding decide
decide_rejects l repo =
    (ground (arith, bytes_eq_iff l.owner.repo repo), ground (arith, bytes_eq_iff l.owner.repo repo))

-- A repository that holds an unreserved appId keeps every other repository out.
pub decide_exclusive :
    (l : Ledger) (repo other : Bytes)
    → decide (some l) repo ≡ Decision.allowed
    → other ≢ repo
    → decide (some l) other ≡ Decision.rejected_mismatch
unfolding decide
decide_exclusive l repo other h ne =
    ground (arith, bytes_eq_iff l.owner.repo repo, bytes_eq_iff l.owner.repo other)
