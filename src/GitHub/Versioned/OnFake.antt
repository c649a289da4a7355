-- ===== src/GitHub/Versioned/OnFake.antt =====
-- The in-memory hub is such a store.
use developer_certificates.Common.{◌≡◌, ◌⊎◌, refl, ap, inl, inr, false, Bytes}
use developer_certificates.Effects.{ok, err, Result-cases}
use developer_certificates.GitHub.{err_conflict}
use developer_certificates.GitHub.Fake.{Client, client, put_ledger, get_ledger, mint_sha}
use developer_certificates.GitHub.Fake.Store.{
  IsCurrent, is_stale_iff, put_ledger_iff, put_ledger-get_ledger, put_ledger-refused,
  put_ledger-blob,
}
use developer_certificates.GitHub.Versioned.{Written, refused, stored, IsVersioned}

put_ledger-Written :
    (id text sha message : Bytes) (c : Client)
    → Written c.ledgers id text sha
        (put_ledger id text sha message c).0
        (put_ledger id text sha message c).1.ledgers
put_ledger-Written id text sha message c =
    elim (Result-cases (put_ledger id text sha message c).0) [
      | inl (_, good) ↦
          let (_, current) = (put_ledger_iff id text sha message c).0 good in
          let others = (put_ledger-get_ledger id text sha message c good).1 in
          rw good (
            stored (record { content = text; sha = (mint_sha c).0 })
              ((is_stale_iff (c.ledgers id) sha).1 current) refl
              (put_ledger-blob id text sha message c good) others)
      | inr (e, bad) ↦
          let left = (put_ledger-refused id text sha message c (λ good. cc)).1 in
          rw bad (refused e (λ k. ap (λ v. v k) left))
    ]

-- The in-memory hub refines the store: a read answers the blob and changes nothing; a write replaces
-- the one blob, or is refused as a conflict and changes nothing. It goes through exactly when no
-- conflict was asked for and the SHA that it gives is that of the stored blob, or empty where there is
-- none.
pub client-IsVersioned :
    IsVersioned client (λ _. Unit) (λ c. c.ledgers)
    × ((id text sha message : Bytes) (c : Client)
        → (((put_ledger id text sha message c).0 ≡ ok tt)
            × (c.fail_next_put_with_conflict ≡ false)
            × IsCurrent (c.ledgers id) sha)
          ⊎ (((put_ledger id text sha message c).0 ≡ err err_conflict)
              × ¬ ((c.fail_next_put_with_conflict ≡ false) × IsCurrent (c.ledgers id) sha)))
unfolding client get_ledger
client-IsVersioned = (
  record {
    answers = λ id c _. refl;
    reads = λ id c _ k. refl;
    writes = λ id text sha message c _. put_ledger-Written id text sha message c;
  },
  λ id text sha message c. elim (Result-cases (put_ledger id text sha message c).0) [
    | inl (_, good) ↦
        (let (calm, current) = (put_ledger_iff id text sha message c).0 good in
          inl (good, calm, current))
    | inr (e, bad) ↦ inr (
      (put_ledger-refused id text sha message c (λ good. cc (good, bad))).0,
      λ held. cc ((put_ledger_iff id text sha message c).1 held, bad),
    )
  ],
)
