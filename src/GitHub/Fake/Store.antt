-- ===== src/GitHub/Fake/Store.antt =====
-- The guard of the in-memory client against stale writes.
use developer_certificates.Common.{
  ◌≡◌, ◌≢◌, ◌↔◌, refl, false, Option, none, some, [], ◌∷◌, Bytes, bytes_eq_iff, bytes_eq_refl,
  arith,
}
use developer_certificates.Effects.{ok, err}
use developer_certificates.GitHub.{err_conflict}
use developer_certificates.GitHub.Fake.{
  Blob, Client, is_stale, get_blob, get_ledger, put_ledger, check_prev_sha, set_ledger, mint_sha,
}

-- The SHA that a writer must give: that of the stored blob, or nothing where there is none.
abbrev pub IsCurrent : Option Blob → Bytes → Type 0
IsCurrent none prev_sha = prev_sha ≡ []
IsCurrent (some b) prev_sha = b.sha ≡ prev_sha

pub is_stale_iff :
    (stored : Option Blob) (prev_sha : Bytes)
    → (is_stale stored prev_sha ≡ false) ↔ IsCurrent stored prev_sha
unfolding is_stale
is_stale_iff none [] = ground arith
is_stale_iff none (_ ∷ _) = ground arith
is_stale_iff (some b) prev_sha = ground (arith, bytes_eq_iff b.sha prev_sha)

-- A write goes through exactly when no conflict was asked for and the SHA is the stored one.
pub put_ledger_iff :
    (app_id content prev_sha message : Bytes) (c : Client)
    → ((put_ledger app_id content prev_sha message c).0 ≡ ok tt)
      ↔ ((c.fail_next_put_with_conflict ≡ false) × IsCurrent (c.ledgers app_id) prev_sha)
unfolding put_ledger check_prev_sha
put_ledger_iff app_id content prev_sha message c =
    ground (arith, is_stale_iff (c.ledgers app_id) prev_sha)

-- The client after the guard, which only takes back the conflict that was asked for.
put_ledger-sets :
    (app_id content prev_sha message : Bytes) (c : Client)
    → (put_ledger app_id content prev_sha message c).0 ≡ ok tt
    → (put_ledger app_id content prev_sha message c).1 ≡ (set_ledger app_id content c).1
unfolding put_ledger check_prev_sha
put_ledger-sets app_id content prev_sha message c h = ground arith

set_ledger-get_ledger :
    (app_id content : Bytes) (c : Client)
    → (get_ledger app_id (set_ledger app_id content c).1).0 ≡ ok (content, (mint_sha c).0)
unfolding get_ledger get_blob set_ledger
set_ledger-get_ledger app_id content c = rw (bytes_eq_refl app_id) refl

set_ledger-other :
    (app_id content other : Bytes) (c : Client)
    → other ≢ app_id
    → (set_ledger app_id content c).1.ledgers other ≡ c.ledgers other
unfolding set_ledger mint_sha
set_ledger-other app_id content other c ne = ground (arith, bytes_eq_iff app_id other)

-- A write that goes through is read back, under the next SHA, and leaves every other ledger.
pub put_ledger-get_ledger :
    (app_id content prev_sha message : Bytes) (c : Client)
    → (put_ledger app_id content prev_sha message c).0 ≡ ok tt
    → ((get_ledger app_id (put_ledger app_id content prev_sha message c).1).0
        ≡ ok (content, (mint_sha c).0))
      × ((other : Bytes)
          → other ≢ app_id
          → (put_ledger app_id content prev_sha message c).1.ledgers other ≡ c.ledgers other)
put_ledger-get_ledger app_id content prev_sha message c h =
    rw (put_ledger-sets app_id content prev_sha message c h)
      ((set_ledger-get_ledger app_id content c, λ other. set_ledger-other app_id content other c))

set_ledger-blob :
    (app_id content : Bytes) (c : Client)
    → (set_ledger app_id content c).1.ledgers app_id
      ≡ some (record { content = content; sha = (mint_sha c).0 })
unfolding set_ledger
set_ledger-blob app_id content c = rw (bytes_eq_refl app_id) refl

pub put_ledger-blob :
    (app_id content prev_sha message : Bytes) (c : Client)
    → (put_ledger app_id content prev_sha message c).0 ≡ ok tt
    → (put_ledger app_id content prev_sha message c).1.ledgers app_id
      ≡ some (record { content = content; sha = (mint_sha c).0 })
put_ledger-blob app_id content prev_sha message c h =
    rw (put_ledger-sets app_id content prev_sha message c h) (set_ledger-blob app_id content c)

-- A write that does not go through leaves every ledger, and says that it is a conflict.
pub put_ledger-refused :
    (app_id content prev_sha message : Bytes) (c : Client)
    → (put_ledger app_id content prev_sha message c).0 ≢ ok tt
    → ((put_ledger app_id content prev_sha message c).0 ≡ err err_conflict)
      × ((put_ledger app_id content prev_sha message c).1.ledgers ≡ c.ledgers)
unfolding put_ledger check_prev_sha
put_ledger-refused app_id content prev_sha message c h = ground arith
