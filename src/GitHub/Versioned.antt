-- ===== src/GitHub/Versioned.antt =====
-- What the bots rely on when they read and write ledgers: at most one blob for each appId, and a
-- write that is guarded by the SHA of the blob that it replaces.
pub mod OnFake
use developer_certificates.Common.{◌≡◌, ◌≢◌, ◌⊎◌, false, Option, some, Bytes}
use developer_certificates.Effects.{⊤, Error, Result, ok, err}
use developer_certificates.GitHub.{GitHub}
use developer_certificates.GitHub.Fake.{Blob, get_blob, is_stale}

-- The store of ledgers, from an appId to its blob.
abbrev pub View : Type 0
View = Bytes → Option Blob

abbrev pub IsSame : View → View → Type 0
IsSame v v' = (k : Bytes) → v' k ≡ v k

-- The write of a text under an appId, guarded by a SHA, from one store to another.
pub data Written (v : View) (id text sha : Bytes) : Result ⊤ → View → Type 0 where
  refused : {v' : View} (e : Error) → IsSame v v' → Written v id text sha (err e) v'
  stored :
      {v' : View} (b : Blob)
      → is_stale (v id) sha ≡ false
      → b.content ≡ text
      → v' id ≡ some b
      → ((k : Bytes) → k ≢ id → v' k ≡ v k)
      → Written v id text sha (ok tt) v'

-- The interface serves the store that `view` sees in the world, for the appIds in `Named`.
pub record IsVersioned {W : Type 0} (gh : GitHub W) (Named : Bytes → Type 0) (view : W → View)
    : Type 0 where
  pub answers : (id : Bytes) (w : W) → Named id → (gh.get_ledger id w).0 ≡ get_blob (view w id)
  pub reads : (id : Bytes) (w : W) → Named id → IsSame (view w) (view (gh.get_ledger id w).1)
  pub writes :
      (id text sha message : Bytes) (w : W)
      → Named id
      → Written
          (view w)
          id
          text
          sha
          (gh.put_ledger id text sha message w).0
          (view (gh.put_ledger id text sha message w).1)

pub Written-ok :
    {v v' : View} {id text sha : Bytes}
    → Written v id text sha (ok tt) v'
    → (b : Blob) × (is_stale (v id) sha ≡ false) × (b.content ≡ text) × (v' id ≡ some b)
Written-ok (stored b fresh is there others) = (b, fresh, is, there)

pub Written-err :
    {v v' : View} {id text sha : Bytes} {e : Error} → Written v id text sha (err e) v' → IsSame v v'
Written-err (refused e same) = same
