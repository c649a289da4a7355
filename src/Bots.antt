-- ===== src/Bots.antt =====
-- Runs of the issuer bot and of the revocation bots (internal/enroll and internal/revoke, commitLedger
-- and applyRevocation) over one shared hub, interleaved at their reads and writes of one ledger.
pub mod Growth
pub mod Sources
pub mod Writes
pub mod Lossless
pub mod Runs
pub mod Revocations
pub mod Landed
pub mod History
use developer_certificates.Common.{
  ℕ, ◌≡◌, Option, none, some, List, [], Bytes, ◌==◌, if◌then◌else◌, Bool, true, false,
}
use developer_certificates.Clock.{Time}
use developer_certificates.Effects.{Action, Error, ok, err}
use developer_certificates.GitHub.{GitHub}
use developer_certificates.Ledger.{Certificate, Ledger, Codec}
use developer_certificates.Enroll.Ledgers.{extended, load_ledger as load_to_issue}
use developer_certificates.Revoke.Apply.{
  Revocation, FindFunc, target, flipped, load_ledger as load_to_revoke,
}
use developer_certificates.GitHub.Versioned.{View}

-- What a run wants to write into the ledger.
pub data Job : Type 0 where
  issue : (repo : Bytes) → Certificate → Time → Job
  revoke : FindFunc → Revocation → Job

abbrev pub is_revocation : Job → Bool
is_revocation (issue repo entry now) = false
is_revocation (revoke find rev) = true

-- The ledger that the run writes after it has read one, and the serial of the certificate.
unfoldable pub next : Bytes → Job → Option Ledger → Option (Ledger × Bytes)
next app_id (issue repo entry now) existing =
    some (extended app_id repo now entry existing, entry.serial)
next app_id (revoke find rev) existing = elim (target find existing) [
  | none ↦ none
  | some t ↦ some (flipped rev t.0 t.1 t.2, t.2.serial)
]

-- Where a run stands: before a read, with what it has read, or done with a certificate.
pub data Phase : Type 0 where
  idle : Phase
  holding : Option Ledger → Bytes → Phase
  done : Bytes → Phase

pub record System (W : Type 0) : Type 0 where
  pub world : W
  pub phase : ℕ → Phase

abbrev pub move : {W : Type 0} → System W → W → ℕ → Phase → System W
move s w i p = record { world = w; phase = λ j. if i == j then p else s.phase j }

unfoldable pub load_ledger :
    {W : Type 0} → Codec → GitHub W → Bytes → Job → Action W (Option Ledger × Bytes)
load_ledger codec gh app_id (issue repo entry now) = load_to_issue codec gh app_id
load_ledger codec gh app_id (revoke find rev) = load_to_revoke codec gh app_id

module _ {W : Type 0} (codec : Codec) (gh : GitHub W) (view : W → View) (app_id : Bytes)
    (job : ℕ → Job) where
  -- One step of one run, or of the hub elsewhere. A refused write is followed by another read.
  pub data Step (s : System W) : System W → Type 0 where
    read :
        (i : ℕ) {existing : Option Ledger} {sha : Bytes} {w : W}
        → load_ledger codec gh app_id (job i) s.world ≡ (ok (existing, sha), w)
        → Step s (move s w i (holding existing sha))
    write :
        (i : ℕ) {existing : Option Ledger} {l : Ledger} {sha serial text message : Bytes} {w : W}
        → s.phase i ≡ holding existing sha
        → next app_id (job i) existing ≡ some (l, serial)
        → codec.encode l ≡ ok text
        → gh.put_ledger app_id text sha message s.world ≡ (ok tt, w)
        → Step s (move s w i (done serial))
    refuse :
        (i : ℕ) {existing : Option Ledger} {l : Ledger} {sha serial text message : Bytes}
        {e : Error} {w : W}
        → s.phase i ≡ holding existing sha
        → next app_id (job i) existing ≡ some (l, serial)
        → codec.encode l ≡ ok text
        → gh.put_ledger app_id text sha message s.world ≡ (err e, w)
        → Step s (move s w i idle)
    elsewhere : {w : W} → view w app_id ≡ view s.world app_id → Step s (record s { world = w })

  pub data Reach (s : System W) : System W → Type 0 where
    start : Reach s s
    later : {t u : System W} → Reach s t → Step t u → Reach s u
