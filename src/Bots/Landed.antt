-- ===== src/Bots/Landed.antt =====
-- What the loops of the bots leave in the store when other runs are interleaved with them.
use developer_certificates.Common.{ℕ, ◌≡◌, ap, subst, Option, List, Bytes, Bool, true, false}
use developer_certificates.Clock.{Time}
use developer_certificates.Effects.{Error, ok}
use developer_certificates.GitHub.{GitHub}
use developer_certificates.GitHub.Versioned.{View, IsVersioned}
use developer_certificates.Ledger.{Certificate, Ledger, Codec}
use developer_certificates.Enroll.Ledgers.{commit_from}
use developer_certificates.Revoke.Apply.{Revocation, FindFunc, apply_from}
use developer_certificates.Bots.{
  Job, issue, revoke, is_revocation, idle, holding, done, System, Reach,
}
use developer_certificates.Bots.Growth.{IsLater, Lists}
use developer_certificates.Bots.Sources.{Holds}
use developer_certificates.Bots.Writes.{IsAddressed, IsHash, Trips}
use developer_certificates.Bots.Lossless.{Reach-Lossless}
use developer_certificates.Bots.Runs.{Reach-trans, commit_from-Reach}
use developer_certificates.Bots.Revocations.{apply_from-Reach}

module _ {W : Type 0} (codec : Codec) (gh : GitHub W) (view : W → View) (Named : Bytes → Type 0)
    (hub : IsVersioned gh Named view) (hash : Bytes → Bytes) (h : IsHash hash) (app_id : Bytes)
    (named : Named app_id) (job : ℕ → Job) (addressed : (w : W) → IsAddressed hash (view w app_id))
    (trips : Trips codec) where
  -- The store holds the certificates that it held, each in its place, and one with the serial.
  abbrev pub Landed : List Certificate → Bool → Bytes → W → Type 0
  Landed cs must serial left =
      (ds : List Certificate) × Holds codec (view left app_id) ds
      × IsLater cs ds
      × Lists must serial ds

  module _ {s t : System W} (cs : List Certificate) (fresh : (i : ℕ) → s.phase i ≡ idle)
      (holds : Holds codec (view s.world app_id) cs) (reached : Reach codec gh view app_id job s t)
      (i : ℕ) where
    done-Landed :
        {u : System W} (left : W) (serial : Bytes)
        → Reach codec gh view app_id job t u
        → u.world ≡ left
        → u.phase i ≡ done serial
        → Landed cs (is_revocation (job i)) serial left
    done-Landed left serial rest world phase =
        let (ds, held, grown, listed) =
          Reach-Lossless codec gh view Named hub hash h app_id named job addressed trips cs fresh
            holds (Reach-trans codec gh view app_id job reached rest) in
        (ds, subst (λ w. Holds codec (view w app_id) ds) world held, grown, listed i serial phase)

    -- Interleaved runs that began when none held anything have come to where a run of the issuer bot
    -- holds a ledger. When the loop of that bot, given this ledger and its SHA, commits the entry,
    -- the store lists every certificate that it listed at the beginning, in its place, revoked where
    -- it was revoked, and one with the serial of the entry. The SHA of a ledger is a hash of its text
    -- that no two texts share, and a ledger that is encoded is decoded to one that lists the same
    -- certificates, though perhaps with their times to the second.
    pub commit_from-Landed :
        (repo : Bytes) (entry : Certificate) (now : Time)
        → job i ≡ issue repo entry now
        → (attempts : ℕ) (last : Error) (existing : Option Ledger) (sha : Bytes) (left : W)
        → t.phase i ≡ holding existing sha
        → commit_from codec gh app_id repo entry now attempts last existing sha t.world
          ≡ (ok tt, left)
        → Landed cs false entry.serial left
    commit_from-Landed repo entry now is attempts last existing sha left at runs =
        let (u, rest, world, phase) =
          commit_from-Reach codec gh view app_id job i repo entry now is attempts last existing sha
            t left at runs in
        subst (λ must. Landed cs must entry.serial left) (ap is_revocation is)
          (done-Landed left entry.serial rest world phase)

    -- The same of the loop of a revocation bot: the certificate with the serial that the loop returns
    -- is listed as revoked.
    pub apply_from-Landed :
        (find : FindFunc) (rev : Revocation)
        → job i ≡ revoke find rev
        → (attempts : ℕ) (last : Error) (existing : Option Ledger) (sha serial : Bytes) (left : W)
        → t.phase i ≡ holding existing sha
        → apply_from codec gh app_id find rev attempts last existing sha t.world ≡ (ok serial, left)
        → Landed cs true serial left
    apply_from-Landed find rev is attempts last existing sha serial left at runs =
        let (u, rest, world, phase) =
          apply_from-Reach codec gh view app_id job i find rev is attempts last existing sha serial
            t left at runs in
        subst (λ must. Landed cs must serial left) (ap is_revocation is)
          (done-Landed left serial rest world phase)
