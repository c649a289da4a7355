-- ===== src/Bots/Writes.antt =====
-- A write of a run goes through only where the ledger is the one that the run has read.
use developer_certificates.Common.{
  ℕ, ◌≡◌, ◌≢◌, inl, inr, refl, sym, ap, subst, ◌∙◌, false, Option, none, some, List, [], Bytes,
}
use developer_certificates.Effects.{ok, ◌>>=◌}
use developer_certificates.Effects.Keep.{ok_inj}
use developer_certificates.GitHub.{GitHub}
use developer_certificates.GitHub.Fake.{Blob, is_stale}
use developer_certificates.GitHub.Fake.Store.{is_stale_iff}
use developer_certificates.GitHub.Versioned.{View, Written, Written-ok, IsVersioned}
use developer_certificates.Ledger.{Certificate, Ledger, Codec}
use developer_certificates.Enroll.Ledgers.{loaded as loaded_to_issue, load_ledger as load_to_issue}
use developer_certificates.Revoke.Apply.{loaded as loaded_to_revoke, load_ledger as load_to_revoke}
use developer_certificates.Bots.{Job, issue, revoke, is_revocation, next, load_ledger}
use developer_certificates.Bots.Growth.{IsLater, IsLater-trans, Lists, IsLater-Lists}
use developer_certificates.Bots.Sources.{Source, Holds, loaded-Source, certificates, next-IsLater}

-- The SHA of a blob is the hash of its content.
abbrev pub IsAddressed : (Bytes → Bytes) → Option Blob → Type 0
IsAddressed hash v = (b : Blob) → v ≡ some b → b.sha ≡ hash b.content

-- No two contents share a hash, and none is empty.
pub record IsHash (hash : Bytes → Bytes) : Type 0 where
  pub injective : (s t : Bytes) → hash s ≡ hash t → s ≡ t
  pub nonempty : (s : Bytes) → hash s ≢ []

-- A ledger that is encoded is decoded to one with the same certificates, but for their times, which
-- the text holds to the second.
abbrev pub Trips : Codec → Type 0
Trips codec =
    (l : Ledger) (text : Bytes)
    → codec.encode l ≡ ok text
    → (m : Ledger) × (codec.decode text ≡ ok m) × IsLater l.certificates m.certificates

module _ (codec : Codec) (hash : Bytes → Bytes) (h : IsHash hash) where
  -- A write may go through only where the run has read what is stored.
  Source-current :
      (v now : Option Blob) (existing : Option Ledger) (sha : Bytes) (cs : List Certificate)
      → IsAddressed hash v
      → IsAddressed hash now
      → Source codec v existing sha
      → Holds codec now cs
      → is_stale now sha ≡ false
      → cs ≡ certificates existing
  Source-current v now existing sha cs old new (inl (gone, unread, bare)) (inl (lost, empty))
        fresh =
      empty ∙ ap certificates (sym unread)
  Source-current v now existing sha cs old new (inl (gone, unread, bare))
        (inr (b, l, there, decoded, listed)) fresh =
      let current = (is_stale_iff (some b) sha).0 (rw there at fresh) in
      absurd (h.nonempty b.content (sym (new b there) ∙ (current ∙ bare)))
  Source-current v now existing sha cs old new (inr (b, l, was, held, its, decoded))
        (inl (gone, empty)) fresh =
      let current = (is_stale_iff none sha).0 (rw gone at fresh) in
      absurd (h.nonempty b.content (sym (old b was) ∙ (sym its ∙ current)))
  Source-current v now existing sha cs old new (inr (b, l, was, held, its, decoded))
        (inr (k, m, there, parsed, listed)) fresh =
      let current = (is_stale_iff (some k) sha).0 (rw there at fresh) in
      let same =
        h.injective k.content b.content (sym (new k there) ∙ (current ∙ (its ∙ old b was))) in
      let ledgers : m ≡ l = ok_inj (sym parsed ∙ (ap codec.decode same ∙ decoded)) in
      listed ∙ (ap (λ x. x.certificates) ledgers ∙ ap certificates (sym held))

module _ {W : Type 0} (codec : Codec) (gh : GitHub W) (view : W → View) (Named : Bytes → Type 0)
    (hub : IsVersioned gh Named view) (hash : Bytes → Bytes) (h : IsHash hash) (app_id : Bytes)
    (named : Named app_id) (job : ℕ → Job) (addressed : (w : W) → IsAddressed hash (view w app_id))
    (trips : Trips codec) where
  pub load-eq-ok :
      (j : Job) (w left : W) (existing : Option Ledger) (sha : Bytes)
      → load_ledger codec gh app_id j w ≡ (ok (existing, sha), left)
      → Source codec (view w app_id) existing sha × (view left app_id ≡ view w app_id)
  unfolding load_ledger load_to_issue load_to_revoke ◌>>=◌
  load-eq-ok (issue repo entry now) w left existing sha e =
      let got = ap (loaded_to_issue codec gh app_id) (sym (hub.answers app_id w named)) in
      (
        loaded-Source codec gh app_id (view w app_id) existing sha (inl (got ∙ ap (λ r. r.0) e)),
        ap (λ r. view r.1 app_id) (sym e) ∙ hub.reads app_id w named app_id,
      )
  load-eq-ok (revoke find rev) w left existing sha e =
      let got = ap (loaded_to_revoke codec gh app_id) (sym (hub.answers app_id w named)) in
      (
        loaded-Source codec gh app_id (view w app_id) existing sha (inr (got ∙ ap (λ r. r.0) e)),
        ap (λ r. view r.1 app_id) (sym e) ∙ hub.reads app_id w named app_id,
      )

  -- A write that goes through leaves a ledger that lists what the one before lists, and what the run
  -- reports.
  pub write-IsLater :
      (cs : List Certificate) (j : Job) (existing : Option Ledger) (l : Ledger)
      (sha serial text message : Bytes) (past before w : W)
      → Holds codec (view before app_id) cs
      → Source codec (view past app_id) existing sha
      → next app_id j existing ≡ some (l, serial)
      → codec.encode l ≡ ok text
      → gh.put_ledger app_id text sha message before ≡ (ok tt, w)
      → (ds : List Certificate) × Holds codec (view w app_id) ds
        × IsLater cs ds
        × Lists (is_revocation j) serial ds
  write-IsLater cs j existing l sha serial text message past before w holds source wants encoded
        put =
      let (b, fresh, is, there) = Written-ok (
        subst (λ r. Written (view before) app_id text sha r.0 (view r.1)) put
          (hub.writes app_id text sha message before named)) in
      let current =
        Source-current codec hash h (view past app_id) (view before app_id) existing sha cs
          (addressed past) (addressed before) source holds fresh in
      let (grown, lists) = next-IsLater app_id j existing l serial wants in
      let (m, decoded, alike) = trips l text encoded in
      (
        m.certificates,
        inr (b, m, there, ap codec.decode is ∙ decoded, refl),
        IsLater-trans (rw current grown) alike,
        IsLater-Lists alike lists,
      )
