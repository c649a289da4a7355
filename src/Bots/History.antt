-- ===== src/Bots/History.antt =====
-- The ledgers as a log: whatever a bot does, and however it ends, no ledger loses a certificate or
-- takes a revocation back. This module has the log.
pub mod Store
pub mod Issuance
pub mod Issuer
pub mod Revoker
pub mod Service
pub mod Revocation
use developer_certificates.Common.{
  Bool, ◌≡◌, ◌≢◌, inl, inr, refl, sym, subst, ◌∙◌, Option, some, List, Bytes, bytes_eq,
  bytes_eq_iff, Bool-cases, ap,
}
use mathlib.Core.Option.{some_inj}
use developer_certificates.AppId.Grammar.{IsAppId}
use developer_certificates.Effects.{⊤, Action, Error, Result, ok, err, Result-cases, ◌>>=◌}
use developer_certificates.Effects.Keep.{Keeps, >>=-cases, ok_inj}
use developer_certificates.GitHub.{GitHub}
use developer_certificates.GitHub.Fake.{Blob}
use developer_certificates.GitHub.Versioned.{
  View, IsSame, Written, Written-err, refused, stored, IsVersioned,
}
use developer_certificates.Ledger.{Certificate, Ledger, Codec}
use developer_certificates.Enroll.Ledgers.{load_ledger as load_to_issue, loaded as loaded_to_issue}
use developer_certificates.Revoke.Apply.{load_ledger as load_to_revoke, loaded as loaded_to_revoke}
use developer_certificates.Bots.{Job, issue, revoke, is_revocation, next, load_ledger}
use developer_certificates.Bots.Growth.{IsLater, IsLater-refl, IsLater-trans, Lists, IsLater-Lists}
use developer_certificates.Bots.Sources.{Source, Holds, loaded-Source}
use developer_certificates.Bots.Writes.{IsAddressed, IsHash, write-IsLater}

-- The hub serves the ledgers of all legal appIds as blobs that are guarded by their SHAs, and the SHA
-- of a blob is a hash of its content that no two contents share.
pub record IsLedgerStore {W : Type 0} (codec : Codec) (gh : GitHub W) (view : W → View)
    : Type 1 where
  pub Named : Bytes → Type 0
  pub names : (id : Bytes) → IsAppId id → Named id
  pub versioned : IsVersioned gh Named view
  pub hash : Bytes → Bytes
  pub is_hash : IsHash hash
  pub addressed : (w : W) (id : Bytes) → IsAddressed hash (view w id)

module _ {W : Type 0} (codec : Codec) (view : W → View) where
  -- Every ledger lists, in its place, each certificate that it listed at the beginning, revoked where
  -- it was revoked.
  abbrev pub History : (Bytes → List Certificate) → W → Type 0
  History base w =
      (k : Bytes) → (ds : List Certificate) × Holds codec (view w k) ds × IsLater (base k) ds

  abbrev pub Listed : Bytes → Bool → Bytes → W → Type 0
  Listed app_id must serial w =
      (ds : List Certificate) × Holds codec (view w app_id) ds × Lists must serial ds

  -- The log is kept, and where there is a result the ledger lists what is reported.
  abbrev pub Recorded :
      {A : Type 0} → (Bytes → List Certificate) → Bytes → Bool → (A → Bytes) → Result A × W → Type 0
  Recorded {A} base app_id must report out =
      History base out.1 × ((a : A) → out.0 ≡ ok a → Listed app_id must (report a) out.1)

  pub Recorded-err :
      {A : Type 0} {base : Bytes → List Certificate} {app_id : Bytes} {must : Bool}
      (report : A → Bytes) (e : Error) (w : W)
      → History base w
      → Recorded base app_id must report (err e, w)
  Recorded-err report e w log = (log, λ a good. cc good)

  Holds-unique :
      (v : Option Blob) (cs ds : List Certificate) → Holds codec v cs → Holds codec v ds → cs ≡ ds
  Holds-unique v cs ds (inl (_, empty)) (inl (_, bare)) = empty ∙ sym bare
  Holds-unique v cs ds (inl (gone, _)) (inr (b, l, there, _, _)) = cc (gone, there)
  Holds-unique v cs ds (inr (b, l, there, _, _)) (inl (gone, _)) = cc (gone, there)
  Holds-unique v cs ds (inr (b, l, there, decoded, listed)) (inr (c, m, also, parsed, read)) =
      let text = ap (λ x. codec.decode x.content) (some_inj.0 (sym there ∙ also)) in
      let same = ok_inj (sym decoded ∙ (text ∙ parsed)) in
      listed ∙ (ap (λ x. x.certificates) same ∙ sym read)

  -- What a ledger lists stays listed by whatever keeps every log.
  pub Listed-Keeps :
      (app_id : Bytes) (must : Bool) (serial : Bytes) (base : Bytes → List Certificate) (w w' : W)
      → History base w
      → ((now : Bytes → List Certificate) → History now w → History now w')
      → Listed app_id must serial w
      → Listed app_id must serial w'
  Listed-Keeps app_id must serial base w w' log keeps (ds, held, lists) =
      let now : Bytes → List Certificate = λ k. (log k).0 in
      let here : History now w = λ k. ((log k).0, (log k).1, IsLater-refl (log k).0) in
      let (es, after, grown) = keeps now here app_id in
      let same = Holds-unique (view w app_id) ds (log app_id).0 held (log app_id).1 in
      (es, after, IsLater-Lists grown (subst (Lists must serial) same lists))

  -- What follows a record, such as a delivery, keeps it.
  pub Recorded-then :
      {A B : Type 0} (base : Bytes → List Certificate) (app_id : Bytes) (must : Bool)
      (report : A → Bytes) (m : Action W A) (k : A → Action W B) (w : W)
      → Recorded base app_id must report (m w)
      → ((now : Bytes → List Certificate) (a : A) → Keeps (History now) (k a))
      → History base ((m >>= k) w).1
        × ((b : B)
            → ((m >>= k) w).0 ≡ ok b
            → (a : A) × ((m w).0 ≡ ok a) × Listed app_id must (report a) ((m >>= k) w).1)
  Recorded-then base app_id must report m k w (log, lists) keeps = elim (>>=-cases m k w) [
    | inr (e, bad, runs) ↦ rw runs (log, λ b good. cc good)
    | inl (a, good, runs) ↦ rw runs (
      keeps base a (m w).1 log,
      λ b _. (
        a,
        good,
        Listed-Keeps app_id must (report a) base (m w).1 (k a (m w).1).1 log
            (λ now. keeps now a (m w).1) (lists a good),
      ),
    )
  ]

  pub IsSame-History :
      (base : Bytes → List Certificate) (w w' : W)
      → IsSame (view w) (view w')
      → History base w
      → History base w'
  IsSame-History base w w' same log k =
      let (ds, held, grown) = log k in
      (ds, subst (λ v. Holds codec v ds) (sym (same k)) held, grown)
