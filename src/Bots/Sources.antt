-- ===== src/Bots/Sources.antt =====
-- What a run of a bot knows of the ledger that it has read, and when its write may go through.
use developer_certificates.Common.{
  ◌≡◌, ◌⊎◌, inl, inr, refl, subst, sym, ap, ◌∙◌, Option, none, some, List, [], ◌∷◌, ◌++◌, Bytes,
  Option-cases, arith, ℕ, get_elem?,
}
use mathlib.Core.List.{Memᴰ}
use mathlib.Core.List.Memᴰ.{head, append_right}
use mathlib.Core.Option.{some_inj}
use developer_certificates.Clock.{Time}
use developer_certificates.Effects.{ok, Result-cases}
use developer_certificates.Effects.Keep.{ok_inj}
use developer_certificates.GitHub.{GitHub, err_not_found}
use developer_certificates.GitHub.Fake.{Blob, get_blob}
use developer_certificates.Ledger.{Certificate, Ledger, Codec, parse, check}
use developer_certificates.Enroll.Ledgers.{extended, new_ledger, loaded as loaded_to_issue}
use developer_certificates.Revoke.Apply.{
  Revocation, target, flip, flipped, FindFunc, loaded as loaded_to_revoke,
}
use developer_certificates.Bots.{Job, issue, revoke, next, is_revocation}
use developer_certificates.Bots.Growth.{IsLater, IsLater-append, IsLater-set, Lists}

module _ (codec : Codec) where
  -- The blob that a run has read, as the ledger and the SHA that it holds.
  abbrev pub Source : Option Blob → Option Ledger → Bytes → Type 0
  Source v existing sha =
      ((v ≡ none) × (existing ≡ none) × (sha ≡ []))
      ⊎ ((b : Blob) × (l : Ledger) × (v ≡ some b)
          × (existing ≡ some l)
          × (sha ≡ b.sha)
          × (codec.decode b.content ≡ ok l))

  -- The certificates in the stored ledger.
  abbrev pub Holds : Option Blob → List Certificate → Type 0
  Holds v cs =
      ((v ≡ none) × (cs ≡ []))
      ⊎ ((b : Blob) × (l : Ledger) × (v ≡ some b)
          × (codec.decode b.content ≡ ok l)
          × (cs ≡ l.certificates))

  parse-decode : (text : Bytes) (l : Ledger) → parse codec text ≡ ok l → codec.decode text ≡ ok l
  unfolding parse check
  parse-decode text l h = ground arith

  module _ {W : Type 0} (gh : GitHub W) (app_id : Bytes) where
    pub loaded-Source :
        (v : Option Blob) (existing : Option Ledger) (sha : Bytes)
        → (loaded_to_issue codec gh app_id (get_blob v) ≡ ok (existing, sha))
          ⊎ (loaded_to_revoke codec gh app_id (get_blob v) ≡ ok (existing, sha))
        → Source v existing sha
    unfolding loaded_to_issue loaded_to_revoke get_blob err_not_found
    loaded-Source none existing sha (inl h) =
        inl (refl, sym (ap (λ r. r.0) (ok_inj h)), sym (ap (λ r. r.1) (ok_inj h)))
    loaded-Source none existing sha (inr h) =
        inl (refl, sym (ap (λ r. r.0) (ok_inj h)), sym (ap (λ r. r.1) (ok_inj h)))
    loaded-Source (some b) existing sha (inl h) = elim (Result-cases (parse codec b.content)) [
      | inl (l, parsed) ↦
          let same = ok_inj (rw (parsed, loaded_to_issue) at h) in
          inr (
            b,
            l,
            refl,
            sym (ap (λ r. r.0) same),
            sym (ap (λ r. r.1) same),
            parse-decode b.content l parsed,
          )
      | inr (e, failed) ↦ cc (rw (failed, loaded_to_issue) at h)
    ]
    loaded-Source (some b) existing sha (inr h) = elim (Result-cases (parse codec b.content)) [
      | inl (l, parsed) ↦
          let same = ok_inj (rw (parsed, loaded_to_revoke) at h) in
          inr (
            b,
            l,
            refl,
            sym (ap (λ r. r.0) same),
            sym (ap (λ r. r.1) same),
            parse-decode b.content l parsed,
          )
      | inr (e, failed) ↦ cc (rw (failed, loaded_to_revoke) at h)
    ]

abbrev pub certificates : Option Ledger → List Certificate
certificates none = []
certificates (some l) = l.certificates

target-eq-some :
    (find : FindFunc) (existing : Option Ledger) (t : Ledger × ℕ × Certificate)
    → target find existing ≡ some t
    → (existing ≡ some t.0) × (get_elem? t.0.certificates t.1 ≡ some t.2)
unfolding target
target-eq-some find none t h = cc h
target-eq-some find (some l) t h = elim (Option-cases (find (some l))) [
  | inl lost ↦ cc (rw (lost, target) at h)
  | inr (i, found) ↦ elim (Option-cases (get_elem? l.certificates i)) [
    | inl beyond ↦ cc (rw (found, target, beyond) at h)
    | inr (c, there) ↦
        let same = some_inj.0 (rw (found, target, there) at h) in
        (
          ap (λ r. some r.0) same,
          ap (λ r. get_elem? r.0.certificates r.1) (sym same) ∙ (there ∙ ap (λ r. some r.2) same),
        )
  ]
]

extended-certificates :
    (app_id repo : Bytes) (now : Time) (entry : Certificate) (existing : Option Ledger)
    → certificates existing ++ entry ∷ [] ≡ (extended app_id repo now entry existing).certificates
unfolding extended new_ledger
extended-certificates app_id repo now entry none = refl
extended-certificates app_id repo now entry (some l) = refl

flipped-IsLater :
    (rev : Revocation) (l : Ledger) (i : ℕ) (c : Certificate)
    → get_elem? l.certificates i ≡ some c
    → IsLater l.certificates (flipped rev l i c).certificates
      × Memᴰ (flip rev c) (flipped rev l i c).certificates
unfolding flipped flip
flipped-IsLater rev l i c there =
    IsLater-set l.certificates i c (flip rev c) there
      (record { serial = refl; fingerprint = refl; revoked = λ _. refl })

-- The ledger that a run writes keeps what the ledger that it has read lists, and lists what the run
-- reports.
pub next-IsLater :
    (app_id : Bytes) (job : Job) (existing : Option Ledger) (l : Ledger) (serial : Bytes)
    → next app_id job existing ≡ some (l, serial)
    → IsLater (certificates existing) l.certificates
      × Lists (is_revocation job) serial l.certificates
unfolding next flip
next-IsLater app_id (issue repo entry now) existing l serial h =
    let same = some_inj.0 h in
    let grown = extended-certificates app_id repo now entry existing in
    let cs = grown ∙ ap (λ r. r.0.certificates) same in
    (
      subst (IsLater (certificates existing)) cs
          (IsLater-append (certificates existing) (entry ∷ [])),
      (
        entry,
        subst (Memᴰ entry) cs (append_right (certificates existing) (head refl)),
        ap (λ r. r.1) same,
        λ bad. cc bad,
      ),
    )
next-IsLater app_id (revoke find rev) existing l serial h =
    elim (Option-cases (target find existing)) [
      | inl lost ↦ cc (rw (lost, next) at h)
      | inr (t, found) ↦
          let same = some_inj.0 (rw (found, next) at h) in
          let (read, there) = target-eq-some find existing t found in
          let (later, at) = flipped-IsLater rev t.0 t.1 t.2 there in
          let cs = ap (λ r. r.0.certificates) same in
          (
            rw read (subst (IsLater t.0.certificates) cs later),
            (flip rev t.2, subst (Memᴰ (flip rev t.2)) cs at, ap (λ r. r.1) same, λ _. refl),
          )
    ]
