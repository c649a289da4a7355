-- ===== src/Crl/Listed.antt =====
-- The list against the ledgers as the bots keep them: what is revoked there is listed here.
use developer_certificates.Common.{
  ◌≡◌, refl, sym, subst, ◌∙◌, ap, inl, inr, true, some, Bool-cases, List, [], ◌∷◌, Bytes, bytes_eq,
  bytes_eq_iff, All, All-append, Option-cases,
}
use developer_certificates.Common.Int.{ℤ}
use mathlib.Core.List.{Mem, Memᴰ, Perm}
use mathlib.Core.List.Perm
use mathlib.Core.List.Memᴰ
use mathlib.Core.List.Memᴰ.{head, tail, append_right, not-nil}
use developer_certificates.Clock.{Time}
use developer_certificates.Effects.{ok, Result-cases}
use developer_certificates.Effects.Keep.{ok_inj}
use developer_certificates.Ledger.{Certificate, Ledger, status_revoked}
use developer_certificates.Ledger.Validity.{HasStatus, IsWellFormed, active-ne-revoked}
use developer_certificates.Signer.{format_serial}
use developer_certificates.Signer.Serial.{parse_serial-format_serial}
use developer_certificates.X509.{RevocationList, RevocationListEntry}
use developer_certificates.Crl.{parse_serial, entries, build}
use developer_certificates.Crl.Entries.{
  IsEntryOf, AreEntriesOf, revoked_in, revoked, entries-AreEntriesOf, HasEntry, entries_of_revoked,
}

Mem-revoked_in :
    (c : Certificate) (cs : List Certificate)
    → Memᴰ c cs
    → c.status ≡ status_revoked
    → Memᴰ c (revoked_in cs)
unfolding revoked_in
Mem-revoked_in c [] at gone = absurd (not-nil at)
Mem-revoked_in c (b ∷ cs) (head same) gone =
    let marked : bytes_eq b.status status_revoked ≡ true =
      (bytes_eq_iff b.status status_revoked).1 (ap (λ x. x.status) (sym same) ∙ gone) in
    rw marked (head same)
Mem-revoked_in c (b ∷ cs) (tail at) gone = elim (Bool-cases (bytes_eq b.status status_revoked)) [
  | inl marked ↦ rw marked (tail (Mem-revoked_in c cs at gone))
  | inr active ↦ rw active (Mem-revoked_in c cs at gone)
]

Mem-revoked :
    (c : Certificate) (l : Ledger) (ls : List Ledger)
    → Memᴰ l ls
    → Memᴰ c l.certificates
    → c.status ≡ status_revoked
    → Memᴰ c (revoked ls)
unfolding revoked
Mem-revoked c l [] there at gone = absurd (not-nil there)
Mem-revoked c l (k ∷ ls) (head e) at gone =
    Memᴰ.append_left (revoked ls)
      (subst (λ x. Memᴰ c (revoked_in x.certificates)) e (Mem-revoked_in c l.certificates at gone))
Mem-revoked c l (k ∷ ls) (tail there) at gone =
    append_right (revoked_in k.certificates) (Mem-revoked c l ls there at gone)

AreEntriesOf-Mem :
    (quote : Bytes → Bytes) (c : Certificate) (cs : List Certificate)
    (es : List RevocationListEntry)
    → AreEntriesOf quote cs es
    → Memᴰ c cs
    → (e : RevocationListEntry) × Memᴰ e es × IsEntryOf quote c e
AreEntriesOf-Mem quote c [] es h at = absurd (not-nil at)
AreEntriesOf-Mem quote c (b ∷ cs) [] h at = absurd h
AreEntriesOf-Mem quote c (b ∷ cs) (e ∷ es) (here, h) (head same) =
    (e, head refl, subst (λ x. IsEntryOf quote x e) (sym same) here)
AreEntriesOf-Mem quote c (b ∷ cs) (e ∷ es) (here, h) (tail at) =
    let (d, there, its) = AreEntriesOf-Mem quote c cs es h at in (d, tail there, its)

-- A revoked certificate is on the list that is built, when its serial is in the form of the issuer.
revoked-is_listed :
    (quote : Bytes → Bytes) (sort : List RevocationListEntry → List RevocationListEntry)
    (ls : List Ledger) (now : Time) (rl : RevocationList)
    → ((es : List RevocationListEntry) → entries quote ls ≡ ok es → Perm es (sort es))
    → build quote sort ls now ≡ ok rl
    → (l : Ledger) (c : Certificate) (serial : ℤ) → Memᴰ l ls
    → Memᴰ c l.certificates
    → c.status ≡ status_revoked
    → c.serial ≡ format_serial serial
    → (e : RevocationListEntry) × Mem e rl.revoked_certificate_entries
      × (e.serial_number ≡ serial)
      × (c.revoked_from ≡ some e.revocation_time)
unfolding build
revoked-is_listed quote sort ls now rl keeps built l c serial there at gone written =
    elim (Result-cases (entries quote ls)) [
      | inr (bad, p) ↦ cc (rw (p, build) at built)
      | inl (es, p) ↦
          let (e, held, (spelled, dated)) =
            AreEntriesOf-Mem quote c (revoked ls) es (entries-AreEntriesOf quote ls es p)
              (Mem-revoked c l ls there at gone) in
          let listed : sort es ≡ rl.revoked_certificate_entries =
            ap (λ x. x.revoked_certificate_entries) (ok_inj (rw (p, build) at built)) in
          let read : parse_serial quote c.serial ≡ ok serial =
            ap (parse_serial quote) written ∙ parse_serial-format_serial quote serial in
          (
            e,
            subst (Mem e) listed ((Perm.mem_iff (keeps es p)).0 ∣ held ∣₁),
            ok_inj (sym spelled ∙ read),
            dated,
          )
    ]

-- The serial is in the form in which the issuer writes it.
abbrev pub IsMinted : Certificate → Type 0
IsMinted c = (serial : ℤ) × (c.serial ≡ format_serial serial)

-- A ledger that `parse` returns, with serials as the issuer writes them.
abbrev pub IsKept : Ledger → Type 0
IsKept l = IsWellFormed l × All IsMinted l.certificates

IsMinted-HasEntry :
    (quote : Bytes → Bytes) (c : Certificate)
    → HasStatus c
    → IsMinted c
    → c.status ≡ status_revoked
    → HasEntry quote c
IsMinted-HasEntry quote c (inl active) minted gone = absurd (active-ne-revoked (sym active ∙ gone))
IsMinted-HasEntry quote c (inr (_, dated)) (serial, written) gone =
    elim (Option-cases c.revoked_from) [
      | inl undated ↦ absurd (dated undated)
      | inr (t, at) ↦ (
        record { serial_number = serial; revocation_time = t },
        (ap (parse_serial quote) written ∙ parse_serial-format_serial quote serial, at),
      )
    ]

All-revoked_in :
    (quote : Bytes → Bytes) (cs : List Certificate)
    → All HasStatus cs
    → All IsMinted cs
    → All (HasEntry quote) (revoked_in cs)
unfolding revoked_in
All-revoked_in quote [] _ _ = tt
All-revoked_in quote (c ∷ cs) (status, statuses) (minted, more) =
    elim (Bool-cases (bytes_eq c.status status_revoked)) [
      | inr active ↦ rw active (All-revoked_in quote cs statuses more)
      | inl marked ↦
          let here =
            IsMinted-HasEntry quote c status minted
              ((bytes_eq_iff c.status status_revoked).0 marked) in
          rw marked ((here, All-revoked_in quote cs statuses more))
    ]

All-revoked :
    (quote : Bytes → Bytes) (ls : List Ledger) → All IsKept ls → All (HasEntry quote) (revoked ls)
unfolding revoked
All-revoked quote [] _ = tt
All-revoked quote (l ∷ ls) ((well, minted), rest) =
    All-append (HasEntry quote) (revoked_in l.certificates) (revoked ls)
      (All-revoked_in quote l.certificates well.statuses minted) (All-revoked quote ls rest)

-- From well-formed ledgers, whose serials are in the form in which the issuer writes them, a
-- revocation list is built, and every certificate that one of the ledgers lists as revoked is on it,
-- with its serial number and the date from which the ledger says that it is revoked. The sort keeps
-- the entries that are collected.
pub build-revoked :
    (quote : Bytes → Bytes) (sort : List RevocationListEntry → List RevocationListEntry)
    (ls : List Ledger) (now : Time)
    → ((es : List RevocationListEntry) → entries quote ls ≡ ok es → Perm es (sort es))
    → All IsKept ls
    → (rl : RevocationList) × (build quote sort ls now ≡ ok rl)
      × ((l : Ledger) (c : Certificate) (serial : ℤ)
          → Memᴰ l ls
          → Memᴰ c l.certificates
          → c.status ≡ status_revoked
          → c.serial ≡ format_serial serial
          → (e : RevocationListEntry) × Mem e rl.revoked_certificate_entries
            × (e.serial_number ≡ serial)
            × (c.revoked_from ≡ some e.revocation_time))
unfolding build
build-revoked quote sort ls now keeps kept =
    let (es, collected) = entries_of_revoked quote ls (All-revoked quote ls kept) in
    elim (Result-cases (build quote sort ls now)) [
      | inl (rl, built) ↦ (rl, built, revoked-is_listed quote sort ls now rl keeps built)
      | inr (e, bad) ↦ cc (rw (collected, build) at bad)
    ]
