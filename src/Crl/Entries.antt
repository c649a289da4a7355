-- ===== src/Crl/Entries.antt =====
-- The entries of the revocation list: one for each revoked certificate of the ledgers, and no other.
use developer_certificates.Common.{
  ◌+◌, ◌*◌, ◌≡◌, refl, sym, subst, some, List, [], ◌∷◌, ◌++◌, Bytes, bytes_eq, arith, inl, inr,
  Bool-cases, Option-cases, All, All-append_left, All-append_right, if◌then◌else◌,
}
use developer_certificates.Common.Int.{◌≤ℤ◌}
use mathlib.Core.List.{Perm}
use developer_certificates.Clock.{Time, day, unix}
use developer_certificates.Effects.{ok, Result-cases}
use developer_certificates.Effects.Keep.{ok_inj}
use developer_certificates.Ledger.{Certificate, Ledger, status_revoked}
use developer_certificates.X509.{RevocationList, RevocationListEntry}
use developer_certificates.Crl.{crl_validity, parse_serial, entry, entries_of, entries, build}

-- The revoked certificates of the ledgers, in their order.
unfoldable pub revoked_in : List Certificate → List Certificate
revoked_in [] = []
revoked_in (c ∷ cs) =
    let rest = revoked_in cs in if bytes_eq c.status status_revoked then c ∷ rest else rest

unfoldable pub revoked : List Ledger → List Certificate
unfolding revoked_in
revoked [] = []
revoked (l ∷ ls) = revoked_in l.certificates ++ revoked ls

-- The serial that the ledger spells, and the date from which the certificate is revoked.
abbrev pub IsEntryOf : (Bytes → Bytes) → Certificate → RevocationListEntry → Type 0
IsEntryOf quote c e =
    (parse_serial quote c.serial ≡ ok e.serial_number) × (c.revoked_from ≡ some e.revocation_time)

module _ (quote : Bytes → Bytes) where
  -- The entries are, one by one, those of the certificates.
  abbrev pub AreEntriesOf : List Certificate → List RevocationListEntry → Type 0
  AreEntriesOf [] [] = Unit
  AreEntriesOf [] (_ ∷ _) = ⊥
  AreEntriesOf (_ ∷ _) [] = ⊥
  AreEntriesOf (c ∷ cs) (e ∷ es) = IsEntryOf quote c e × AreEntriesOf cs es

  AreEntriesOf-append :
      (cs ds : List Certificate) (es fs : List RevocationListEntry)
      → AreEntriesOf cs es
      → AreEntriesOf ds fs
      → AreEntriesOf (cs ++ ds) (es ++ fs)
  AreEntriesOf-append [] ds [] fs h k = k
  AreEntriesOf-append [] ds (_ ∷ _) fs h k = absurd h
  AreEntriesOf-append (_ ∷ _) ds [] fs h k = absurd h
  AreEntriesOf-append (c ∷ cs) ds (e ∷ es) fs (here, h) k =
      (here, AreEntriesOf-append cs ds es fs h k)

  entry-eq-ok :
      (app_id : Bytes) (c : Certificate) (e : RevocationListEntry)
      → entry quote app_id c ≡ ok e
      → IsEntryOf quote c e
  unfolding entry
  entry-eq-ok app_id c e h = elim (Result-cases (parse_serial quote c.serial)) [
    | inr (bad, p) ↦ ground arith
    | inl (n, p) ↦ elim (Option-cases c.revoked_from) [
      | inl absent ↦ ground arith
      | inr (t, dated) ↦ ground arith
    ]
  ]

  entries_of-AreEntriesOf :
      (app_id : Bytes) (cs : List Certificate) (es : List RevocationListEntry)
      → entries_of quote app_id cs ≡ ok es
      → AreEntriesOf (revoked_in cs) es
  unfolding entries_of revoked_in
  entries_of-AreEntriesOf app_id [] es h = rw (sym (ok_inj h)) tt
  entries_of-AreEntriesOf app_id (c ∷ cs) es h =
      elim (Bool-cases (bytes_eq c.status status_revoked)) [
        | inr active ↦ rw active (entries_of-AreEntriesOf app_id cs es ((rw active at h)))
        | inl gone ↦ elim (Result-cases (entry quote app_id c)) [
          | inr (bad, p) ↦ ground arith
          | inl (e, p) ↦ elim (Result-cases (entries_of quote app_id cs)) [
            | inr (bad, q) ↦ ground arith
            | inl (rest, q) ↦
                let same : e ∷ rest ≡ es = ground arith in
                rw (gone, sym same)
                  ((entry-eq-ok app_id c e p, entries_of-AreEntriesOf app_id cs rest q))
          ]
        ]
      ]

  -- The list that is collected has the entry of every revoked certificate, in the order of the
  -- ledgers, and no other: the serial that the ledger spells and the date that it holds.
  pub entries-AreEntriesOf :
      (ls : List Ledger) (es : List RevocationListEntry)
      → entries quote ls ≡ ok es
      → AreEntriesOf (revoked ls) es
  unfolding entries revoked
  entries-AreEntriesOf [] es h = rw (sym (ok_inj h)) tt
  entries-AreEntriesOf (l ∷ ls) es h =
      elim (Result-cases (entries_of quote l.app_id l.certificates)) [
        | inr (bad, p) ↦ ground arith
        | inl (xs, p) ↦ elim (Result-cases (entries quote ls)) [
          | inr (bad, q) ↦ ground arith
          | inl (ys, q) ↦
              let same : xs ++ ys ≡ es = ground arith in
              subst (AreEntriesOf _) same (
                AreEntriesOf-append _ _ xs ys (entries_of-AreEntriesOf l.app_id l.certificates xs p)
                  (entries-AreEntriesOf ls ys q))
        ]
      ]

  -- A revoked certificate that has an entry.
  abbrev pub HasEntry : Certificate → Type 0
  HasEntry c = (e : RevocationListEntry) × IsEntryOf quote c e

  entry_of-HasEntry :
      (app_id : Bytes) (c : Certificate) (e : RevocationListEntry)
      → IsEntryOf quote c e
      → entry quote app_id c ≡ ok e
  unfolding entry
  entry_of-HasEntry app_id c e (serial, date) = rw (serial, date, entry) refl

  entries_of-HasEntry :
      (app_id : Bytes) (cs : List Certificate)
      → All HasEntry (revoked_in cs)
      → (es : List RevocationListEntry) × (entries_of quote app_id cs ≡ ok es)
  unfolding entries_of revoked_in
  entries_of-HasEntry app_id [] h = ([], refl)
  entries_of-HasEntry app_id (c ∷ cs) h = elim (Bool-cases (bytes_eq c.status status_revoked)) [
    | inr active ↦
        let (es, p) = entries_of-HasEntry app_id cs (rw active at h) in (es, rw (active, p) refl)
    | inl gone ↦
        let ((e, here), rest) : All HasEntry (c ∷ revoked_in cs) = rw gone at h in
        let (es, p) = entries_of-HasEntry app_id cs rest in
        (e ∷ es, rw (gone, entry_of-HasEntry app_id c e here, p) refl)
  ]

  -- The list is built when each revoked certificate has a serial that can be read and a date.
  pub entries_of_revoked :
      (ls : List Ledger)
      → All HasEntry (revoked ls)
      → (es : List RevocationListEntry) × (entries quote ls ≡ ok es)
  unfolding entries revoked
  entries_of_revoked [] h = ([], refl)
  entries_of_revoked (l ∷ ls) h =
      let (xs, p) =
        entries_of-HasEntry l.app_id l.certificates
          (All-append_left HasEntry (revoked_in l.certificates) (revoked ls) h) in
      let (ys, q) =
        entries_of_revoked ls (All-append_right HasEntry (revoked_in l.certificates) _ h) in
      (xs ++ ys, rw (p, q) refl)

-- Increasing serials.
abbrev pub Ordered : List RevocationListEntry → Type 0
Ordered [] = Unit
Ordered (e ∷ []) = Unit
Ordered (e ∷ f ∷ es) = (e.serial_number ≤ℤ f.serial_number) × Ordered (f ∷ es)

-- The list that is built holds the entries of the revoked certificates and no other, by increasing
-- serial; it is numbered by the second, and valid for seven days. The sort is one that does sort the
-- entries that are collected.
pub build_lem :
    (quote : Bytes → Bytes) (sort : List RevocationListEntry → List RevocationListEntry)
    (ls : List Ledger) (now : Time) (rl : RevocationList)
    → ((es : List RevocationListEntry)
        → entries quote ls ≡ ok es
        → Perm es (sort es) × Ordered (sort es))
    → build quote sort ls now ≡ ok rl
    → (es : List RevocationListEntry) × AreEntriesOf quote (revoked ls) es
      × Perm es rl.revoked_certificate_entries
      × Ordered rl.revoked_certificate_entries
      × (rl.number ≡ unix now)
      × (rl.this_update ≡ now)
      × (rl.next_update ≡ now + 7 * day)
unfolding build crl_validity
build_lem quote sort ls now rl sorts h = elim (Result-cases (entries quote ls)) [
  | inr (bad, p) ↦ ground arith
  | inl (es, p) ↦
      let (perm, ordered) = sorts es p in
      let same : record {
        number = unix now;
        this_update = now;
        next_update = now + crl_validity;
        revoked_certificate_entries = sort es;
      }
          ≡ rl =
        ok_inj (rw (p, build) at h) in
      rw (sym same) ((es, entries-AreEntriesOf quote ls es p, perm, ordered, refl, refl, refl))
]
