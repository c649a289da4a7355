-- ===== src/Revoke/Apply/Flip.antt =====
-- Which certificate a revocation finds, and what it changes in the ledger.
use developer_certificates.Common.{
  ℕ, zero, suc, ◌<◌, ◌≡◌, ◌≢◌, inl, inr, refl, ap, sym, ◌∙◌, false, Option, none, some, List, [],
  ◌∷◌, Bytes, bytes_eq, bytes_eq_iff, subst, arith, Bool-cases, Option-cases, All-set, get_elem?,
  set,
}
use developer_certificates.Ledger.{Certificate, Ledger, status_revoked}
use developer_certificates.Ledger.Validity.{IsWellFormed, HasStatus}
use developer_certificates.Revoke.Find.{index_by}
use developer_certificates.Revoke.Apply.{Revocation, FindFunc, flip, flipped, target}

-- The certificate stands at the index, and is the first one with the key.
pub record IsFirst (field : Certificate → Bytes) (key : Bytes) (cs : List Certificate) (i : ℕ)
    (c : Certificate) : Type 0 where
  pub there : get_elem? cs i ≡ some c
  pub keyed : field c ≡ key
  pub first : (j : ℕ) (b : Certificate) → j < i → get_elem? cs j ≡ some b → field b ≢ key

first_later :
    (field : Certificate → Bytes) (key : Bytes) (c : Certificate) (cs : List Certificate) (k : ℕ)
    → bytes_eq (field c) key ≡ false
    → ((j : ℕ) (b : Certificate) → j < k → get_elem? cs j ≡ some b → field b ≢ key)
    → (j : ℕ) (b : Certificate) → j < suc k
    → get_elem? (c ∷ cs) j ≡ some b
    → field b ≢ key
first_later field key c cs k other rest zero b below e same =
    cc (other, (bytes_eq_iff (field b) key).1 same, e)
first_later field key c cs k other rest (suc j) b below e same =
    rest j b (omega (arith, below)) e same

index_by_sound :
    (field : Certificate → Bytes) (key : Bytes) (cs : List Certificate) (i : ℕ)
    → index_by field key cs ≡ some i
    → (c : Certificate) × IsFirst field key cs i c
unfolding index_by
index_by_sound field key [] i h = ground arith
index_by_sound field key (c ∷ cs) i h = elim (Bool-cases (bytes_eq (field c) key)) [
  | inl here ↦
      let zeroth : zero ≡ i = ground arith in
      (
        c,
        subst (λ k. IsFirst field key (c ∷ cs) k c) zeroth
            record {
              there = refl;
              keyed = (bytes_eq_iff (field c) key).0 here;
              first = λ j b below e. absurd (omega (arith, below));
            },
      )
  | inr other ↦ elim (Option-cases (index_by field key cs)) [
    | inl absent ↦ ground arith
    | inr (k, found) ↦
        let later : suc k ≡ i = ground arith in
        let (b, f) = index_by_sound field key cs k found in
        (
          b,
          subst (λ k. IsFirst field key (c ∷ cs) k b) later
              record {
                there = f.there;
                keyed = f.keyed;
                first = first_later field key c cs k other f.first;
              },
        )
  ]
]

get_elem?-set :
    (cs : List Certificate) (i j : ℕ) (v : Certificate)
    → j ≢ i
    → get_elem? (set cs i v) j ≡ get_elem? cs j
get_elem?-set [] i j v ne = refl
get_elem?-set (c ∷ cs) zero zero v ne = absurd (ne refl)
get_elem?-set (c ∷ cs) zero (suc j) v ne = refl
get_elem?-set (c ∷ cs) (suc i) zero v ne = refl
get_elem?-set (c ∷ cs) (suc i) (suc j) v ne = get_elem?-set cs i j v (λ e. ne (ap suc e))

get_elem?-set_same :
    (cs : List Certificate) (i : ℕ) (c v : Certificate)
    → get_elem? cs i ≡ some c
    → get_elem? (set cs i v) i ≡ some v
get_elem?-set_same [] i c v h = ground arith
get_elem?-set_same (b ∷ cs) zero c v h = refl
get_elem?-set_same (b ∷ cs) (suc i) c v h = get_elem?-set_same cs i c v h

-- A finder by a field of the certificate.
abbrev pub FindsBy : (Certificate → Bytes) → Bytes → FindFunc → Type 0
FindsBy field key find =
    (find none ≡ none) × ((l : Ledger) → find (some l) ≡ index_by field key l.certificates)

-- The target of a finder is the first certificate of the ledger that has the key.
pub target-IsFirst :
    (field : Certificate → Bytes) (key : Bytes) (find : FindFunc) (existing : Option Ledger)
    (l : Ledger) (i : ℕ) (c : Certificate)
    → FindsBy field key find
    → target find existing ≡ some (l, i, c)
    → (existing ≡ some l) × IsFirst field key l.certificates i c
unfolding target
target-IsFirst field key find none l i c by h = ground arith
target-IsFirst field key find (some m) l i c (_, by) h = elim (Option-cases (find (some m))) [
  | inl absent ↦ ground arith
  | inr (k, found) ↦ elim (Option-cases (get_elem? m.certificates k)) [
    | inl behind ↦ ground arith
    | inr (b, there) ↦
        let t : Ledger × ℕ × Certificate = (m, k, b) in
        let u : Ledger × ℕ × Certificate = (l, i, c) in
        let opened : some t ≡ some u = rw (target, found, there) at h in
        let same : t ≡ u = cc opened in
        let (d, f) = index_by_sound field key m.certificates k (sym (by m) ∙ found) in
        let same_cert : d ≡ b = cc (f.there, there) in
        subst
          (λ (z : Ledger × ℕ × Certificate).
            (some m ≡ some z.0) × IsFirst field key z.0.certificates z.1 z.2)
          same ((refl, subst (IsFirst field key m.certificates k) same_cert f))
  ]
]

-- A certificate that has been revoked is well formed.
flip-HasStatus : (rev : Revocation) (c : Certificate) → HasStatus (flip rev c)
unfolding flip
flip-HasStatus rev c = inr (refl, λ e. cc e)

-- A revocation changes the status, the date, the reason and the actor of the certificate at its index,
-- and nothing else of the certificate or the ledger; the ledger stays well formed.
pub flipped_lem :
    (rev : Revocation) (l : Ledger) (i : ℕ) (c : Certificate)
    → get_elem? l.certificates i ≡ some c
    → IsWellFormed l
    → let m = flipped rev l i c in
      IsWellFormed m
      × (m.app_id ≡ l.app_id)
      × (m.owner ≡ l.owner)
      × (m.claimed_at ≡ l.claimed_at)
      × (m.reserved ≡ l.reserved)
      × ((j : ℕ) → j ≢ i → get_elem? m.certificates j ≡ get_elem? l.certificates j)
      × (get_elem? m.certificates i
          ≡ some (record c {
            status = status_revoked;
            revoked_from = some rev.revoked_from;
            reason = rev.reason;
            actor = rev.actor;
          }))
unfolding flipped flip
flipped_lem rev l i c there w = (
  record {
    named = w.named;
    statuses = All-set HasStatus l.certificates i (flip rev c) w.statuses (flip-HasStatus rev c);
  },
  refl,
  refl,
  refl,
  refl,
  λ j ne. get_elem?-set l.certificates i j (flip rev c) ne,
  get_elem?-set_same l.certificates i c (flip rev c) there,
)
