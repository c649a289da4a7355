-- ===== src/Bots/Growth.antt =====
-- How the certificates of a ledger may change: none is lost, and none that is revoked comes back.
use developer_certificates.Common.{
  ℕ, zero, suc, Bool, true, subst, ◌≡◌, refl, ◌∙◌, sym, some, List, [], ◌∷◌, ◌++◌, Bytes, get_elem?,
  set,
}
use mathlib.Core.List.{Memᴰ}
use mathlib.Core.Option.{some_inj}
use mathlib.Core.List.Memᴰ.{head, tail, not-nil}
use developer_certificates.Ledger.{Certificate, status_revoked}

pub record Keeps (old new : Certificate) : Type 0 where
  pub serial : new.serial ≡ old.serial
  pub fingerprint : new.fingerprint ≡ old.fingerprint
  pub revoked : old.status ≡ status_revoked → new.status ≡ status_revoked

pub Keeps-refl : (c : Certificate) → Keeps c c
Keeps-refl c = record { serial = refl; fingerprint = refl; revoked = λ h. h }

pub Keeps-trans : {a b c : Certificate} → Keeps a b → Keeps b c → Keeps a c
Keeps-trans k h = record {
  serial = h.serial ∙ k.serial;
  fingerprint = h.fingerprint ∙ k.fingerprint;
  revoked = λ r. h.revoked (k.revoked r);
}

-- Every certificate stands where it stood, and others may follow.
pub data IsLater : List Certificate → List Certificate → Type 0 where
  more : {cs : List Certificate} → IsLater [] cs
  same :
      {a b : Certificate} {cs ds : List Certificate}
      → Keeps a b
      → IsLater cs ds
      → IsLater (a ∷ cs) (b ∷ ds)

pub IsLater-refl : (cs : List Certificate) → IsLater cs cs
IsLater-refl [] = more
IsLater-refl (c ∷ cs) = same (Keeps-refl c) (IsLater-refl cs)

pub IsLater-trans : {cs ds es : List Certificate} → IsLater cs ds → IsLater ds es → IsLater cs es
IsLater-trans more h = more
IsLater-trans (same k r) (same k' r') = same (Keeps-trans k k') (IsLater-trans r r')

pub IsLater-append : (cs ds : List Certificate) → IsLater cs (cs ++ ds)
IsLater-append [] ds = more
IsLater-append (c ∷ cs) ds = same (Keeps-refl c) (IsLater-append cs ds)

pub IsLater-set :
    (cs : List Certificate) (i : ℕ) (old new : Certificate)
    → get_elem? cs i ≡ some old
    → Keeps old new
    → IsLater cs (set cs i new) × Memᴰ new (set cs i new)
IsLater-set [] i old new at k = cc at
IsLater-set (c ∷ cs) zero old new at k =
    (same (subst (λ x. Keeps x new) (sym (some_inj.0 at)) k) (IsLater-refl cs), head refl)
IsLater-set (c ∷ cs) (suc i) old new at k =
    let (later, held) = IsLater-set cs i old new at k in (same (Keeps-refl c) later, tail held)

-- A certificate with the serial, revoked where `must` asks for it.
abbrev pub Lists : Bool → Bytes → List Certificate → Type 0
Lists must serial cs =
    (c : Certificate) × Memᴰ c cs × (c.serial ≡ serial) × (must ≡ true → c.status ≡ status_revoked)

pub IsLater-Lists :
    {must : Bool} {serial : Bytes} {cs ds : List Certificate}
    → IsLater cs ds
    → Lists must serial cs
    → Lists must serial ds
IsLater-Lists later (c, at, named, revoked) =
    let (d, held, k) = go later at in (d, held, k.serial ∙ named, λ m. k.revoked (revoked m))
  where
    go :
        {cs ds : List Certificate} {c : Certificate}
        → IsLater cs ds
        → Memᴰ c cs
        → (d : Certificate) × Memᴰ d ds × Keeps c d
    go more at = absurd (not-nil at)
    go (same {b = b} k r) (head e) = (b, head refl, subst (λ x. Keeps x b) (sym e) k)
    go (same k r) (tail m) = let (d, at, keeps) = go r m in (d, tail at, keeps)
