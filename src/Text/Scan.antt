-- ===== src/Text/Scan.antt =====
-- Readers of a text from its front, which return what they have read and the rest.
use developer_certificates.Common.{
  ℕ, ◌+◌, ◌*◌, ◌/◌, ◌%◌, ◌-◌, ◌<◌, ◌≡◌, refl, Option, none, some, [], ◌∷◌, ◌++◌, Bytes,
  strip_prefix, strip_prefix-append, ◌&&◌, leb, if◌then◌else◌, arith,
}

abbrev pub Scan : Type 0 → Type 0
Scan A = Bytes → Option (A × Bytes)

infixl 5 ◌>>=◌ ◌>>◌
unfoldable pub ◌>>=◌ : {A B : Type 0} → Scan A → (A → Scan B) → Scan B
◌>>=◌ m f s = elim (m s) [ none ↦ none | some (a, r) ↦ f a r ]

abbrev pub ◌>>◌ : {A B : Type 0} → Scan A → Scan B → Scan B
m >> k = m >>= λ _. k

abbrev pub pure : {A : Type 0} → A → Scan A
pure a s = some (a, s)

-- The text `w`.
unfoldable pub lit : Bytes → Scan (Unit {0})
lit w s = elim (strip_prefix w s) [ none ↦ none | some r ↦ some (tt, r) ]

pub >>=-scans :
    {A B : Type 0} (m : Scan A) (f : A → Scan B) (s : Bytes) {a : A} {r : Bytes}
    → m s ≡ some (a, r)
    → (m >>= f) s ≡ f a r
unfolding ◌>>=◌
>>=-scans m f s h = rw (h, ◌>>=◌) refl

pub lit-scans : (w r : Bytes) → lit w (w ++ r) ≡ some (tt, r)
unfolding lit
lit-scans w r = rw (strip_prefix-append w r, lit) refl

-- A number below 100 in two digits, in front of a rest.
unfoldable pub two : ℕ → Bytes → Bytes
two n r = (48 + n / 10) ∷ (48 + n % 10) ∷ r

unfoldable pub scan_two : Scan ℕ
scan_two [] = none
scan_two (a ∷ []) = none
scan_two (a ∷ b ∷ r) =
    if (leb 48 a && leb a 57) && (leb 48 b && leb b 57)
    then some (10 * (a - 48) + (b - 48), r)
    else none

pub scan_two-two : (n : ℕ) (r : Bytes) → n < 100 → scan_two (two n r) ≡ some (n, r)
unfolding scan_two two
scan_two-two n r h = ground arith
