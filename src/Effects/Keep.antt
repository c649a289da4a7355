-- ===== src/Effects/Keep.antt =====
-- Predicates on the world that an action keeps, and the two ways in which a bind can go.
use developer_certificates.Common.{◌≡◌, ◌⊎◌, inl, inr, refl, ap, Bytes, arith}
use developer_certificates.Effects.{
  Action, Error, Result, ok, err, wrap, attempt, context, lift, always, ◌>>=◌, Result-cases,
}

pub ok_inj {ℓ} : {A : Type ℓ} {a b : A} → ok a ≡ ok b → a ≡ b
ok_inj e = cc e

module _ {W A B : Type 0} (m : Action W A) (f : A → Action W B) where
  -- The first action fails and the bind with it, or the second goes on with its result.
  pub >>=-cases :
      (w : W)
      → ((a : A) × ((m w).0 ≡ ok a) × ((m >>= f) w ≡ f a (m w).1))
        ⊎ ((e : Error) × ((m w).0 ≡ err e) × ((m >>= f) w ≡ (err e, (m w).1)))
  unfolding ◌>>=◌
  >>=-cases w = elim (Result-cases (m w).0) [
    | inl (a, e) ↦ inl (a, e, rw (e, ◌>>=◌) refl)
    | inr (e, p) ↦ inr (e, p, rw (p, ◌>>=◌) refl)
  ]

-- A bind goes on with what its first action returns.
pub >>=-step :
    {W A B : Type 0} (m : Action W A) (f : A → Action W B) (w w' : W) {a : A}
    → m w ≡ (ok a, w')
    → (m >>= f) w ≡ f a w'
unfolding ◌>>=◌
>>=-step m f w w' {a} h = rw (h, ◌>>=◌) (ap (f a) (ap (λ r. r.1) h))

-- A bind whose first action fails.
pub >>=-err :
    {W A B : Type 0} (m : Action W A) (f : A → Action W B) (w w' : W) {e : Error}
    → m w ≡ (err e, w')
    → (m >>= f) w ≡ (err e, w')
unfolding ◌>>=◌
>>=-err m f w w' {e} h = rw (h, ◌>>=◌) (ap (λ r. (err e, r.1)) h)

-- A call whose error is handed on as a value always goes on.
pub attempt-step :
    {W A B : Type 0} (m : Action W A) (f : Result A → Action W B) (w : W)
    → (attempt m >>= f) w ≡ f (m w).0 (m w).1
unfolding ◌>>=◌
attempt-step m f w = refl

pub always-step :
    {W A B : Type 0} (f : W → A × W) (k : A → Action W B) (w : W)
    → (always f >>= k) w ≡ k (f w).0 (f w).1
unfolding ◌>>=◌
always-step f k w = refl

-- A call under a context succeeds with what the call returns.
pub context-eq-ok :
    {W A : Type 0} (prefix : Bytes) (m : Action W A) (w : W) {a : A}
    → (context prefix m w).0 ≡ ok a
    → (m w).0 ≡ ok a
unfolding context
context-eq-ok prefix m w e = ground arith

pub context-step :
    {W A : Type 0} (prefix : Bytes) (m : Action W A) (w w' : W) {a : A}
    → m w ≡ (ok a, w')
    → context prefix m w ≡ (ok a, w')
unfolding context
context-step prefix m w w' {a} h = rw (h, context) refl

-- A call under a context succeeds and the program goes on, or fails and the program with it, under the
-- prefix.
pub context->>=-cases :
    {W A B : Type 0} (prefix : Bytes) (m : Action W A) (f : A → Action W B) (w : W)
    → ((a : A) × (m w ≡ (ok a, (m w).1)) × ((context prefix m >>= f) w ≡ f a (m w).1))
      ⊎ ((e : Error) × (m w ≡ (err e, (m w).1))
          × ((context prefix m >>= f) w ≡ (err (wrap prefix e), (m w).1)))
unfolding context ◌>>=◌
context->>=-cases prefix m f w = elim (Result-cases (m w).0) [
  | inl (a, p) ↦ inl (a, λ i. (p i, (m w).1), rw (p, ◌>>=◌, context) refl)
  | inr (e, p) ↦ inr (e, λ i. (p i, (m w).1), rw (p, ◌>>=◌, context) refl)
]

-- A bind that succeeds does so in both its parts.
pub >>=-eq-ok :
    {W A B : Type 0} (m : Action W A) (f : A → Action W B) (w : W) (b : B)
    → ((m >>= f) w).0 ≡ ok b
    → (a : A) × ((m w).0 ≡ ok a) × ((m >>= f) w ≡ f a (m w).1) × ((f a (m w).1).0 ≡ ok b)
>>=-eq-ok m f w b e = elim (>>=-cases m f w) [
  | inl (a, p, runs) ↦ (a, p, runs, rw runs at e)
  | inr (x, p, runs) ↦ cc (ap (λ r. r.0) runs)
]

-- Whatever the action returns, it leaves a world where `I` holds.
abbrev pub Keeps {ℓ} : {W A : Type 0} → (W → Type ℓ) → Action W A → Type ℓ
Keeps {W} I m = (w : W) → I w → I (m w).1

module _ {ℓ} {W : Type 0} (I : W → Type ℓ) where
  pub >>=-Keeps :
      {A B : Type 0} (m : Action W A) (f : A → Action W B)
      → Keeps I m
      → ((a : A) → Keeps I (f a))
      → Keeps I (m >>= f)
  >>=-Keeps m f keep_m keep_f w i = elim (>>=-cases m f w) [
    | inl (a, _, runs) ↦ rw runs (keep_f a (m w).1 (keep_m w i))
    | inr (e, _, runs) ↦ rw runs (keep_m w i)
  ]

  pub pure-Keeps : {A : Type 0} (r : Result A) → Keeps I (lift r)
  pure-Keeps r w i = i

  -- A call whose error is handed on as a value.
  pub attempt-Keeps :
      {A B : Type 0} (m : Action W A) (f : Result A → Action W B)
      → Keeps I m
      → ((r : Result A) → Keeps I (f r))
      → Keeps I (attempt m >>= f)
  unfolding ◌>>=◌
  attempt-Keeps m f keep_m keep_f w i = keep_f (m w).0 (m w).1 (keep_m w i)

  pub context-Keeps :
      {A : Type 0} (prefix : Bytes) (m : Action W A) → Keeps I m → Keeps I (context prefix m)
  unfolding context
  context-Keeps prefix m keep w i = keep w i
