-- ===== src/Effects.antt =====
-- Go's error values and fallible results, and the programs that call collaborators: a program takes
-- the state of the world behind the interfaces and returns a result with the state it leaves.
pub mod Keep
use developer_certificates.Common.{
  ◌≡◌, ◌⊎◌, inl, inr, refl, Bool, true, false, Bytes, codes, [], ◌++◌,
}

-- The sentinel that errors.Is finds in the chain of an error. Two are the model's own: `diverges`, a
-- loop that the source lets run on and that used up the rounds given here, and `panics`.
pub data Sentinel : Type 0 where
  not_found conflict invalid_cms unsupported_key bad_signature plain diverges panics : Sentinel

pub record Error : Type 0 where
  pub sentinel : Sentinel
  pub text : Bytes

abbrev pub is_not_found : Error → Bool
is_not_found e = elim e.sentinel [ Sentinel.not_found ↦ true | _ ↦ false ]

abbrev pub is_conflict : Error → Bool
is_conflict e = elim e.sentinel [ Sentinel.conflict ↦ true | _ ↦ false ]

abbrev pub is_invalid_cms : Error → Bool
is_invalid_cms e = elim e.sentinel [ Sentinel.invalid_cms ↦ true | _ ↦ false ]

-- fmt.Errorf("<text>"), with no %w.
unfoldable pub errorf : Bytes → Error
errorf t = record { sentinel = Sentinel.plain; text = t }

-- fmt.Errorf("<prefix>: %w", e).
unfoldable pub wrap : Bytes → Error → Error
unfolding codes
wrap prefix e = record { sentinel = e.sentinel; text = prefix ++ codes ": " ++ e.text }

-- fmt.Errorf("%w: <text>", s) for a sentinel s whose own text is `name`.
unfoldable pub mark : Sentinel → Bytes → Bytes → Error
unfolding codes
mark s name t = record { sentinel = s; text = name ++ codes ": " ++ t }

unfoldable pub diverged : Error
diverged = record { sentinel = Sentinel.diverges; text = [] }

unfoldable pub panicked : Error
panicked = record { sentinel = Sentinel.panics; text = [] }

pub data Result {ℓ} (A : Type ℓ) : Type ℓ where
  ok : A → Result A
  err : Error → Result A

-- What a call returns that has only an error to report.
abbrev pub ⊤ : Type 0
⊤ = Unit

abbrev pub Action : Type 0 → Type 0 → Type 0
Action W A = W → Result A × W

module _ {W : Type 0} where
  abbrev pub pure : {A : Type 0} → A → Action W A
  pure a w = (ok a, w)

  abbrev pub fail : {A : Type 0} → Error → Action W A
  fail e w = (err e, w)

  -- A result that was computed without the collaborators.
  abbrev pub lift : {A : Type 0} → Result A → Action W A
  lift r w = (r, w)

  -- A call that cannot fail, such as Clock.Now.
  abbrev pub always : {A : Type 0} → (W → A × W) → Action W A
  always f w = let (a, w') = f w in (ok a, w')

  -- The result of a call as a value, for a branch on its error.
  abbrev pub attempt : {A : Type 0} → Action W A → Action W (Result A)
  attempt m w = let (r, w') = m w in (ok r, w')

  -- if err != nil { return fmt.Errorf("<prefix>: %w", err) }
  unfoldable pub context : {A : Type 0} → Bytes → Action W A → Action W A
  unfolding wrap
  context prefix m w =
      let (r, w') = m w in (elim r [ ok a ↦ ok a | err e ↦ err (wrap prefix e) ], w')

infixl 5 ◌>>=◌ ◌>>◌
unfoldable pub ◌>>=◌ : {W A B : Type 0} → Action W A → (A → Action W B) → Action W B
◌>>=◌ m f w = let (r, w') = m w in elim r [ ok a ↦ f a w' | err e ↦ (err e, w') ]

abbrev pub ◌>>◌ : {W A B : Type 0} → Action W A → Action W B → Action W B
m >> k = m >>= λ _. k

pub Result-cases {ℓ} :
    {A : Type ℓ} (r : Result A) → ((a : A) × (r ≡ ok a)) ⊎ ((e : Error) × (r ≡ err e))
Result-cases (ok a) = inl (a, refl)
Result-cases (err e) = inr (e, refl)
