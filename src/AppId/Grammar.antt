-- ===== src/AppId/Grammar.antt =====
-- The grammar that `valid` accepts, and what canonicalizing a name does.
use developer_certificates.Common.{
  ℕ, ◌+◌, ◌≤◌, ◌<◌, ◌≡◌, ◌⊎◌, ◌↔◌, inl, inr, refl, sym, true, List, [], ◌∷◌, ◌++◌, Bytes, length,
  All, append-nil, arith, Bool-cases,
}
use developer_certificates.Effects.{ok}
use developer_certificates.Regex.{flatten, Matches}
use developer_certificates.Regex.Sound.{matches_start_sound}
use developer_certificates.Regex.Complete.{matches_start_complete}
use developer_certificates.AppId.{
  is_letter, is_body, pattern_pieces, fold_byte, fold, valid, validate_strict, canonicalize,
}

-- A lowercase letter, then 2 to 63 of the letters, digits, `_`, `.` and `-`.
abbrev pub IsAppId : Bytes → Type 0
IsAppId [] = ⊥
IsAppId (c ∷ s) =
    (is_letter c ≡ true) × All (λ x. is_body x ≡ true) s × (2 ≤ length s) × (length s ≤ 63)

-- What the three pieces of the pattern spell.
Matches-IsAppId :
    (ms : List Bytes) (r : Bytes) → Matches pattern_pieces ms r → IsAppId (flatten ms ++ r)
unfolding pattern_pieces flatten
Matches-IsAppId [] r h = absurd h
Matches-IsAppId (m ∷ []) r (_, _, h) = absurd h
Matches-IsAppId (m ∷ n ∷ []) r (_, _, (_, _, h)) = absurd h
Matches-IsAppId (m ∷ n ∷ e ∷ f ∷ ms) r (_, _, (_, _, (_, _, h))) = absurd h
Matches-IsAppId ([] ∷ n ∷ e ∷ []) r h = absurd (omega arith)
Matches-IsAppId ((c ∷ d ∷ m) ∷ n ∷ e ∷ []) r h = absurd (omega arith)
Matches-IsAppId ((c ∷ []) ∷ n ∷ (_ ∷ _) ∷ []) r (_, _, (_, _, (bad, _, _))) = cc
Matches-IsAppId ((c ∷ []) ∷ n ∷ [] ∷ []) r
      ((first, _, _), _, ((body, low, high), _, (_, ending, _))) =
    simp (ending, append-nil) (first.0, body, low, high)

valid_sound : (s : Bytes) → valid s ≡ true → IsAppId s
unfolding valid
valid_sound s h =
    let (ms, r, spells, fits) = matches_start_sound pattern_pieces s h in
    rw spells (Matches-IsAppId ms r fits)

valid_complete : (s : Bytes) → IsAppId s → valid s ≡ true
unfolding valid flatten
valid_complete [] h = elim h [ ]
valid_complete (c ∷ s) (first, body, low, high) =
    let whole =
      matches_start_complete pattern_pieces ((c ∷ []) ∷ s ∷ [] ∷ []) []
        (((first, tt), omega arith, omega arith), tt, ((body, low, high), tt, (refl, refl, tt))) in
    simp append-nil at whole

-- `valid` accepts exactly the legal appIds: a lowercase letter, then 2 to 63 letters, digits, `_`,
-- `.` or `-`.
pub valid_iff : (s : Bytes) → (valid s ≡ true) ↔ IsAppId s
valid_iff s = (valid_sound s, valid_complete s)

fold_byte_of_body : (c : ℕ) → is_body c ≡ true → fold_byte c ≡ c
unfolding fold_byte is_body
fold_byte_of_body c h = ground arith

fold_byte_idem : (c : ℕ) → fold_byte (fold_byte c) ≡ fold_byte c
unfolding fold_byte
fold_byte_idem c = ground arith

fold_of_body : (s : Bytes) → All (λ x. is_body x ≡ true) s → fold s ≡ s
unfolding fold
fold_of_body [] h = refl
fold_of_body (c ∷ s) (here, rest) = cc (fold_byte_of_body c here, fold_of_body s rest)

is_body_of_letter : (c : ℕ) → is_letter c ≡ true → is_body c ≡ true
unfolding is_body
is_body_of_letter c h = rw h

-- A legal appId holds no capital, so folding leaves it alone.
pub fold_of_IsAppId : (s : Bytes) → IsAppId s → fold s ≡ s
unfolding fold
fold_of_IsAppId [] h = refl
fold_of_IsAppId (c ∷ s) (first, body, _, _) =
    cc (fold_byte_of_body c (is_body_of_letter c first), fold_of_body s body)

fold_idem : (s : Bytes) → fold (fold s) ≡ fold s
unfolding fold
fold_idem [] = refl
fold_idem (c ∷ s) = cc (fold_byte_idem c, fold_idem s)

validate_strict-eq-ok : (cn s : Bytes) → validate_strict cn ≡ ok s → (s ≡ cn) × IsAppId cn
unfolding validate_strict
validate_strict-eq-ok cn s h = elim (Bool-cases (valid cn)) [
  | inl good ↦ (ground arith, valid_sound cn good)
  | inr bad ↦ cc (rw bad at h)
]

pub validate_strict_of_IsAppId : (cn : Bytes) → IsAppId cn → validate_strict cn ≡ ok cn
unfolding validate_strict
validate_strict_of_IsAppId cn h = rw (valid_complete cn h)

-- A certificate's name is accepted exactly when it is a legal appId as it stands, and then it is
-- returned unchanged; nothing is folded.
pub validate_strict_iff : (cn s : Bytes) → (validate_strict cn ≡ ok s) ↔ ((s ≡ cn) × IsAppId cn)
validate_strict_iff cn s =
    (validate_strict-eq-ok cn s, λ h. rw h.0 (validate_strict_of_IsAppId cn h.1))

canonicalize-eq-ok : (raw s : Bytes) → canonicalize raw ≡ ok s → (s ≡ fold raw) × IsAppId s
unfolding canonicalize
canonicalize-eq-ok raw s h = elim (Bool-cases (valid (fold raw))) [
  | inl good ↦
      let same : s ≡ fold raw = ground arith in (same, rw same (valid_sound (fold raw) good))
  | inr bad ↦ cc (rw bad at h)
]

canonicalize_of_fold : (raw s : Bytes) → s ≡ fold raw → IsAppId s → canonicalize raw ≡ ok s
unfolding canonicalize
canonicalize_of_fold raw s same h = rw same (rw (valid_complete (fold raw) (rw same at h)))

-- A capital letter has become the small one, and any other byte has stayed.
abbrev pub IsLowerOf : ℕ → ℕ → Type 0
IsLowerOf b c = ((65 ≤ b) × (b ≤ 90) × (c ≡ b + 32)) ⊎ (((b < 65) ⊎ (90 < b)) × (c ≡ b))

-- Byte by byte.
abbrev pub IsLowered : Bytes → Bytes → Type 0
IsLowered [] [] = Unit
IsLowered [] (_ ∷ _) = ⊥
IsLowered (_ ∷ _) [] = ⊥
IsLowered (b ∷ raw) (c ∷ s) = IsLowerOf b c × IsLowered raw s

fold_byte_iff : (b c : ℕ) → (c ≡ fold_byte b) ↔ IsLowerOf b c
unfolding fold_byte
fold_byte_iff b c = ground arith

fold-IsLowered : (raw : Bytes) → IsLowered raw (fold raw)
unfolding fold
fold-IsLowered [] = tt
fold-IsLowered (b ∷ raw) = ((fold_byte_iff b (fold_byte b)).0 refl, fold-IsLowered raw)

IsLowered-fold : (raw s : Bytes) → IsLowered raw s → s ≡ fold raw
unfolding fold
IsLowered-fold [] [] h = refl
IsLowered-fold [] (_ ∷ _) h = absurd h
IsLowered-fold (_ ∷ _) [] h = absurd h
IsLowered-fold (b ∷ raw) (c ∷ s) (here, rest) =
    cc ((fold_byte_iff b c).1 here, IsLowered-fold raw s rest)

-- A name from info.xml is accepted, as the appId `s`, exactly when `s` is the name with each capital
-- letter, and nothing else, replaced by the small letter, and is a legal appId.
pub canonicalize_iff : (raw s : Bytes) → (canonicalize raw ≡ ok s) ↔ (IsLowered raw s × IsAppId s)
canonicalize_iff raw s = (
  λ h. let (same, legal) = canonicalize-eq-ok raw s h in (rw same (fold-IsLowered raw), legal),
  λ (lowered, legal). canonicalize_of_fold raw s (IsLowered-fold raw s lowered) legal,
)

-- The two rules agree on what they accept: a canonical name is accepted by the strict rule, and
-- canonicalizing it again changes nothing.
pub canonicalize_stable :
    (raw s : Bytes) → canonicalize raw ≡ ok s → (validate_strict s ≡ ok s) × (canonicalize s ≡ ok s)
canonicalize_stable raw s h =
    let (same, legal) = canonicalize-eq-ok raw s h in
    (
      validate_strict_of_IsAppId s legal,
      canonicalize_of_fold s s (sym (fold_of_IsAppId s legal)) legal,
    )
