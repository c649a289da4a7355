-- ===== src/Text/Trim.antt =====
-- Trimming takes white space off and nothing else.
use developer_certificates.Common.{
  ℕ, ◌≤◌, ◌≡◌, ◌≢◌, ◌⊎◌, refl, sym, ap, ◌∙◌, none, some, ◌++◌, reverse-append, reverse-reverse,
  length-reverse, All-reverse, length, length-append, List, [], ◌∷◌, map, reverse, Bytes, All,
  arith, strip_prefix,
}
use developer_certificates.Text.{strip_any, trim_from, spaces, trim_left, trim_right, trim_space}

-- A printing ASCII character, which no white space begins or ends with.
abbrev pub IsVisible : ℕ → Type 0
IsVisible c = (33 ≤ c) × (c ≤ 126)

-- One of the ASCII white space characters.
abbrev pub IsBlank : ℕ → Type 0
IsBlank c = (c ≡ 32) ⊎ ((9 ≤ c) × (c ≤ 13))

abbrev BeginsOther : ℕ → Bytes → Type 0
BeginsOther c [] = ⊥
BeginsOther c (a ∷ _) = a ≢ c

strip_any_other :
    (c : ℕ) (s : Bytes) (ws : List Bytes) → All (BeginsOther c) ws → strip_any ws (c ∷ s) ≡ none
unfolding strip_any strip_prefix
strip_any_other c s [] h = refl
strip_any_other c s ([] ∷ ws) (h, _) = absurd h
strip_any_other c s ((a ∷ w) ∷ ws) (h, hs) = ground (arith, strip_any_other c s ws hs)

spaces_begin : (c : ℕ) → IsVisible c → All (BeginsOther c) spaces
unfolding spaces
spaces_begin c h = omega arith

spaces_end : (c : ℕ) → IsVisible c → All (BeginsOther c) (map reverse spaces)
unfolding spaces
spaces_end c h = omega arith

-- What a set of white space does at a printing character and at a blank.
record IsWhite (ws : List Bytes) : Type 0 where
  stops : (c : ℕ) (s : Bytes) → IsVisible c → strip_any ws (c ∷ s) ≡ none
  takes : (b : ℕ) (s : Bytes) → IsBlank b → strip_any ws (b ∷ s) ≡ some s

spaces_take : (b : ℕ) (s : Bytes) → IsBlank b → strip_any spaces (b ∷ s) ≡ some s
unfolding strip_any strip_prefix spaces
spaces_take b s h = ground arith

spaces_take_back : (b : ℕ) (s : Bytes) → IsBlank b → strip_any (map reverse spaces) (b ∷ s) ≡ some s
unfolding strip_any strip_prefix spaces
spaces_take_back b s h = ground arith

spaces-IsWhite : IsWhite spaces
spaces-IsWhite = record {
  stops = λ c s h. strip_any_other c s spaces (spaces_begin c h);
  takes = spaces_take;
}

spaces-IsWhite_back : IsWhite (map reverse spaces)
spaces-IsWhite_back = record {
  stops = λ c s h. strip_any_other c s (map reverse spaces) (spaces_end c h);
  takes = spaces_take_back;
}

-- A text that begins with a printing character, behind blanks.
trim_from_blanks :
    (ws : List Bytes) (rounds l : Bytes) (c : ℕ) (s : Bytes)
    → IsWhite ws
    → length l ≤ length rounds
    → All IsBlank l
    → IsVisible c
    → trim_from ws rounds (l ++ c ∷ s) ≡ c ∷ s
unfolding trim_from
trim_from_blanks ws [] [] c s white enough blank seen = refl
trim_from_blanks ws [] (b ∷ l) c s white enough blank seen = absurd (omega arith)
trim_from_blanks ws (_ ∷ f) [] c s white enough blank seen = rw (white.stops c s seen, trim_from)
trim_from_blanks ws (_ ∷ f) (b ∷ l) c s white enough (here, rest) seen =
    rw (white.takes b (l ++ c ∷ s) here, trim_from)
      (trim_from_blanks ws f l c s white (omega arith) rest seen)

trim_left_blanks :
    (l : Bytes) (c : ℕ) (t : Bytes) → All IsBlank l → IsVisible c → trim_left (l ++ c ∷ t) ≡ c ∷ t
unfolding trim_left
trim_left_blanks l c t blank first =
    trim_from_blanks spaces (l ++ c ∷ t) l c t spaces-IsWhite
      (omega (arith, length-append l (c ∷ t))) blank first

trim_back :
    (rounds t r u : Bytes)
    → reverse t ≡ u
    → t ≢ []
    → length r ≤ length rounds
    → All IsBlank (reverse r)
    → All IsVisible u
    → trim_from (map reverse spaces) rounds (reverse r ++ u) ≡ reverse t
trim_back rounds t r [] turned full enough blank seen =
    absurd (full (sym (reverse-reverse t) ∙ ap reverse turned))
trim_back rounds t r (c ∷ u) turned full enough blank (first, _) =
    trim_from_blanks (map reverse spaces) rounds (reverse r) c u spaces-IsWhite_back
      (omega (arith, length-reverse r)) blank first
    ∙ sym turned

trim_right_blanks :
    (t r : Bytes) → All IsBlank r → All IsVisible t → t ≢ [] → trim_right (t ++ r) ≡ t
unfolding trim_right
trim_right_blanks t r blank seen full =
    rw
      (
        reverse-append,
        trim_back (t ++ r) t r (reverse t) refl full (omega (arith, length-append t r))
            (All-reverse IsBlank r blank) (All-reverse IsVisible t seen),
      )
      (reverse-reverse t)

-- A text of printing characters is what is left of it between blanks.
pub trim_space_lem :
    (l t r : Bytes)
    → All IsBlank l
    → All IsBlank r
    → All IsVisible t
    → t ≢ []
    → trim_space (l ++ (t ++ r)) ≡ t
unfolding trim_space
trim_space_lem l [] r before after seen full = absurd (full refl)
trim_space_lem l (c ∷ t) r before after seen full =
    ap trim_right (trim_left_blanks l c (t ++ r) before seen.0)
    ∙ trim_right_blanks (c ∷ t) r after seen full
