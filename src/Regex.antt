-- ===== src/Regex.antt =====
-- The regular expressions of the program, as Go's regexp package matches them: leftmost first.
-- Every pattern of the source is a row of pieces, and its classes are ASCII or the negation of
-- ASCII ones, so matching byte by byte agrees with matching by runes.
pub mod Sound
pub mod Complete
pub mod Exact
use developer_certificates.Common.{
  ℕ, ◌-◌, ◌≤◌, ◌≡◌, ◌≢◌, ◌⊎◌, Bool, true, ◌&&◌, Option, none, some, List, [], ◌∷◌, ◌++◌, All,
  length, Bytes, strip_prefix, ltb, ◌==◌, if◌then◌else◌,
}

-- `lit w` is w, `one_of ws` is (?:w1|w2|...), `greedy c lo hi` is c{lo,hi} with no upper bound for
-- `none`, `lazy c` is c*?, and `finish` is $.
pub data Piece : Type 0 where
  lit : Bytes → Piece
  one_of : List Bytes → Piece
  greedy : (ℕ → Bool) → ℕ → Option ℕ → Piece
  lazy : (ℕ → Bool) → Piece
  finish : Piece

-- What each piece matched, and the text behind the match.
abbrev pub Match : Type 0
Match = List Bytes × Bytes

-- The first alternative that succeeds.
abbrev pub or_else {ℓ} : {A : Type ℓ} → Option A → Option A → Option A
or_else (some a) _ = some a
or_else none o = o

abbrev pub capture : Bytes → Option Match → Option Match
capture m none = none
capture m (some (ms, r)) = some (m ∷ ms, r)

abbrev pub has_room : Option ℕ → Bool
has_room none = true
has_room (some n) = ltb 0 n

abbrev pub shrink : Option ℕ → Option ℕ
shrink none = none
shrink (some n) = some (n - 1)

-- The longest run of `c` first; `k` matches the pieces that follow.
unfoldable pub greedy_from :
    (ℕ → Bool) → (Bytes → Option Match) → ℕ → Option ℕ → Bytes → Bytes → Option Match
greedy_from c k lo hi m [] = if lo == 0 then capture m (k []) else none
greedy_from c k lo hi m (x ∷ s) =
    let longer = greedy_from c k (lo - 1) (shrink hi) (m ++ x ∷ []) s in
    let here = if lo == 0 then capture m (k (x ∷ s)) else none in
    if has_room hi && c x then or_else longer here else here

-- The shortest run of `c` first.
unfoldable pub lazy_from : (ℕ → Bool) → (Bytes → Option Match) → Bytes → Bytes → Option Match
lazy_from c k m [] = capture m (k [])
lazy_from c k m (x ∷ s) =
    let longer = lazy_from c k (m ++ x ∷ []) s in
    let later = if c x then longer else none in or_else (capture m (k (x ∷ s))) later

unfoldable pub take_lit : (Bytes → Option Match) → Bytes → Bytes → Option Match
unfolding strip_prefix
take_lit k w s = elim (strip_prefix w s) [ none ↦ none | some r ↦ capture w (k r) ]

unfoldable pub choose : (Bytes → Option Match) → List Bytes → Bytes → Option Match
unfolding take_lit
choose k [] s = none
choose k (w ∷ ws) s = let later = choose k ws s in or_else (take_lit k w s) later

abbrev pub at_end : (Bytes → Option Match) → Bytes → Option Match
at_end k [] = capture [] (k [])
at_end k (_ ∷ _) = none

-- A match of the pieces at the start of the text.
unfoldable pub run : List Piece → Bytes → Option Match
unfolding greedy_from lazy_from choose take_lit
run [] s = some ([], s)
run (lit w ∷ ps) s = take_lit (run ps) w s
run (one_of ws ∷ ps) s = choose (run ps) ws s
run (greedy c lo hi ∷ ps) s = greedy_from c (run ps) lo hi [] s
run (lazy c ∷ ps) s = lazy_from c (run ps) [] s
run (finish ∷ ps) s = at_end (run ps) s

-- The leftmost match in the text.
unfoldable pub find : List Piece → Bytes → Option Match
unfolding run
find ps [] = run ps []
find ps (x ∷ s) = let later = find ps s in or_else (run ps (x ∷ s)) later

unfoldable pub flatten : List Bytes → Bytes
flatten [] = []
flatten (m ∷ ms) = m ++ flatten ms

-- regexp.Regexp.FindString: the text of the leftmost match, or "".
unfoldable pub find_string : List Piece → Bytes → Bytes
unfolding find flatten
find_string ps s = elim (find ps s) [ none ↦ [] | some (ms, _) ↦ flatten ms ]

-- regexp.Regexp.MatchString for a pattern that begins with ^.
unfoldable pub matches_start : List Piece → Bytes → Bool
unfolding run
matches_start ps s = elim (run ps s) [ none ↦ Bool.false | some _ ↦ true ]

-- What a row of pieces may match, piece by piece, without regard to the order of preference.
abbrev pub IsWithin : ℕ → Option ℕ → Type 0
IsWithin n none = Unit
IsWithin n (some h) = n ≤ h

abbrev pub IsOneOf : Bytes → List Bytes → Type 0
IsOneOf m [] = ⊥
IsOneOf m (w ∷ ws) = (m ≡ w) ⊎ IsOneOf m ws

abbrev pub PieceMatches : Piece → Bytes → Type 0
PieceMatches (lit w) m = m ≡ w
PieceMatches (one_of ws) m = IsOneOf m ws
PieceMatches (greedy c lo hi) m = All (λ x. c x ≡ true) m × (lo ≤ length m) × IsWithin (length m) hi
PieceMatches (lazy c) m = All (λ x. c x ≡ true) m
PieceMatches finish m = m ≡ []

abbrev pub IsAtEnd : Piece → Bytes → Type 0
IsAtEnd finish s = s ≡ []
IsAtEnd _ s = Unit

abbrev pub Matches : List Piece → List Bytes → Bytes → Type 0
Matches [] [] r = Unit
Matches [] (_ ∷ _) r = ⊥
Matches (_ ∷ _) [] r = ⊥
Matches (p ∷ ps) (m ∷ ms) r = PieceMatches p m × IsAtEnd p (flatten ms ++ r) × Matches ps ms r
