-- ===== src/Regex/Complete.antt =====
-- Where the pieces can match at the start of a text, the search finds a match.
use developer_certificates.Common.{
  ℕ, zero, suc, ◌-◌, ◌≤◌, ◌≡◌, ◌≢◌, refl, Bool, true, ◌&&◌, Option, none, some, List, [], ◌∷◌, ◌++◌,
  All, length, append_assoc, arith, Bytes, strip_prefix-append, Bool-cases, Option-cases, inl, inr,
}
use developer_certificates.Regex.{
  Piece, lit, one_of, greedy, lazy, finish, Match, capture, or_else, has_room, shrink, greedy_from,
  lazy_from, choose, take_lit, run, find, matches_start, flatten, IsWithin, IsOneOf, Matches,
}

or_else-ne-none {ℓ} : {A : Type ℓ} (o p : Option A) → p ≢ none → or_else o p ≢ none
or_else-ne-none none p h = h
or_else-ne-none (some a) p h = ground arith

or_else-ne-none_left {ℓ} : {A : Type ℓ} (o p : Option A) → o ≢ none → or_else o p ≢ none
or_else-ne-none_left none p h = absurd (h refl)
or_else-ne-none_left (some a) p h = ground arith

capture-ne-none : (m : Bytes) (o : Option Match) → o ≢ none → capture m o ≢ none
capture-ne-none m none h = absurd (h refl)
capture-ne-none m (some (ns, r)) h = ground arith

has_room_of_within : (n : ℕ) (hi : Option ℕ) → IsWithin (suc n) hi → has_room hi ≡ true
has_room_of_within n none h = refl
has_room_of_within n (some k) h = ground arith

IsWithin-shrink : (n : ℕ) (hi : Option ℕ) → IsWithin (suc n) hi → IsWithin n (shrink hi)
IsWithin-shrink n none h = tt
IsWithin-shrink n (some k) h = omega arith

module _ (c : ℕ → Bool) (k : Bytes → Option Match) (t : Bytes) (matched : k t ≢ none) where
  -- Stopping at once is among the ways that are tried.
  greedy_stop : (hi : Option ℕ) (m s : Bytes) → k s ≢ none → greedy_from c k 0 hi m s ≢ none
  unfolding greedy_from
  greedy_stop hi m [] h = capture-ne-none m (k []) h
  greedy_stop hi m (x ∷ s) h = elim (Bool-cases (has_room hi && c x)) [
    | inl go ↦ rw go (or_else-ne-none _ _ (capture-ne-none m (k (x ∷ s)) h))
    | inr stop ↦ rw stop (capture-ne-none m (k (x ∷ s)) h)
  ]

  greedy_complete :
      (n : Bytes) (lo : ℕ) (hi : Option ℕ) (m : Bytes)
      → All (λ x. c x ≡ true) n
      → lo ≤ length n
      → IsWithin (length n) hi
      → greedy_from c k lo hi m (n ++ t) ≢ none
  unfolding greedy_from
  greedy_complete [] zero hi m good enough within = greedy_stop hi m t matched
  greedy_complete [] (suc lo) hi m good enough within = absurd (omega arith)
  greedy_complete (x ∷ n) lo hi m (good, rest) enough within =
      rw (has_room_of_within (length n) hi within, good)
        (or_else-ne-none_left _ _ (
          greedy_complete n (lo - 1) (shrink hi) (m ++ x ∷ []) rest (omega arith)
            (IsWithin-shrink (length n) hi within)))

  lazy_stop : (m s : Bytes) → k s ≢ none → lazy_from c k m s ≢ none
  unfolding lazy_from
  lazy_stop m [] h = capture-ne-none m (k []) h
  lazy_stop m (x ∷ s) h = or_else-ne-none_left _ _ (capture-ne-none m (k (x ∷ s)) h)

  lazy_complete : (n m : Bytes) → All (λ x. c x ≡ true) n → lazy_from c k m (n ++ t) ≢ none
  unfolding lazy_from
  lazy_complete [] m good = lazy_stop m t matched
  lazy_complete (x ∷ n) m (good, rest) =
      rw good (or_else-ne-none _ _ (lazy_complete n (m ++ x ∷ []) rest))

module _ (k : Bytes → Option Match) (t : Bytes) (matched : k t ≢ none) where
  lit_complete : (w : Bytes) → take_lit k w (w ++ t) ≢ none
  unfolding take_lit
  lit_complete w = rw (strip_prefix-append w t, take_lit) (capture-ne-none w (k t) matched)

  choose_complete : (w : Bytes) (ws : List Bytes) → IsOneOf w ws → choose k ws (w ++ t) ≢ none
  unfolding choose
  choose_complete w [] h = absurd h
  choose_complete w (v ∷ ws) (inl same) =
      or_else-ne-none_left (take_lit k v (w ++ t)) _ (rw (← same) (lit_complete w))
  choose_complete w (v ∷ ws) (inr there) = or_else-ne-none _ _ (choose_complete w ws there)

-- If the pieces can match at the start of the text, the search succeeds.
pub run_complete :
    (ps : List Piece) (ms : List Bytes) (r : Bytes)
    → Matches ps ms r
    → run ps (flatten ms ++ r) ≢ none
unfolding run flatten
run_complete [] [] r h = ground arith
run_complete [] (m ∷ ms) r h = absurd h
run_complete (p ∷ ps) [] r h = absurd h
run_complete (lit w ∷ ps) (m ∷ ms) r (same, _, h) =
    rw (append_assoc, same) (lit_complete (run ps) (flatten ms ++ r) (run_complete ps ms r h) w)
run_complete (one_of ws ∷ ps) (m ∷ ms) r (listed, _, h) =
    rw append_assoc
      (choose_complete (run ps) (flatten ms ++ r) (run_complete ps ms r h) m ws listed)
run_complete (greedy c lo hi ∷ ps) (m ∷ ms) r ((good, enough, within), _, h) = rw append_assoc (
    greedy_complete c (run ps) (flatten ms ++ r) (run_complete ps ms r h) m lo hi [] good enough
      within)
run_complete (lazy c ∷ ps) (m ∷ ms) r (good, _, h) =
    rw append_assoc (lazy_complete c (run ps) (flatten ms ++ r) (run_complete ps ms r h) m [] good)
run_complete (finish ∷ ps) (m ∷ ms) r (empty, ending, h) =
    rw (empty, ending) (capture-ne-none [] (run ps []) (rw ending at (run_complete ps ms r h)))

find_of_run : (ps : List Piece) (s : Bytes) → run ps s ≢ none → find ps s ≢ none
unfolding find
find_of_run ps [] h = h
find_of_run ps (x ∷ s) h = or_else-ne-none_left _ _ h

-- If the pieces can match anywhere in the text, the search finds a match.
pub find_complete :
    (ps : List Piece) (before : Bytes) (ms : List Bytes) (r : Bytes)
    → Matches ps ms r
    → find ps (before ++ (flatten ms ++ r)) ≢ none
unfolding find
find_complete ps [] ms r h = find_of_run ps (flatten ms ++ r) (run_complete ps ms r h)
find_complete ps (x ∷ before) ms r h = or_else-ne-none _ _ (find_complete ps before ms r h)

pub matches_start_complete :
    (ps : List Piece) (ms : List Bytes) (r : Bytes)
    → Matches ps ms r
    → matches_start ps (flatten ms ++ r) ≡ true
unfolding matches_start
matches_start_complete ps ms r h = elim (Option-cases (run ps (flatten ms ++ r))) [
  | inl nothing ↦ absurd (run_complete ps ms r h nothing)
  | inr (found, e) ↦ rw (e, matches_start)
]
