-- ===== src/Regex/Sound.antt =====
-- A match that the search reports is a match.
use developer_certificates.Common.{
  ℕ, suc, ◌-◌, ◌≤◌, ◌≡◌, refl, sym, ap, ◌∙◌, ◌⊎◌, inl, inr, Bool, true, ◌&&◌, Option, none, some,
  List, [], ◌∷◌, ◌++◌, All, length, append_assoc, append-nil, arith, Bytes, strip_prefix,
  strip_prefix_sound, Option-cases, Bool-cases, ◌==◌, if◌then◌else◌,
}
use developer_certificates.Regex.{
  Piece, lit, one_of, greedy, lazy, finish, Match, capture, or_else, has_room, shrink, greedy_from,
  lazy_from, choose, take_lit, run, find, matches_start, flatten, IsWithin, IsOneOf, Matches,
  PieceMatches, IsAtEnd,
}

or_else-cases {ℓ} :
    {A : Type ℓ} (o p : Option A) {a : A} → or_else o p ≡ some a → (o ≡ some a) ⊎ (p ≡ some a)
or_else-cases none p e = inr e
or_else-cases (some _) p e = inl e

capture-eq-some :
    (m : Bytes) (o : Option Match) {ms : List Bytes} {r : Bytes}
    → capture m o ≡ some (ms, r)
    → (ns : List Bytes) × (o ≡ some (ns, r)) × (ms ≡ m ∷ ns)
capture-eq-some m none e = cc
capture-eq-some m (some (ns, r)) e = (ns, ground arith, ground arith)

-- A run of `c` was taken from `s`, after `m`, and the pieces behind it matched the rest.
record IsRun (c : ℕ → Bool) (k : Bytes → Option Match) (m s : Bytes) (ms : List Bytes) (r : Bytes)
    (lo : ℕ) (hi : Option ℕ) : Type 0 where
  taken : Bytes
  rest : Bytes
  others : List Bytes
  later : k rest ≡ some (others, r)
  whole : ms ≡ (m ++ taken) ∷ others
  spells : s ≡ taken ++ rest
  in_class : All (λ x. c x ≡ true) taken
  enough : lo ≤ length taken
  within : IsWithin (length taken) hi

IsWithin-zero : (hi : Option ℕ) → IsWithin 0 hi
IsWithin-zero none = tt
IsWithin-zero (some h) = omega arith

IsWithin-of_shrink :
    (n : ℕ) (hi : Option ℕ) → has_room hi ≡ true → IsWithin n (shrink hi) → IsWithin (suc n) hi
IsWithin-of_shrink n none _ h = tt
IsWithin-of_shrink n (some k) room h = ground arith

module _ (c : ℕ → Bool) (k : Bytes → Option Match) {ms : List Bytes} {r : Bytes} where
  IsRun-of_none :
      (m s : Bytes) (lo : ℕ) (hi : Option ℕ)
      → (if lo == 0 then capture m (k s) else none) ≡ some (ms, r)
      → IsRun c k m s ms r lo hi
  IsRun-of_none m s lo hi e =
      let (ns, later, whole) = capture-eq-some m (k s) {ms = ms} {r = r} (ground arith) in
      record {
        taken = [];
        rest = s;
        others = ns;
        later = later;
        whole = rw append-nil whole;
        spells = refl;
        in_class = tt;
        enough = ground arith;
        within = IsWithin-zero hi;
      }

  IsRun-cons :
      (m s : Bytes) (x lo : ℕ) (hi : Option ℕ)
      → has_room hi ≡ true
      → c x ≡ true
      → IsRun c k (m ++ x ∷ []) s ms r (lo - 1) (shrink hi)
      → IsRun c k m (x ∷ s) ms r lo hi
  IsRun-cons m s x lo hi room good h = record {
    taken = x ∷ h.taken;
    rest = h.rest;
    others = h.others;
    later = h.later;
    whole = h.whole ∙ ap (λ t. t ∷ h.others) (append_assoc m (x ∷ []) h.taken);
    spells = ap (λ t. x ∷ t) h.spells;
    in_class = (good, h.in_class);
    enough = omega (arith, h.enough);
    within = IsWithin-of_shrink (length h.taken) hi room h.within;
  }

  greedy_from_sound :
      (lo : ℕ) (hi : Option ℕ) (m s : Bytes)
      → greedy_from c k lo hi m s ≡ some (ms, r)
      → IsRun c k m s ms r lo hi
  unfolding greedy_from
  greedy_from_sound lo hi m [] e = IsRun-of_none m [] lo hi e
  greedy_from_sound lo hi m (x ∷ s) e = elim (Bool-cases (has_room hi && c x)) [
    | inl go ↦
        elim (or_else-cases (greedy_from c k (lo - 1) (shrink hi) (m ++ x ∷ []) s)
          (if lo == 0 then capture m (k (x ∷ s)) else none) (rw go at e)) [
            | inl longer ↦
                IsRun-cons m s x lo hi (ground arith) (ground arith)
                  (greedy_from_sound (lo - 1) (shrink hi) (m ++ x ∷ []) s longer)
            | inr here ↦ IsRun-of_none m (x ∷ s) lo hi here
          ]
    | inr stop ↦ IsRun-of_none m (x ∷ s) lo hi (rw stop at e)
  ]

  lazy_from_sound : (m s : Bytes) → lazy_from c k m s ≡ some (ms, r) → IsRun c k m s ms r 0 none
  unfolding lazy_from
  lazy_from_sound m [] e = IsRun-of_none m [] 0 none e
  lazy_from_sound m (x ∷ s) e =
      elim (or_else-cases (capture m (k (x ∷ s)))
        (if c x then lazy_from c k (m ++ x ∷ []) s else none) e) [
          | inl here ↦ IsRun-of_none m (x ∷ s) 0 none here
          | inr longer ↦ elim (Bool-cases (c x)) [
            | inl good ↦
                IsRun-cons m s x 0 none refl good
                  (lazy_from_sound (m ++ x ∷ []) s (rw good at longer))
            | inr bad ↦ cc
          ]
        ]

-- A literal was taken from `s`, and the pieces behind it matched the rest.
record IsTaken (k : Bytes → Option Match) (s : Bytes) (ms : List Bytes) (r w : Bytes) : Type 0 where
  rest : Bytes
  others : List Bytes
  later : k rest ≡ some (others, r)
  whole : ms ≡ w ∷ others
  spells : s ≡ w ++ rest

module _ (k : Bytes → Option Match) (s : Bytes) {ms : List Bytes} {r : Bytes} where
  lit_sound : (w : Bytes) → take_lit k w s ≡ some (ms, r) → IsTaken k s ms r w
  unfolding take_lit
  lit_sound w e = elim (Option-cases (strip_prefix w s)) [
    | inl missing ↦ ground arith
    | inr (t, found) ↦
        let (ns, later, whole) = capture-eq-some w (k t) {ms = ms} {r = r} (ground arith) in
        record {
          rest = t;
          others = ns;
          later = later;
          whole = whole;
          spells = strip_prefix_sound w s t found;
        }
  ]

  choose_sound :
      (ws : List Bytes)
      → choose k ws s ≡ some (ms, r)
      → (w : Bytes) × IsOneOf w ws × IsTaken k s ms r w
  unfolding choose
  choose_sound [] e = cc
  choose_sound (w ∷ ws) e = elim (or_else-cases (take_lit k w s) (choose k ws s) e) [
    | inl here ↦ (w, inl refl, lit_sound w here)
    | inr there ↦ let (v, listed, h) = choose_sound ws there in (v, inr listed, h)
  ]

-- A piece that matched `w`, in front of pieces that matched `ns`.
run_join :
    (p : Piece) (ps : List Piece) (s w t : Bytes) (ms ns : List Bytes) (r : Bytes)
    → s ≡ w ++ t
    → ms ≡ w ∷ ns
    → PieceMatches p w
    → IsAtEnd p (flatten ns ++ r)
    → (t ≡ flatten ns ++ r) × Matches ps ns r
    → (s ≡ flatten ms ++ r) × Matches (p ∷ ps) ms r
unfolding flatten
run_join p ps s w t ms ns r spells whole fits ending (split, later) =
    rw whole
      (spells ∙ ap (λ u. w ++ u) split ∙ sym (append_assoc w (flatten ns) r), (fits, ending, later))

-- What the search reports spells the text, and each piece matched its part.
pub run_sound :
    (ps : List Piece) (s : Bytes) (ms : List Bytes) (r : Bytes)
    → run ps s ≡ some (ms, r)
    → (s ≡ flatten ms ++ r) × Matches ps ms r
unfolding run flatten
run_sound [] s [] r e = (ground arith, tt)
run_sound [] s (m ∷ ms) r e = cc
run_sound (lit w ∷ ps) s ms r e =
    let h = lit_sound (run ps) s {ms = ms} {r = r} w e in
    run_join (lit w) ps s w h.rest ms h.others r h.spells h.whole refl tt
      (run_sound ps h.rest h.others r h.later)
run_sound (one_of ws ∷ ps) s ms r e =
    let (w, listed, h) = choose_sound (run ps) s {ms = ms} {r = r} ws e in
    run_join (one_of ws) ps s w h.rest ms h.others r h.spells h.whole listed tt
      (run_sound ps h.rest h.others r h.later)
run_sound (greedy c lo hi ∷ ps) s ms r e =
    let h = greedy_from_sound c (run ps) {ms = ms} {r = r} lo hi [] s e in
    run_join (greedy c lo hi) ps s h.taken h.rest ms h.others r h.spells h.whole
      (h.in_class, h.enough, h.within) tt (run_sound ps h.rest h.others r h.later)
run_sound (lazy c ∷ ps) s ms r e =
    let h = lazy_from_sound c (run ps) {ms = ms} {r = r} [] s e in
    run_join (lazy c) ps s h.taken h.rest ms h.others r h.spells h.whole h.in_class tt
      (run_sound ps h.rest h.others r h.later)
run_sound (finish ∷ ps) [] ms r e =
    let (ns, later, whole) = capture-eq-some [] (run ps []) {ms = ms} {r = r} e in
    let ih = run_sound ps [] ns r later in
    run_join finish ps [] [] [] ms ns r refl whole refl (sym ih.0) ih
run_sound (finish ∷ ps) (x ∷ s) ms r e = cc

-- The leftmost match stands somewhere in the text.
pub find_sound :
    (ps : List Piece) (s : Bytes) (ms : List Bytes) (r : Bytes)
    → find ps s ≡ some (ms, r)
    → (before : Bytes) × (s ≡ before ++ (flatten ms ++ r)) × Matches ps ms r
unfolding find
find_sound ps [] ms r e = let (spells, fits) = run_sound ps [] ms r e in ([], spells, fits)
find_sound ps (x ∷ s) ms r e = elim (or_else-cases (run ps (x ∷ s)) (find ps s) e) [
  | inl here ↦ let (spells, fits) = run_sound ps (x ∷ s) ms r here in ([], spells, fits)
  | inr later ↦
      let (before, spells, fits) = find_sound ps s ms r later in
      (x ∷ before, ap (λ t. x ∷ t) spells, fits)
]

pub matches_start_sound :
    (ps : List Piece) (s : Bytes)
    → matches_start ps s ≡ true
    → (ms : List Bytes) × (r : Bytes) × (s ≡ flatten ms ++ r) × Matches ps ms r
unfolding matches_start
matches_start_sound ps s h = elim (Option-cases (run ps s)) [
  | inl nothing ↦ cc
  | inr ((ms, r), e) ↦ let (spells, fits) = run_sound ps s ms r e in (ms, r, spells, fits)
]
