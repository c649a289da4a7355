-- ===== src/Regex/Exact.antt =====
-- A class repeated an exact number of times leaves the search no choice.
use developer_certificates.Common.{
  ℕ, ◌≡◌, refl, Bool, true, Option, none, some, [], ◌∷◌, ◌++◌, Bytes, All, length, append-nil,
  append_assoc, arith,
}
use developer_certificates.Regex.{Match, capture, or_else, greedy_from}

or_else-none {ℓ} : {A : Type ℓ} (o : Option A) → or_else o none ≡ o
or_else-none none = refl
or_else-none (some a) = refl

pub greedy_exact :
    (c : ℕ → Bool) (k : Bytes → Option Match) (t s m : Bytes)
    → All (λ x. c x ≡ true) t
    → greedy_from c k (length t) (some (length t)) m (t ++ s) ≡ capture (m ++ t) (k s)
unfolding greedy_from
greedy_exact c k [] [] m good = rw append-nil
greedy_exact c k [] (x ∷ s) m good = rw append-nil
greedy_exact c k (x ∷ t) s m (here, rest) = ground (
  arith,
  greedy_exact c k t s (m ++ x ∷ []) rest,
  or_else-none (greedy_from c k (length t) (some (length t)) (m ++ x ∷ []) (t ++ s)),
  append_assoc m (x ∷ []) t,
)
