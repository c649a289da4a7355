-- ===== src/Challenge/RoundTrip.antt =====
-- The nonce in a bot comment is found again, and only a nonce is found.
use developer_certificates.Common.{
  ◌≡◌, refl, ap, true, Option, some, List, [], ◌∷◌, ◌++◌, Bytes, All, length, arith, Option-cases,
  inl, inr, codes, subst,
}
use developer_certificates.Regex.{Piece, Match, take_lit, run, find, Matches}
use developer_certificates.Regex.Sound.{find_sound}
use developer_certificates.Regex.Exact.{greedy_exact}
use developer_certificates.Effects.{ok, context, pure}
use developer_certificates.Effects.Keep.{>>=-eq-ok, context-eq-ok, ok_inj}
use developer_certificates.Text.{hex_encode}
use developer_certificates.Text.Hex.{is_hex, hex_encode_lem}
use developer_certificates.Challenge.{
  Reader, IsFull, or_system, generate, marker_prefix, marker_suffix, marker_re, nonce_of,
  comment_body, parse_nonce,
}

-- 64 lowercase hexadecimal digits.
pub record IsNonce (n : Bytes) : Type 0 where
  pub digits : All (λ c. is_hex c ≡ true) n
  pub size : length n ≡ 64

run-marker_re :
    (n rest : Bytes)
    → IsNonce n
    → run marker_re (marker_prefix ++ (n ++ (marker_suffix ++ rest)))
      ≡ some (marker_prefix ∷ n ∷ marker_suffix ∷ [], rest)
unfolding run marker_re
run-marker_re n rest h =
    let after : Bytes → Option Match = take_lit (λ r. some ([], r)) marker_suffix in
    rw (rw h.size at (greedy_exact is_hex after n (marker_suffix ++ rest) [] h.digits)) refl

find_of_run : (ps : List Piece) (s : Bytes) {m : Match} → run ps s ≡ some m → find ps s ≡ some m
unfolding find
find_of_run ps [] e = e
find_of_run ps (x ∷ s) e = rw e refl

-- The nonce that a bot comment was rendered with is read back from it.
pub parse_nonce-comment_body : (n : Bytes) → IsNonce n → parse_nonce (comment_body n) ≡ some n
unfolding parse_nonce comment_body
parse_nonce-comment_body n h =
    ap nonce_of (find_of_run marker_re (comment_body n) (run-marker_re n _ h))

submatch-IsNonce :
    (ms : List Bytes) (r : Bytes) {n : Bytes}
    → Matches marker_re ms r
    → nonce_of (some (ms, r)) ≡ some n
    → IsNonce n
unfolding marker_re
submatch-IsNonce [] r h e = absurd h
submatch-IsNonce (m ∷ []) r (_, _, h) e = absurd h
submatch-IsNonce (m ∷ d ∷ ms) r {n} (_, _, ((good, low, high), _, _)) e =
    let same : d ≡ n = ground arith in
    record { digits = rw (← same) good; size = rw (← same) (omega arith) }

-- Whatever a comment holds, what is read from it as the nonce is 64 lowercase hexadecimal digits.
pub parse_nonce-IsNonce : (body n : Bytes) → parse_nonce body ≡ some n → IsNonce n
unfolding parse_nonce
parse_nonce-IsNonce body n e = elim (Option-cases (find marker_re body)) [
  | inl nothing ↦ cc (ap nonce_of nothing)
  | inr ((ms, r), found) ↦
      let (before, spells, fits) = find_sound marker_re body ms r found in
      submatch-IsNonce ms r fits (ground arith)
]

-- What is generated from full reads is a nonce, whichever reader serves.
pub generate-IsNonce :
    {W : Type 0} (system : Reader W) (r : Option (Reader W)) (w : W) (n : Bytes)
    → IsFull (or_system system r)
    → (generate system r w).0 ≡ ok n
    → IsNonce n
unfolding generate
generate-IsNonce system r w n full_r h =
    let read = or_system system r 32 in
    let (b, got, _, e) =
      >>=-eq-ok (context (codes "challenge: read random") read) (λ b. pure (hex_encode b)) w n h in
    let (size, small) = full_r 32 w b (context-eq-ok (codes "challenge: read random") read w got) in
    let (len, digits) = hex_encode_lem b small in
    let same : hex_encode b ≡ n = ok_inj e in
    subst IsNonce same record { digits = digits; size = omega (arith, len, size) }
