-- ===== src/CertTemplate/Bounds.antt =====
-- The template of a leaf: its names, its serial, its validity and its uses.
use developer_certificates.Common.{
  ℕ, zero, suc, sym, ◌↔◌, ◌+◌, ◌*◌, ◌^◌, ◌≤◌, ◌<◌, ◌≡◌, ◌≢◌, ◌⊎◌, inl, inr, refl, ap, false, some,
  [], ◌∷◌, Bytes, All, length, arith, ltb, ltb→lt, Bool-cases, Option-cases, if◌then◌else◌, subst,
  ◌∙◌,
}
use developer_certificates.Clock.{Time}
use developer_certificates.AppId.{validate_strict}
use developer_certificates.AppId.Grammar.{IsAppId, validate_strict_iff}
use developer_certificates.Challenge.{Reader, IsFull}
use developer_certificates.Effects.{ok, Result-cases, context, pure, lift, ◌>>=◌}
use developer_certificates.Effects.Keep.{>>=-eq-ok, context-eq-ok, context-step, >>=-step, ok_inj}
use developer_certificates.X509.{Certificate, PublicKey, Template, KeyUsage, ExtKeyUsage}
use developer_certificates.CertTemplate.{
  crl_distribution_point, leaf_validity, Inputs, big_endian, rand_int, random_serial, is_nil,
  capped, template, check_inputs, leaf,
}

-- The largest number that n more bytes can make of this one.
ceiling : ℕ → ℕ → ℕ
ceiling acc zero = acc
ceiling acc (suc n) = ceiling (acc * 256 + 255) n

ceiling_mono : (a b n : ℕ) → a ≤ b → ceiling a n ≤ ceiling b n
unfolding ceiling
ceiling_mono a b zero h = h
ceiling_mono a b (suc n) h = ceiling_mono (a * 256 + 255) (b * 256 + 255) n (omega arith)

big_endian-ceiling :
    (acc : ℕ) (s : Bytes) → All (λ b. b < 256) s → big_endian acc s ≤ ceiling acc (length s)
unfolding big_endian ceiling
big_endian-ceiling acc [] h = omega arith
big_endian-ceiling acc (b ∷ s) (here, rest) = omega (
  arith,
  big_endian-ceiling (acc * 256 + b) s rest,
  ceiling_mono (acc * 256 + b) (acc * 256 + 255) (length s) (omega arith),
)

ceiling_128 : ceiling 0 16 < 2 ^ 128
unfolding ceiling
ceiling_128 = omega arith

rand_int-eq-ok :
    {W : Type 0} (read : Reader W) (w : W) (n : ℕ)
    → IsFull read
    → (rand_int read w).0 ≡ ok n
    → n < 2 ^ 128
unfolding rand_int
rand_int-eq-ok read w n full h =
    let (s, got, _, e) = >>=-eq-ok (read 16) (λ s. pure (big_endian 0 s)) w n h in
    let (size, small) = full 16 w s got in
    let value : big_endian 0 s ≡ n = ground arith in
    let bound : big_endian 0 s ≤ ceiling 0 16 = rw size at (big_endian-ceiling 0 s small) in
    omega (arith, bound, ceiling_128, value)

-- A serial that is drawn is a positive number of at most 128 bits.
pub random_serial-bounds :
    {W : Type 0} (read : Reader W) (rounds : ℕ) (w : W) (n : ℕ)
    → IsFull read
    → (random_serial read rounds w).0 ≡ ok n
    → (0 < n) × (n < 2 ^ 128)
unfolding random_serial
random_serial-bounds read zero w n full h = ground arith
random_serial-bounds read (suc rounds) w n full h =
    let again = random_serial read rounds in
    let (drawn, got, _, e) =
      >>=-eq-ok (context _ (rand_int read)) (λ x. if ltb 0 x then pure x else again) w n h in
    let bound = rand_int-eq-ok read w drawn full (context-eq-ok _ (rand_int read) w got) in
    elim (Bool-cases (ltb 0 drawn)) [
      | inl positive ↦
          let same : drawn ≡ n = ground arith in
          (omega (arith, same, ltb→lt 0 drawn positive), omega (arith, same, bound))
      | inr zero_drawn ↦ random_serial-bounds read rounds _ n full (rw zero_drawn at e)
    ]

-- So many draws of sixteen bytes are 0, one after another, and the next is the number `n`, which is not.
pub data Draws {W : Type 0} (read : Reader W) (n : ℕ) (left : W) : ℕ → W → Type 0 where
  last :
      {w : W} {s : Bytes}
      → read 16 w ≡ (ok s, left)
      → big_endian 0 s ≡ n
      → 0 < n
      → Draws read n left 0 w
  redrawn :
      {w w' : W} {s : Bytes} {k : ℕ}
      → read 16 w ≡ (ok s, w')
      → big_endian 0 s ≡ 0
      → Draws read n left k w'
      → Draws read n left (suc k) w

not_positive_lem : (n : ℕ) → ltb 0 n ≡ false → n ≡ 0
not_positive_lem n h = ground arith

module _ {W : Type 0} (read : Reader W) where
  -- A round of the loop that has read its bytes.
  random_serial-round :
      (rounds : ℕ) (w w' : W) (s : Bytes)
      → read 16 w ≡ (ok s, w')
      → random_serial read (suc rounds) w
        ≡ (if ltb 0 (big_endian 0 s) then pure (big_endian 0 s) else random_serial read rounds) w'
  unfolding random_serial rand_int
  random_serial-round rounds w w' s got = >>=-step _ _ w w' (
      context-step _ (rand_int read) w w'
        (>>=-step (read 16) (λ s. pure (big_endian 0 s)) w w' got))

  random_serial-of_Draws :
      (rounds k n : ℕ) (w left : W)
      → k < rounds
      → Draws read n left k w
      → random_serial read rounds w ≡ (ok n, left)
  random_serial-of_Draws zero k n w left enough d = absurd (omega (arith, enough))
  random_serial-of_Draws (suc rounds) _ n w left enough (last {s = s} got value positive) =
      random_serial-round rounds w left s got ∙ rw value ground arith
  random_serial-of_Draws (suc rounds) _ n w left enough
        (redrawn {w' = w'} {s = s} {k = k} got nothing d) =
      random_serial-round rounds w w' s got
      ∙ rw nothing (random_serial-of_Draws rounds k n w' left (omega (arith, enough)) d)

  Draws-of_random_serial :
      (rounds n : ℕ) (w left : W)
      → random_serial read rounds w ≡ (ok n, left)
      → (k : ℕ) × (k < rounds) × Draws read n left k w
  unfolding random_serial rand_int ◌>>=◌ context
  Draws-of_random_serial zero n w left h = cc (ap (λ r. r.0) h)
  Draws-of_random_serial (suc rounds) n w left h = elim (Result-cases (read 16 w).0) [
    | inr (e, bad) ↦ cc (ap (λ r. r.0) (rw (bad, random_serial, ◌>>=◌, context, rand_int) at h))
    | inl (s, good) ↦
        let w' = (read 16 w).1 in
        let got : read 16 w ≡ (ok s, w') = λ i. (good i, w') in
        let rest = sym (random_serial-round rounds w w' s got) ∙ h in
        elim (Bool-cases (ltb 0 (big_endian 0 s))) [
          | inl positive ↦
              let same = rw positive at rest in
              let value : big_endian 0 s ≡ n = ok_inj (ap (λ r. r.0) same) in
              let ends : w' ≡ left = ap (λ r. r.1) same in
              (
                0,
                omega arith,
                last (got ∙ ap (λ v. (ok s, v)) ends) value
                    (omega (arith, sym value, ltb→lt 0 (big_endian 0 s) positive)),
              )
          | inr not_positive ↦
              let (k, below, d) =
                Draws-of_random_serial rounds n w' left (rw not_positive at rest) in
              (suc k, omega (arith, below), redrawn got (not_positive_lem _ not_positive) d)
        ]
  ]

  -- The loop returns a number within so many rounds exactly when fewer draws than that come out as 0,
  -- one after another, and the next is that number, which is not 0; it leaves the world after that
  -- draw.
  pub random_serial_iff :
      (rounds n : ℕ) (w left : W)
      → (random_serial read rounds w ≡ (ok n, left))
        ↔ ((k : ℕ) × (k < rounds) × Draws read n left k w)
  random_serial_iff rounds n w left = (
    Draws-of_random_serial rounds n w left,
    λ (k, below, d). random_serial-of_Draws rounds k n w left below d,
  )

-- A legal appId's leaf for the owner and origin.
pub record IsLeaf (inputs : Inputs) (t : Template) : Type 0 where
  pub issuer : Certificate
  pub issued_by : inputs.issuer ≡ some issuer
  pub key : inputs.public_key ≢ PublicKey.nil
  pub named : IsAppId inputs.app_id
  pub common_name : t.common_name ≡ inputs.app_id
  pub organization : t.organization ≡ inputs.owner ∷ []
  pub organizational_unit : t.organizational_unit ≡ inputs.origin ∷ []
  pub serial : (0 < t.serial_number) × (t.serial_number < 2 ^ 128)
  pub starts : t.not_before ≡ inputs.not_before
  pub two_years : t.not_after ≤ inputs.not_before + leaf_validity
  pub nested : t.not_after ≤ issuer.not_after
  pub longest : (t.not_after ≡ inputs.not_before + leaf_validity) ⊎ (t.not_after ≡ issuer.not_after)
  pub uses :
      (t.key_usage ≡ KeyUsage.digital_signature ∷ [])
      × (t.ext_key_usage ≡ ExtKeyUsage.code_signing ∷ [])
  pub no_ca : t.is_ca ≡ false
  pub revocable : t.crl_distribution_points ≡ crl_distribution_point ∷ []

capped-bounds :
    (not_before limit : Time)
    → (capped not_before limit ≤ not_before + leaf_validity)
      × (capped not_before limit ≤ limit)
      × ((capped not_before limit ≡ not_before + leaf_validity) ⊎ (capped not_before limit ≡ limit))
unfolding capped
capped-bounds not_before limit = ground arith

is_nil-eq-false : (key : PublicKey) → is_nil key ≡ false → key ≢ PublicKey.nil
unfolding is_nil
is_nil-eq-false key h e = cc (h, ap is_nil e)

check_inputs-eq-ok :
    (quote : Bytes → Bytes) (inputs : Inputs) (issuer : Certificate)
    → check_inputs quote inputs ≡ ok issuer
    → (inputs.issuer ≡ some issuer) × (inputs.public_key ≢ PublicKey.nil) × IsAppId inputs.app_id
unfolding check_inputs
check_inputs-eq-ok quote inputs issuer h = elim (Result-cases (validate_strict inputs.app_id)) [
  | inl (a, e) ↦ elim (Option-cases inputs.issuer) [
    | inl absent ↦ ground arith
    | inr (i, found) ↦ elim (Bool-cases (is_nil inputs.public_key)) [
      | inl nil_key ↦ ground arith
      | inr key ↦
          let same : i ≡ issuer = ground arith in
          (
            found ∙ ap some same,
            is_nil-eq-false _ key,
            ((validate_strict_iff inputs.app_id a).0 e).1,
          )
    ]
  ]
  | inr (bad, e) ↦ ground arith
]

-- Every template that is built is a legal appId's leaf for the owner and origin, with a positive
-- serial of at most 128 bits, valid from the given time for at most two years and no longer than its
-- issuer, as long as these two allow, for signing code and for nothing else; the issuer is given, and
-- the key is not nil. The reader is one that returns full reads.
pub leaf-IsLeaf :
    {W : Type 0} (quote : Bytes → Bytes) (read : Reader W) (rounds : ℕ) (inputs : Inputs) (w : W)
    (t : Template)
    → IsFull read
    → (leaf quote read rounds inputs w).0 ≡ ok t
    → IsLeaf inputs t
unfolding leaf template
leaf-IsLeaf quote read rounds inputs w t full h =
    let (issuer, checked, _, e) = >>=-eq-ok (lift (check_inputs quote inputs)) _ w t h in
    let (serial, drawn, _, built) = >>=-eq-ok (random_serial read rounds) _ w t e in
    let same : template inputs issuer serial ≡ t = ok_inj built in
    let (by, key, named) = check_inputs-eq-ok quote inputs issuer checked in
    let (upper, nested, longest) = capped-bounds inputs.not_before issuer.not_after in
    subst (λ z. IsLeaf inputs z) same
      record {
        issuer = issuer;
        issued_by = by;
        key = key;
        named = named;
        common_name = refl;
        organization = refl;
        organizational_unit = refl;
        serial = random_serial-bounds read rounds w serial full drawn;
        starts = refl;
        two_years = upper;
        nested = nested;
        longest = longest;
        uses = (refl, refl);
        no_ca = refl;
        revocable = refl;
      }
