-- ===== src/Csr/Allowlist.antt =====
-- Which keys and which requests are accepted.
use developer_certificates.Common.{
  ℕ, zero, suc, ◌/◌, ◌^◌, ◌≤◌, ◌<◌, ◌≡◌, ◌↔◌, inl, inr, refl, ap, ◌∙◌, false, none, some, Bytes,
  arith, bytes_eq, bytes_eq_iff, Option-cases, Bool-cases, ltb, subst,
}
use developer_certificates.Effects.{ok, Result-cases}
use developer_certificates.Runtime.{Runtime}
use developer_certificates.X509.{Block, CertificateRequest, Curve, PublicKey}
use developer_certificates.Csr.{
  min_rsa_bits, pem_type, bits_from, bit_len, check_key, check_request, parse_block, parse,
}
use native.Mathlib.Omega.{pow_step}

two_pow_pos : (k : ℕ) → 1 ≤ 2 ^ k
two_pow_pos zero = omega arith
two_pow_pos (suc k) = omega (arith, pow_step 2 k, two_pow_pos k)

-- A number has more than k bits when it is at least 2 ^ k.
bits_from_lem : (rounds n k : ℕ) → n ≤ rounds → (k < bits_from rounds n) ↔ (2 ^ k ≤ n)
unfolding bits_from
bits_from_lem zero n k h = (λ e. absurd (omega arith), λ e. absurd (omega (arith, two_pow_pos k)))
bits_from_lem (suc rounds) n zero h = ground arith
bits_from_lem (suc rounds) n (suc k) h =
    let half = bits_from_lem rounds (n / 2) k (omega arith) in
    ground (arith, half, pow_step 2 k, two_pow_pos k)

-- An ECDSA key on P-384, or an RSA key whose modulus has at least 3072 bits.
abbrev pub IsAllowed : PublicKey → Type 0
IsAllowed (PublicKey.ecdsa Curve.p384 _) = Unit
IsAllowed (PublicKey.ecdsa _ _) = ⊥
IsAllowed (PublicKey.rsa n) = 2 ^ 3071 ≤ n
IsAllowed PublicKey.nil = ⊥
IsAllowed (PublicKey.other _) = ⊥

ltb-bit_len : (n k : ℕ) → (ltb (bit_len n) (suc k) ≡ false) ↔ (2 ^ k ≤ n)
unfolding bit_len
ltb-bit_len n k = ground (arith, bits_from_lem n n k (omega arith))

rsa-bits : (n : ℕ) → (ltb (bit_len n) min_rsa_bits ≡ false) ↔ (2 ^ 3071 ≤ n)
rsa-bits n = ltb-bit_len n 3071

-- The keys that are accepted are P-384 and RSA of at least 3072 bits.
pub check_key_iff : (key : PublicKey) → (check_key key ≡ none) ↔ IsAllowed key
unfolding check_key
check_key_iff (PublicKey.ecdsa Curve.p384 _) = (λ _. tt, λ _. refl)
check_key_iff (PublicKey.ecdsa Curve.unknown _) = ground arith
check_key_iff (PublicKey.ecdsa (Curve.other _) _) = ground arith
check_key_iff (PublicKey.rsa n) = ground (arith, rsa-bits n)
check_key_iff PublicKey.nil = ground arith
check_key_iff (PublicKey.other _) = ground arith

module _ (rt : Runtime) where
  -- A PEM block of the right type, that decodes to the request, whose key is allowed and whose
  -- signature verifies.
  pub record IsAccepted (text : Bytes) (req : CertificateRequest) : Type 0 where
    pub block : Block
    pub rest : Bytes
    pub framed : rt.pem_decode text ≡ some (block, rest)
    pub typed : block.kind ≡ pem_type
    pub decoded : rt.parse_certificate_request block.bytes ≡ ok req
    pub key : IsAllowed req.public_key
    pub signed : rt.check_signature req ≡ none

  check_request_iff :
      (req out : CertificateRequest)
      → (check_request rt req ≡ ok out)
        ↔ ((req ≡ out) × IsAllowed req.public_key × (rt.check_signature req ≡ none))
  unfolding check_request
  check_request_iff req out = ground (arith, check_key_iff req.public_key)

  parse-IsAccepted :
      (text : Bytes) (req : CertificateRequest) → parse rt text ≡ ok req → IsAccepted text req
  unfolding parse parse_block
  parse-IsAccepted text req h = elim (Option-cases (rt.pem_decode text)) [
    | inl absent ↦ ground arith
    | inr ((block, rest), framed) ↦ elim (Bool-cases (bytes_eq block.kind pem_type)) [
      | inr other ↦ ground arith
      | inl typed ↦ elim (Result-cases (rt.parse_certificate_request block.bytes)) [
        | inr (e, bad) ↦ ground arith
        | inl (r, decoded) ↦
            let (same, key, signed) = (check_request_iff r req).0 (ground arith) in
            record {
              block = block;
              rest = rest;
              framed = framed;
              typed = (bytes_eq_iff block.kind pem_type).0 typed;
              decoded = decoded ∙ ap ok same;
              key = subst (λ x. IsAllowed x.public_key) same key;
              signed = subst (λ x. rt.check_signature x ≡ none) same signed;
            }
      ]
    ]
  ]

  -- A request is accepted exactly when it is a PEM request with an allowed key and a signature that
  -- verifies.
  pub parse_iff :
      (text : Bytes) (req : CertificateRequest) → (parse rt text ≡ ok req) ↔ IsAccepted text req
  unfolding parse parse_block
  parse_iff text req = (
    parse-IsAccepted text req,
    λ a.
        let same = (bytes_eq_iff a.block.kind pem_type).1 a.typed in
        rw (a.framed, parse, same, parse_block, a.decoded)
          ((check_request_iff req req).1 (refl, a.key, a.signed)),
  )
