-- ===== src/Cms/Openssl/Signers.antt =====
-- How many certificates the output of openssl may hold.
use developer_certificates.Common.{
  ℕ, zero, suc, ◌≡◌, ◌↔◌, ◌<◌, refl, inl, inr, true, false, Bool-cases, none, some, List, [], ◌∷◌,
  Bytes, codes, bytes_eq, length, arith, Option-cases, subst,
}
use developer_certificates.Effects.{ok, Result-cases}
use developer_certificates.Effects.Keep.{ok_inj}
use developer_certificates.Runtime.{Runtime}
use developer_certificates.X509.{Block, Certificate}
use developer_certificates.Cms.Openssl.{certificates, exactly_one, only_certificate}

module _ (rt : Runtime) where
  -- pem.Decode returns a rest that is shorter than the text.
  abbrev pub Shrinks : Type 0
  Shrinks =
      (s : Bytes) (b : Block) (rest : Bytes)
      → rt.pem_decode s ≡ some (b, rest)
      → length rest < length s

  -- The certificates of the CERTIFICATE blocks of a text, in their order.
  pub data Certs : Bytes → List Certificate → Type 0 where
    nothing : {s : Bytes} → rt.pem_decode s ≡ none → Certs s []
    skip :
        {s rest : Bytes} {b : Block} {certs : List Certificate}
        → rt.pem_decode s ≡ some (b, rest)
        → bytes_eq b.kind (codes "CERTIFICATE") ≡ false
        → Certs rest certs
        → Certs s certs
    take :
        {s rest : Bytes} {b : Block} {cert : Certificate} {certs : List Certificate}
        → rt.pem_decode s ≡ some (b, rest)
        → bytes_eq b.kind (codes "CERTIFICATE") ≡ true
        → rt.parse_certificate b.bytes ≡ ok cert
        → Certs rest certs
        → Certs s (cert ∷ certs)

  certificates-eq-ok :
      (rounds : ℕ) (s : Bytes) (certs : List Certificate)
      → certificates rt rounds s ≡ ok certs
      → Certs s certs
  unfolding certificates
  certificates-eq-ok zero s certs h = cc h
  certificates-eq-ok (suc rounds) s certs h = elim (Option-cases (rt.pem_decode s)) [
    | inl bare ↦ subst (Certs s) (ok_inj (rw (bare, certificates) at h)) (nothing bare)
    | inr (p, got) ↦ elim (Bool-cases (bytes_eq p.0.kind (codes "CERTIFICATE"))) [
      | inr other ↦
          skip got other (certificates-eq-ok rounds p.1 certs (rw (got, certificates, other) at h))
      | inl kind ↦ elim (Result-cases (rt.parse_certificate p.0.bytes)) [
        | inr (e, bad) ↦ cc (rw (got, certificates, kind, bad) at h)
        | inl (cert, parsed) ↦ elim (Result-cases (certificates rt rounds p.1)) [
          | inr (e, bad) ↦ cc (rw (got, certificates, kind, parsed, bad) at h)
          | inl (rest, more) ↦
              subst (Certs s) (ok_inj (rw (got, certificates, kind, parsed, more) at h))
                (take got kind parsed (certificates-eq-ok rounds p.1 rest more))
        ]
      ]
    ]
  ]

  Certs-certificates :
      (rounds : ℕ) (s : Bytes) (certs : List Certificate)
      → Shrinks
      → length s < rounds
      → Certs s certs
      → certificates rt rounds s ≡ ok certs
  unfolding certificates
  Certs-certificates zero s certs shrinks enough c = absurd (omega (arith, enough))
  Certs-certificates (suc rounds) s _ shrinks enough (nothing bare) = rw (bare, certificates) refl
  Certs-certificates (suc rounds) s certs shrinks enough (skip {rest = rest} {b = b} got other c) =
      rw (got, certificates, other)
        (Certs-certificates rounds rest certs shrinks (omega (arith, enough, shrinks s b rest got))
          c)
  Certs-certificates (suc rounds) s _ shrinks enough
        (take {rest = rest} {b = b} {certs = certs} got kind parsed c) =
      rw
        (
          got,
          certificates,
          kind,
          parsed,
          Certs-certificates rounds rest certs shrinks (omega (arith, enough, shrinks s b rest got))
              c,
        )
        refl

  exactly_one_iff :
      (certs : List Certificate) (cert : Certificate)
      → (exactly_one certs ≡ ok cert) ↔ (certs ≡ cert ∷ [])
  unfolding exactly_one
  exactly_one_iff [] cert = ground arith
  exactly_one_iff (a ∷ []) cert = ground arith
  exactly_one_iff (a ∷ b ∷ certs) cert = ground arith

  -- The signer is found exactly when the output of openssl holds one certificate and no more, in
  -- whatever blocks of other kinds it stands among: a request with no signer, or with several, is
  -- refused. The PEM decoder returns a rest that is shorter than the text.
  pub only_certificate_iff :
      (s : Bytes) (cert : Certificate)
      → Shrinks
      → (only_certificate rt s ≡ ok cert) ↔ Certs s (cert ∷ [])
  unfolding only_certificate
  only_certificate_iff s cert shrinks = (forth, back)
    where
      forth : only_certificate rt s ≡ ok cert → Certs s (cert ∷ [])
      forth h = elim (Result-cases (certificates rt (suc (length s)) s)) [
        | inr (e, bad) ↦ cc (rw (bad, only_certificate) at h)
        | inl (certs, got) ↦
            subst (Certs s) ((exactly_one_iff certs cert).0 (rw (got, only_certificate) at h))
              (certificates-eq-ok (suc (length s)) s certs got)
      ]

      back : Certs s (cert ∷ []) → only_certificate rt s ≡ ok cert
      back c =
          rw
            (
              Certs-certificates (suc (length s)) s (cert ∷ []) shrinks (omega arith) c,
              only_certificate,
            )
            ((exactly_one_iff (cert ∷ []) cert).1 refl)
