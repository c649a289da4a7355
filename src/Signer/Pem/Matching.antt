-- ===== src/Signer/Pem/Matching.antt =====
-- When the PEM signer is made.
use developer_certificates.Common.{
  ◌≡◌, ◌↔◌, inl, inr, refl, ap, sym, ◌∙◌, true, false, Bool-cases, some, [], Bytes, bytes_eq,
  bytes_eq_iff, arith, Option-cases, ◌≢◌,
}
use developer_certificates.Effects.{ok, Result-cases}
use developer_certificates.Effects.Keep.{ok_inj}
use developer_certificates.Runtime.{Runtime}
use developer_certificates.Signer.Keys.{EcKey, is_p384, public_equal, curve_eq, Crypto}
use developer_certificates.Signer.Pem.{
  Config, PemSigner, new, with_issuer, check_key, check_public, parse_ec_key,
}
use developer_certificates.X509.{Certificate, Curve, PublicKey}

module _ {W : Type 0} (rt : Runtime) (cr : Crypto W) where
  -- A P-384 key, and the issuer's certificate with its public key.
  pub record IsMatching (cfg : Config) (s : PemSigner) : Type 0 where
    pub given : cfg.key_pem ≢ []
    pub issued : cfg.issuer ≡ some s.issuer
    pub parsed : parse_ec_key rt cr cfg.key_pem ≡ ok s.key
    pub curve : s.key.curve ≡ Curve.p384
    pub same : s.issuer.public_key ≡ PublicKey.ecdsa Curve.p384 s.key.point

  curve_eq_p384 : (curve : Curve) → (curve_eq Curve.p384 curve ≡ true) ↔ (curve ≡ Curve.p384)
  curve_eq_p384 Curve.p384 = ground arith
  curve_eq_p384 Curve.unknown = ground arith
  curve_eq_p384 (Curve.other a) = ground arith

  pub is_p384_iff : (curve : Curve) → (is_p384 curve ≡ true) ↔ (curve ≡ Curve.p384)
  unfolding is_p384
  is_p384_iff Curve.p384 = ground arith
  is_p384_iff Curve.unknown = ground arith
  is_p384_iff (Curve.other a) = ground arith

  public_equal_iff :
      (key : EcKey) (curve : Curve) (point : Bytes)
      → key.curve ≡ Curve.p384
      → (public_equal key curve point ≡ true) ↔ ((curve ≡ Curve.p384) × (key.point ≡ point))
  unfolding public_equal
  public_equal_iff key curve point p384 =
      rw (p384, public_equal) (ground (arith, curve_eq_p384 curve, bytes_eq_iff key.point point))

  check_public-eq-ok :
      (key : EcKey) (issuer : Certificate) (public : PublicKey) (s : PemSigner)
      → key.curve ≡ Curve.p384
      → check_public rt cr key issuer public ≡ ok s
      → (s ≡ record { key = key; issuer = issuer })
        × (public ≡ PublicKey.ecdsa Curve.p384 key.point)
  unfolding check_public
  check_public-eq-ok key issuer (PublicKey.ecdsa curve point) s p384 h =
      elim (Bool-cases (public_equal key curve point)) [
        | inl same ↦
            let (on_p384, at) = (public_equal_iff key curve point p384).0 same in
            (
              sym (ok_inj (rw (same, check_public) at h)),
              λ i. PublicKey.ecdsa (on_p384 i) (sym at i),
            )
        | inr other ↦ cc (rw (other, check_public) at h)
      ]
  check_public-eq-ok key issuer (PublicKey.rsa n) s p384 h = cc h
  check_public-eq-ok key issuer PublicKey.nil s p384 h = cc h
  check_public-eq-ok key issuer (PublicKey.other name) s p384 h = cc h

  check_public_same :
      (key : EcKey) (issuer : Certificate) (public : PublicKey)
      → key.curve ≡ Curve.p384
      → public ≡ PublicKey.ecdsa Curve.p384 key.point
      → check_public rt cr key issuer public ≡ ok (record { key = key; issuer = issuer })
  unfolding check_public
  check_public_same key issuer public p384 same =
      let equal = (public_equal_iff key Curve.p384 key.point p384).1 (refl, refl) in
      rw (same, check_public, equal) refl

  new-eq-ok : (cfg : Config) (s : PemSigner) → new rt cr cfg ≡ ok s → IsMatching cfg s
  unfolding new with_issuer check_key
  new-eq-ok cfg s h = elim (Bool-cases (bytes_eq cfg.key_pem [])) [
    | inl empty ↦ cc (rw (empty, new) at h)
    | inr given ↦ elim (Option-cases cfg.issuer) [
      | inl lacking ↦ cc (rw (given, new, lacking, with_issuer) at h)
      | inr (issuer, issued) ↦ elim (Result-cases (parse_ec_key rt cr cfg.key_pem)) [
        | inr (e, bad) ↦ cc (rw (given, new, issued, with_issuer, bad, check_key) at h)
        | inl (key, parsed) ↦ elim (Bool-cases (is_p384 key.curve)) [
          | inr other ↦ cc (rw (given, new, issued, with_issuer, parsed, check_key, other) at h)
          | inl good ↦
              let p384 = (is_p384_iff key.curve).0 good in
              let (made, same) =
                check_public-eq-ok key issuer issuer.public_key s p384
                  (rw (given, new, issued, with_issuer, parsed, check_key, good) at h) in
              record {
                given = λ e. cc ((bytes_eq_iff cfg.key_pem []).1 e, given);
                issued = issued ∙ ap (λ r. some r.issuer) (sym made);
                parsed = parsed ∙ ap (λ r. ok r.key) (sym made);
                curve = ap (λ r. r.key.curve) made ∙ p384;
                same =
                    ap (λ r. r.issuer.public_key) made
                    ∙ (same ∙ ap (λ r. PublicKey.ecdsa Curve.p384 r.key.point) (sym made));
              }
        ]
      ]
    ]
  ]

  IsMatching-new : (cfg : Config) (s : PemSigner) → IsMatching cfg s → new rt cr cfg ≡ ok s
  unfolding new with_issuer check_key check_public
  IsMatching-new cfg s m =
      let given : bytes_eq cfg.key_pem [] ≡ false = elim (Bool-cases (bytes_eq cfg.key_pem [])) [
        | inl empty ↦ absurd (m.given ((bytes_eq_iff cfg.key_pem []).0 empty))
        | inr other ↦ other
      ] in
      let good = (is_p384_iff s.key.curve).1 m.curve in
      rw (given, new, m.issued, with_issuer, m.parsed, check_key, good)
        (check_public_same s.key s.issuer s.issuer.public_key m.curve m.same)

  -- The PEM signer is made exactly when a key is given that can be parsed, it is on P-384, and the
  -- issuer's certificate is given and has that key's public half as its public key; it holds the two.
  pub new_iff : (cfg : Config) (s : PemSigner) → (new rt cr cfg ≡ ok s) ↔ IsMatching cfg s
  new_iff cfg s = (new-eq-ok cfg s, IsMatching-new cfg s)
