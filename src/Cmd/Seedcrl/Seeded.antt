-- ===== src/Cmd/Seedcrl/Seeded.antt =====
-- Which key files are accepted, and what a run that succeeds has signed and written.
use developer_certificates.Common.{
  ◌≡◌, ◌⊎◌, ◌+◌, ◌*◌, inl, inr, refl, sym, ap, ◌∙◌, true, Bool-cases, Option-cases, some, [], ◌++◌,
  Bytes, codes, bytes_eq, bytes_eq_iff,
}
use developer_certificates.Common.Int.{pos}
use developer_certificates.Clock.{Time, day}
use developer_certificates.Effects.{⊤, Action, Result, ok, err, context, lift, Result-cases}
use developer_certificates.Effects.Keep.{>>=-eq-ok, context-eq-ok, ok_inj}
use developer_certificates.Runtime.{Runtime}
use developer_certificates.Signer.Keys.{EcKey, PrivateKey, ec, other, is_p384, Crypto}
use developer_certificates.Signer.Pem.Matching.{is_p384_iff}
use developer_certificates.X509.{Block, Certificate, Curve, RevocationList}
use developer_certificates.Cmd.Seedcrl.{
  template, as_private, check_key, parsed_key, key_of_block, load_key, load_cert, cert_of_block,
  run,
}

module _ {W : Type 0} (rt : Runtime) (cr : Crypto W) (read_file : Bytes → Result Bytes)
    (write_file : Bytes → Bytes → Action W ⊤) where
  -- The first block of the file, and the key that its kind says it is.
  pub record IsKeyFile (path : Bytes) (key : EcKey) : Type 0 where
    pub text : Bytes
    pub block : Block
    pub rest : Bytes
    pub read : read_file path ≡ ok text
    pub decoded : rt.pem_decode text ≡ some (block, rest)
    pub parsed :
        ((block.kind ≡ codes "EC PRIVATE KEY") × (cr.parse_ec_private_key block.bytes ≡ ok key))
        ⊎ ((block.kind ≡ codes "PRIVATE KEY")
            × (cr.parse_pkcs8_private_key block.bytes ≡ ok (ec key)))
    pub curve : key.curve ≡ Curve.p384

  pub record IsCertFile (path : Bytes) (cert : Certificate) : Type 0 where
    pub text : Bytes
    pub block : Block
    pub rest : Bytes
    pub read : read_file path ≡ ok text
    pub decoded : rt.pem_decode text ≡ some (block, rest)
    pub kind : block.kind ≡ codes "CERTIFICATE"
    pub parsed : rt.parse_certificate block.bytes ≡ ok cert

  parsed_key-eq-ok :
      (path : Bytes) (r : Result PrivateKey) (key : EcKey)
      → parsed_key rt cr read_file write_file path r ≡ ok key
      → (r ≡ ok (ec key)) × (is_p384 key.curve ≡ true)
  unfolding parsed_key check_key
  parsed_key-eq-ok path (err e) key h = cc h
  parsed_key-eq-ok path (ok (other name)) key h = cc h
  parsed_key-eq-ok path (ok (ec k)) key h = elim (Bool-cases (is_p384 k.curve)) [
    | inl p384 ↦
        let same : k ≡ key = ok_inj (rw (p384, parsed_key, check_key) at h) in
        (ap (λ x. ok (ec x)) same, ap (λ x. is_p384 x.curve) (sym same) ∙ p384)
    | inr bad ↦ cc (rw (bad, parsed_key, check_key) at h)
  ]

  as_private-eq-ok :
      (path : Bytes) (r : Result EcKey) (key : EcKey)
      → parsed_key rt cr read_file write_file path (as_private rt cr read_file write_file r)
        ≡ ok key
      → (r ≡ ok key) × (is_p384 key.curve ≡ true)
  as_private-eq-ok path (err e) key h = cc (parsed_key-eq-ok path (err e) key h).0
  as_private-eq-ok path (ok k) key h =
      let (same, p384) = parsed_key-eq-ok path (ok (ec k)) key h in (ap ok (cc same), p384)

  key_of_block-eq-ok :
      (path : Bytes) (b : Block) (key : EcKey)
      → key_of_block rt cr read_file write_file path b ≡ ok key
      → (((b.kind ≡ codes "EC PRIVATE KEY") × (cr.parse_ec_private_key b.bytes ≡ ok key))
          ⊎ ((b.kind ≡ codes "PRIVATE KEY") × (cr.parse_pkcs8_private_key b.bytes ≡ ok (ec key))))
        × (is_p384 key.curve ≡ true)
  unfolding key_of_block
  key_of_block-eq-ok path b key h = elim (Bool-cases (bytes_eq b.kind (codes "EC PRIVATE KEY"))) [
    | inl sec1 ↦
        let (got, p384) =
          as_private-eq-ok path (cr.parse_ec_private_key b.bytes) key
            (rw (sec1, key_of_block) at h) in
        (inl ((bytes_eq_iff b.kind (codes "EC PRIVATE KEY")).0 sec1, got), p384)
    | inr unlike ↦ elim (Bool-cases (bytes_eq b.kind (codes "PRIVATE KEY"))) [
      | inl pkcs8 ↦
          let (got, p384) =
            parsed_key-eq-ok path (cr.parse_pkcs8_private_key b.bytes) key
              (rw (unlike, key_of_block, pkcs8) at h) in
          (inr ((bytes_eq_iff b.kind (codes "PRIVATE KEY")).0 pkcs8, got), p384)
      | inr neither ↦ cc (rw (unlike, key_of_block, neither) at h)
    ]
  ]

  load_key-IsKeyFile :
      (path : Bytes) (key : EcKey)
      → load_key rt cr read_file write_file path ≡ ok key
      → IsKeyFile path key
  unfolding load_key
  load_key-IsKeyFile path key h = elim (Result-cases (read_file path)) [
    | inr (e, bad) ↦ cc (rw (bad, load_key) at h)
    | inl (text, read) ↦ elim (Option-cases (rt.pem_decode text)) [
      | inl bare ↦ cc (rw (read, load_key, bare) at h)
      | inr (p, decoded) ↦
          let (parsed, p384) =
            key_of_block-eq-ok path p.0 key (rw (read, load_key, decoded) at h) in
          record {
            text = text;
            block = p.0;
            rest = p.1;
            read = read;
            decoded = decoded;
            parsed = parsed;
            curve = (is_p384_iff rt cr key.curve).0 p384;
          }
    ]
  ]

  load_cert-IsCertFile :
      (path : Bytes) (cert : Certificate)
      → load_cert rt cr read_file write_file path ≡ ok cert
      → IsCertFile path cert
  unfolding load_cert cert_of_block
  load_cert-IsCertFile path cert h = elim (Result-cases (read_file path)) [
    | inr (e, bad) ↦ cc (rw (bad, load_cert) at h)
    | inl (text, read) ↦ elim (Option-cases (rt.pem_decode text)) [
      | inl bare ↦ cc (rw (read, load_cert, bare, cert_of_block) at h)
      | inr (p, decoded) ↦ elim (Bool-cases (bytes_eq p.0.kind (codes "CERTIFICATE"))) [
        | inr unlike ↦ cc (rw (read, load_cert, decoded, cert_of_block, unlike) at h)
        | inl kind ↦ record {
          text = text;
          block = p.0;
          rest = p.1;
          read = read;
          decoded = decoded;
          kind = (bytes_eq_iff p.0.kind (codes "CERTIFICATE")).0 kind;
          parsed = rw (read, load_cert, decoded, cert_of_block, kind) at h;
        }
      ]
    ]
  ]

  -- An empty list, numbered 1 and valid for seven days, was signed by the key in the one file under
  -- the certificate in the other, and what was signed was written.
  pub record Seeded (key_path cert_path out_path : Bytes) (now : Time) (w : W) (out : Result ⊤ × W)
      : Type 0 where
    pub key : EcKey
    pub key_file : IsKeyFile key_path key
    pub cert : Certificate
    pub cert_file : IsCertFile cert_path cert
    pub tmpl : RevocationList
    pub empty : tmpl.revoked_certificate_entries ≡ []
    pub number : tmpl.number ≡ pos 1
    pub this_update : tmpl.this_update ≡ now
    pub next_update : tmpl.next_update ≡ now + 7 * day
    pub der : Bytes
    pub signed : (cr.create_revocation_list tmpl cert (cr.ec_signer key) w).0 ≡ ok der
    pub written :
        (write_file out_path der (cr.create_revocation_list tmpl cert (cr.ec_signer key) w).1)
        ≡ (ok tt, out.1)

  -- When a run succeeds, the first block of the key's file holds a P-384 key, in one of the two forms
  -- that its kind names, and that of the certificate's file a certificate; an empty list, with the
  -- number 1 and valid for seven days from now, was signed by that key under that certificate; and it
  -- was written to the output.
  pub run-Seeded :
      (key_path cert_path out_path : Bytes) (now : Time) (w : W)
      → (run rt cr read_file write_file key_path cert_path out_path now w).0 ≡ ok tt
      → Seeded key_path cert_path out_path now w
          (run rt cr read_file write_file key_path cert_path out_path now w)
  unfolding run template context
  run-Seeded key_path cert_path out_path now w h =
      let (key, keyed, r0, h0) =
        >>=-eq-ok (lift (load_key rt cr read_file write_file key_path)) _ w tt h in
      let (cert, certified, r1, h1) =
        >>=-eq-ok (lift (load_cert rt cr read_file write_file cert_path)) _ w tt h0 in
      let create = cr.create_revocation_list (template now) cert (cr.ec_signer key) in
      let (der, signed, r2, h2) = >>=-eq-ok (context (codes "create crl") create) _ w tt h1 in
      let at = (create w).1 in
      let stored = context-eq-ok (codes "write " ++ out_path) (write_file out_path der) at h2 in
      record {
        key = key;
        key_file = load_key-IsKeyFile key_path key keyed;
        cert = cert;
        cert_file = load_cert-IsCertFile cert_path cert certified;
        tmpl = template now;
        empty = refl;
        number = refl;
        this_update = refl;
        next_update = refl;
        der = der;
        signed = context-eq-ok (codes "create crl") create w signed;
        written = λ i. (stored i, (sym (r0 ∙ (r1 ∙ r2)) i).1);
      }
