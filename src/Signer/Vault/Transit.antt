-- ===== src/Signer/Vault/Transit.antt =====
-- The digest signer over a Transit engine that behaves as documented.
use developer_certificates.Common.{
  ◌≡◌, refl, ◌∙◌, true, false, none, some, [], ◌∷◌, ◌++◌, Bytes, codes,
}
use mathlib.Core.List.{Memᴰ}
use mathlib.Core.List.Memᴰ.{head}
use developer_certificates.Effects.{Error, ok, err, lift}
use developer_certificates.Effects.Keep.{context-step, >>=-step}
use developer_certificates.GitHub.Rest.Transport.{HttpRequest}
use developer_certificates.Signer.Keys.{sha384, other}
use developer_certificates.Signer.Vault.{
  Vault, VaultSigner, SignRequest, build, sign_url, sign_request, sign_digest, digest_signer,
  crypto_signer, judge,
}
use developer_certificates.Signer.Vault.Signature.{decode_transit_signature_lem}
use developer_certificates.Text.{contains_byte, trim_right_byte}

module _ {W : Type 0} (vault : Vault W) (s : VaultSigner) (signature : Bytes → W → Bytes × W) where
  -- The path of the key, and the request for the ASN.1 signature of a SHA-384 digest.
  abbrev pub endpoint : Bytes
  endpoint = trim_right_byte b'/' s.cfg.address ++ (codes "/v1/transit/sign/" ++ s.cfg.key_name)

  abbrev pub prehashed : Bytes → SignRequest
  prehashed digest = record {
    input = vault.encode_base64 digest;
    prehashed = true;
    hash_algorithm = codes "sha2-384";
    marshaling_algorithm = codes "asn1";
  }

  -- What Transit documents of its sign endpoint, and encoding/json, encoding/base64 and net/http of
  -- themselves: a POST to the path of the key, with the token, for the signature of a digest is
  -- answered with that signature in base64 behind a version prefix.
  pub record IsTransit : Type 0 where
    pub body : SignRequest → Bytes
    pub marshals : (r : SignRequest) → vault.marshal r ≡ ok (body r)
    pub well_formed : vault.new_request (codes "POST") endpoint ≡ none
    pub decodes : (b : Bytes) → vault.decode_base64 (vault.encode_base64 b) ≡ ok b
    pub bare : (b : Bytes) → contains_byte b':' (vault.encode_base64 b) ≡ false
    pub answer : Bytes → Bytes
    pub version : Bytes
    pub says :
        (sig : Bytes)
        → vault.unmarshal_signature (answer sig) ≡ ok (version ++ b':' ∷ vault.encode_base64 sig)
    pub status : Bytes
    pub answers :
        (req : HttpRequest) (digest : Bytes) (w : W)
        → req.method ≡ codes "POST"
        → req.url ≡ endpoint
        → Memᴰ (codes "X-Vault-Token", s.cfg.token) req.headers
        → req.content ≡ some (body (prehashed digest))
        → vault.send req w ≡ (
          ok (record { status_code = 200; status = status; body = answer (signature digest w).0 }),
          (signature digest w).1,
        )

  module _ (t : IsTransit) where
    judge-answer :
        (sig : Bytes)
        → judge vault (record { status_code = 200; status = t.status; body = t.answer sig })
          ≡ ok sig
    unfolding judge
    judge-answer sig =
        decode_transit_signature_lem vault (t.answer sig) t.version (vault.encode_base64 sig) sig
          (t.says sig) (t.bare sig) (t.decodes sig)

    sign_digest-signature :
        (digest : Bytes) (w : W)
        → sign_digest vault s digest w ≡ (ok (signature digest w).0, (signature digest w).1)
    unfolding sign_digest build sign_url sign_request
    sign_digest-signature digest w =
        let left = (signature digest w).1 in
        let content = t.body (prehashed digest) in
        let req : HttpRequest = record {
          method = codes "POST";
          url = endpoint;
          headers =
              (codes "X-Vault-Token", s.cfg.token)
              ∷ (codes "Content-Type", codes "application/json")
              ∷ [];
          content = some content;
        } in
        let built : build vault s.cfg content ≡ ok req = rw (t.well_formed, build) refl in
        >>=-step _ _ w w (
          context-step (codes "vault: marshal request") (lift (vault.marshal (prehashed digest))) w
            w (λ i. (t.marshals (prehashed digest) i, w)))
        ∙ (>>=-step (lift (build vault s.cfg content)) _ w w (λ i. (built i, w))
            ∙ (>>=-step _ _ w left (
                  context-step (codes "vault: sign request") (vault.send req) w left
                    (t.answers req digest w refl refl (head refl) refl))
                ∙ (λ i. (judge-answer (signature digest w).0 i, left))))

    -- Over a Transit engine that signs digests with the key of the configured name, and encodings that
    -- are read back, the signer that is handed to crypto/x509 has the public key of the issuer's
    -- certificate, returns for a SHA-384 digest the signature of that digest, and refuses a digest of
    -- another hash without a call.
    pub crypto_signer-IsTransit :
        ((crypto_signer vault s).public ≡ s.issuer.public_key)
        × ((digest : Bytes) (w : W)
            → (crypto_signer vault s).sign digest sha384 w
              ≡ (ok (signature digest w).0, (signature digest w).1))
        × ((digest name : Bytes) (w : W)
            → (e : Error) × ((crypto_signer vault s).sign digest (other name) w ≡ (err e, w)))
    unfolding crypto_signer digest_signer
    crypto_signer-IsTransit = (refl, sign_digest-signature, λ digest name w. (_, refl))
