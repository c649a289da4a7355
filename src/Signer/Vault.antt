-- ===== src/Signer/Vault.antt =====
-- internal/signer/vault: the intermediate's key in Vault's Transit engine, which signs the digests
-- that crypto/x509 hands to it. A nil HTTP client is one with a timeout; `vault` stands for either.
pub mod Signature
pub mod Transit
use developer_certificates.Common.{
  ℕ, Bool, true, false, ◌||◌, not, Option, none, some, List, [], ◌∷◌, ◌++◌, Bytes, codes, bytes_eq,
  ◌==◌, if◌then◌else◌,
}
use developer_certificates.Effects.{
  Action, Error, Result, ok, err, errorf, wrap, context, fail, lift, ◌>>=◌,
}
use developer_certificates.GitHub.Rest.Transport.{HttpRequest, HttpResponse}
use developer_certificates.Signer.{Signer}
use developer_certificates.Signer.Keys.{CryptoSigner, HashFunc, sha384, other, Crypto}
use developer_certificates.Text.{trim_space, trim_right_byte, after_last}
use developer_certificates.X509.{Certificate, PublicKey, RevocationList, Template}

-- The body of a sign request, a map whose fields but the first are fixed.
pub record SignRequest : Type 0 where
  pub input : Bytes
  pub prehashed : Bool
  pub hash_algorithm : Bytes
  pub marshaling_algorithm : Bytes

-- What the signer calls: encoding/json, encoding/base64 and net/http; `show_hash` is %v of a hash.
pub record Vault (W : Type 0) : Type 0 where
  pub marshal : SignRequest → Result Bytes
  pub unmarshal_signature : Bytes → Result Bytes
  pub encode_base64 : Bytes → Bytes
  pub decode_base64 : Bytes → Result Bytes
  pub new_request : Bytes → Bytes → Option Error
  pub send : HttpRequest → Action W HttpResponse
  pub show_hash : HashFunc → Bytes

pub record Config : Type 0 where
  pub address : Bytes
  pub token : Bytes
  pub key_name : Bytes

pub record VaultSigner : Type 0 where
  pub cfg : Config
  pub issuer : Certificate

abbrev pub is_empty : Bytes → Bool
is_empty [] = true
is_empty (_ ∷ _) = false

unfoldable pub new : Config → Option Certificate → Result VaultSigner
new cfg issuer =
    if is_empty cfg.address || is_empty cfg.token || is_empty cfg.key_name
    then err (errorf (codes "vault: Address, Token and KeyName are required"))
    else elim issuer [
      | none ↦ err (errorf (codes "vault: nil issuer certificate"))
      | some cert ↦ ok (record { cfg = cfg; issuer = cert })
    ]

module _ {W : Type 0} (vault : Vault W) where
  unfoldable pub decode_signature : Bytes → Result Bytes
  decode_signature sig =
      if is_empty sig
      then err (errorf (codes "vault: response had no signature"))
      else elim (vault.decode_base64 (after_last b':' sig)) [
        | err e ↦ err (wrap (codes "vault: decode signature base64") e)
        | ok raw ↦ ok raw
      ]

  unfoldable pub decode_transit_signature : Bytes → Result Bytes
  decode_transit_signature body = elim (vault.unmarshal_signature body) [
    | err e ↦ err (wrap (codes "vault: decode response") e)
    | ok sig ↦ decode_signature sig
  ]

  unfoldable pub judge : HttpResponse → Result Bytes
  judge resp =
      if resp.status_code == 200
      then decode_transit_signature resp.body
      else err (
          errorf (
            codes "vault: sign returned " ++ (resp.status ++ (codes ": " ++ trim_space resp.body))))

  unfoldable pub sign_url : Config → Bytes
  sign_url cfg = trim_right_byte b'/' cfg.address ++ (codes "/v1/transit/sign/" ++ cfg.key_name)

  unfoldable pub sign_request : Bytes → SignRequest
  sign_request digest = record {
    input = vault.encode_base64 digest;
    prehashed = true;
    hash_algorithm = codes "sha2-384";
    marshaling_algorithm = codes "asn1";
  }

  unfoldable pub build : Config → Bytes → Result HttpRequest
  build cfg body = elim (vault.new_request (codes "POST") (sign_url cfg)) [
    | some e ↦ err (wrap (codes "vault: build request") e)
    | none ↦ ok (record {
      method = codes "POST";
      url = sign_url cfg;
      headers =
          (codes "X-Vault-Token", cfg.token)
          ∷ (codes "Content-Type", codes "application/json")
          ∷ [];
      content = some body;
    })
  ]

  unfoldable pub sign_digest : VaultSigner → Bytes → Action W Bytes
  sign_digest s digest = do
    body ← context (codes "vault: marshal request") (lift (vault.marshal (sign_request digest)))
    req ← lift (build s.cfg body)
    resp ← context (codes "vault: sign request") (vault.send req)
    lift (judge resp)

  -- cryptoSigner, which signs SHA-384 digests only.
  unfoldable pub digest_signer : VaultSigner → Bytes → HashFunc → Action W Bytes
  digest_signer s digest sha384 = sign_digest s digest
  digest_signer s digest (other name) = fail (
      errorf (
        codes "vault: unexpected hash "
        ++ (vault.show_hash (other name) ++ codes ", want SHA-384")))

  unfoldable pub crypto_signer : VaultSigner → CryptoSigner W
  crypto_signer s = record { public = s.issuer.public_key; sign = digest_signer s }

  unfoldable pub sign : Crypto W → VaultSigner → Template → PublicKey → Action W Bytes
  sign cr s template subject_pub =
      context (codes "vault: create certificate")
        (cr.create_certificate template s.issuer subject_pub (crypto_signer s))

  unfoldable pub sign_crl : Crypto W → VaultSigner → RevocationList → Action W Bytes
  sign_crl cr s template =
      context (codes "vault: create crl")
        (cr.create_revocation_list template s.issuer (crypto_signer s))

  -- The methods of *Signer, as an implementation of the interface.
  unfoldable pub vault_signer : Crypto W → VaultSigner → Signer W
  vault_signer cr s = record {
    issuer_certificate = s.issuer;
    sign = sign cr s;
    sign_crl = sign_crl cr s;
  }
