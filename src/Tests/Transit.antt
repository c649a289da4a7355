-- ===== src/Tests/Transit.antt =====
-- The theorem on the digest signer over a small Transit engine, which counts its calls and signs a
-- digest by a byte before it. Its base64 is any text without a colon from which the bytes can be had.
use developer_certificates.Common.{
  ℕ, suc, ◌+◌, ◌-◌, ◌≡◌, refl, ap, ◌∙◌, false, none, some, Option, [], ◌∷◌, ◌++◌, Bytes, codes, map,
  ltb, arith, if◌then◌else◌,
}
use developer_certificates.Effects.{Error, Result, ok, err, errorf}
use developer_certificates.GitHub.Rest.Transport.{HttpResponse}
use developer_certificates.Signer.Keys.{sha384, other}
use developer_certificates.Signer.Vault.{Vault, VaultSigner, crypto_signer}
use developer_certificates.Signer.Vault.Transit.{IsTransit, crypto_signer-IsTransit}
use developer_certificates.Text.{contains_byte}
use developer_certificates.Tests.Data.{issuer}

abbrev shift : ℕ → ℕ
shift n = if ltb n 58 then n else n + 1

abbrev unshift : ℕ → ℕ
unshift n = if ltb n 58 then n else n - 1

abbrev encode : Bytes → Bytes
encode = map shift

abbrev decode : Bytes → Bytes
decode = map unshift

unshift-shift : (n : ℕ) → unshift (shift n) ≡ n
unshift-shift n = ground arith

decode-encode : (b : Bytes) → decode (encode b) ≡ b
decode-encode [] = refl
decode-encode (n ∷ b) = λ i. unshift-shift n i ∷ decode-encode b i

encode_bare : (b : Bytes) → contains_byte b':' (encode b) ≡ false
unfolding contains_byte
encode_bare [] = refl
encode_bare (n ∷ b) = ground (arith, encode_bare b)

abbrev answered : Bytes → HttpResponse
answered sig = record { status_code = 200; status = []; body = encode sig }

abbrev engine : Option Bytes → ℕ → Result HttpResponse × ℕ
engine none w = (err (errorf []), w)
engine (some digest) w = (ok (answered (7 ∷ decode digest)), suc w)

abbrev vault : Vault ℕ
vault = record {
  marshal = λ r. ok r.input;
  unmarshal_signature = λ body. ok (codes "vault:v1" ++ b':' ∷ body);
  encode_base64 = encode;
  decode_base64 = λ s. ok (decode s);
  new_request = λ m u. none;
  send = λ r. engine r.content;
  show_hash = λ h. [];
}

abbrev signer : VaultSigner
signer = record {
  cfg = record { address = codes "http://v/"; token = codes "t"; key_name = codes "k" };
  issuer = issuer;
}

abbrev signature : Bytes → ℕ → Bytes × ℕ
signature digest w = (7 ∷ digest, suc w)

transit : IsTransit vault signer signature
transit = record {
  body = λ r. r.input;
  marshals = λ r. refl;
  well_formed = refl;
  decodes = λ b. ap ok (decode-encode b);
  bare = encode_bare;
  answer = encode;
  version = codes "vault:v1";
  says = λ sig. refl;
  status = [];
  answers = λ req digest w post url token content.
      ap (λ c. engine c w) content
      ∙ ap (λ d. (ok (answered (7 ∷ d)), suc w)) (decode-encode digest);
}

crypto_signer-IsTransit_example :
    ((crypto_signer vault signer).public ≡ issuer.public_key)
    × ((digest : Bytes) (w : ℕ)
        → (crypto_signer vault signer).sign digest sha384 w ≡ (ok (7 ∷ digest), suc w))
    × ((digest name : Bytes) (w : ℕ)
        → (e : Error) × ((crypto_signer vault signer).sign digest (other name) w ≡ (err e, w)))
crypto_signer-IsTransit_example = crypto_signer-IsTransit vault signer signature transit
