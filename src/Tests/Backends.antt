-- ===== src/Tests/Backends.antt =====
-- The theorems on the signers, the output of openssl and the ledger files at concrete inputs.
use developer_certificates.Common.{
  ℕ, ◌≡◌, ◌↔◌, ap, true, none, some, Option, [], ◌∷◌, ◌++◌, Bytes, codes, length, arith, ◌==◌,
  if◌then◌else◌,
}
use mathlib.Core.Option.{some_inj}
use developer_certificates.Effects.{ok, err, errorf, pure, fail}
use developer_certificates.GitHub.Fake.{Client}
use developer_certificates.Runtime.{Runtime}
use developer_certificates.Cms.Openssl.Signers.{Shrinks}
use developer_certificates.Crl.Load.{Files}
use developer_certificates.Signer.Keys.{EcKey, Crypto}
use developer_certificates.Signer.Pem
use developer_certificates.Signer.Pem.Matching.{IsMatching, new_iff}
use developer_certificates.Signer.Vault.{Vault}
use developer_certificates.X509.{Block, Curve}
use developer_certificates.Tests.Data.{rt, issuer, key}

abbrev pub ec_key : EcKey
ec_key = record { curve = Curve.p384; point = 1 ∷ []; secret = [] }

abbrev pub crypto : Crypto Client
crypto = record {
  parse_ec_private_key = λ _. ok ec_key;
  parse_pkcs8_private_key = λ _. err (errorf []);
  ec_signer = λ k. record { public = key; sign = λ d h. pure d };
  create_certificate = λ t p k s. pure (2 ∷ []);
  create_revocation_list = λ l p s. pure (3 ∷ []);
  create_ca = λ t k s. pure (4 ∷ []);
  generate_key = pure ec_key;
  random_below = λ n. pure 1;
}

-- A PEM text is its kind's first byte, 'E' for a key and 'C' for a certificate, and a byte of content.
abbrev kind_of : ℕ → Bytes
kind_of b = if b == b'E' then codes "EC PRIVATE KEY" else codes "CERTIFICATE"

abbrev next_block : Bytes → Option (Block × Bytes)
next_block [] = none
next_block (k ∷ s) = some (record { kind = kind_of k; bytes = k ∷ [] }, s)

abbrev pub pem_rt : Runtime
pem_rt = record rt { pem_decode = next_block }

abbrev config : Pem.Config
config = record { key_pem = codes "E"; issuer = some issuer }

abbrev pub matched : Pem.PemSigner
matched = record { key = ec_key; issuer = issuer }

new_iff_example :
    (Pem.new pem_rt crypto config ≡ ok matched) ↔ IsMatching pem_rt crypto config matched
new_iff_example = new_iff pem_rt crypto config matched

pub pem_rt-Shrinks : Shrinks pem_rt
pem_rt-Shrinks [] b rest h = cc h
pem_rt-Shrinks (k ∷ s) b rest h =
    let same : s ≡ rest = ap (λ p. p.1) (some_inj.0 h) in omega (arith, ap length same)

abbrev pub files : Files
files = record {
  stat_is_dir = λ _. ok true;
  glob = λ _. ok (codes "ledger/files.json" ∷ []);
  join = λ dir name. dir ++ name;
  sort = λ paths. paths;
  read_file = λ _. ok (codes "{}");
}

abbrev pub vault : Vault Client
vault = record {
  marshal = λ r. ok r.input;
  unmarshal_signature = λ body. ok body;
  encode_base64 = λ s. s;
  decode_base64 = λ s. ok s;
  new_request = λ m u. none;
  send = λ r. fail (errorf []);
  show_hash = λ h. [];
}
