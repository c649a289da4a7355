-- ===== src/Tests/Data.antt =====
-- The inputs of the tests: an appId, a ledger with one certificate, and collaborators that answer
-- every call.
use developer_certificates.Common.{
  ℕ, zero, suc, ◌≡◌, ◌<◌, refl, false, none, some, [], ◌∷◌, Bytes, codes, All, length, arith, ap,
  subst,
}
use developer_certificates.Common.Int.{pos}
use developer_certificates.Effects.{ok, pure}
use developer_certificates.Challenge.{IsFull}
use developer_certificates.Effects.Keep.{ok_inj}
use developer_certificates.GitHub.{Issue}
use developer_certificates.GitHub.Fake.{Client, new, client}
use developer_certificates.Ledger.{Certificate, Ledger, Codec}
use developer_certificates.Runtime.{Runtime}
use developer_certificates.X509
use developer_certificates.X509.{Block, CertificateRequest, Curve, PublicKey}
use developer_certificates.Enroll.Form.{Form}
use developer_certificates.Enroll.Issuance.{Deps}

abbrev pub app_id : Bytes
app_id = codes "files"

abbrev pub repo : Bytes
repo = codes "o/files"

abbrev pub cert : Certificate
cert = record {
  serial = codes "0x1f";
  fingerprint = codes "sha256:00";
  not_before = 100;
  not_after = 200;
  requester = record { origin = codes "github"; login = codes "dev"; user_id = pos 7 };
  issue_ref = codes "#1";
  status = codes "active";
  revoked_from = none;
  reason = [];
  actor = [];
}

abbrev pub gone : Certificate
gone = record cert { status = codes "revoked"; revoked_from = some 150 }

abbrev pub ledger : Ledger
ledger = record {
  app_id = app_id;
  owner = record { origin = codes "github"; repo = repo };
  claimed_at = 100;
  reserved = false;
  certificates = cert ∷ [];
}

abbrev pub codec : Codec
codec = record { quote = λ s. s; decode = λ _. ok ledger; encode = λ _. ok (codes "{}") }

abbrev pub key : PublicKey
key = PublicKey.ecdsa Curve.p384 (1 ∷ [])

abbrev pub request : CertificateRequest
request = record { raw = []; common_name = app_id; public_key = key }

abbrev pub issuer : X509.Certificate
issuer = record {
  raw = 1 ∷ [];
  serial_number = pos 1;
  common_name = codes "CA";
  organization = [];
  organizational_unit = [];
  not_before = 0;
  not_after = 1000;
  public_key = key;
}

abbrev pub rt : Runtime
rt = record {
  codec = codec;
  pem_decode = λ text. some (record { kind = codes "CERTIFICATE REQUEST"; bytes = text }, []);
  pem_encode = λ b. b.bytes;
  parse_certificate_request = λ _. ok request;
  check_signature = λ _. none;
  parse_certificate = λ _. ok issuer;
  xml_info_id = λ _. ok app_id;
  sha256 = λ s. s;
}

abbrev pub ones : ℕ → Bytes
ones zero = []
ones (suc n) = 1 ∷ ones n

pub ones_lem : (n : ℕ) → (length (ones n) ≡ n) × All (λ b. b < 256) (ones n)
ones_lem zero = (refl, tt)
ones_lem (suc n) = let (size, small) = ones_lem n in (ap suc size, (omega arith, small))

-- The in-memory hub with the ledger of the appId.
unfoldable pub hub : Client
unfolding new codes
hub = record new { ledgers = λ _. some (record { content = codes "{}"; sha = codes "sha1" }) }

unfoldable pub deps : Deps Client
unfolding client
deps = record {
  gh = client;
  signer = record {
    issuer_certificate = issuer;
    sign = λ tmpl k. pure (2 ∷ []);
    sign_crl = λ rl. pure [];
  };
  clock = λ c. (300, c);
  rand = λ n c. (ok (ones n), c);
  rounds = 1;
}

pub rand-IsFull : IsFull deps.rand
unfolding deps
rand-IsFull n w s h =
    let same : ones n ≡ s = ok_inj h in
    subst (λ t. (length t ≡ n) × All (λ b. b < 256) t) same (ones_lem n)

abbrev pub issue : Issue
issue = record {
  number = 1;
  body = [];
  author = record { login = codes "dev"; user_id = pos 7 };
  labels = [];
}

abbrev pub form : Form
form = record { csr = []; repo = repo }
