-- ===== src/CertTemplate.antt =====
-- internal/certtmpl: the template of a leaf certificate.
pub mod Bounds
use developer_certificates.Common.{
  ℕ, zero, suc, ◌+◌, ◌*◌, ◌^◌, Bool, true, false, Option, none, some, List, [], ◌∷◌, ◌++◌, Bytes,
  codes, ltb, ◌==◌, if◌then◌else◌,
}
use developer_certificates.Clock.{Time, day, add_time, after}
use developer_certificates.Effects.{
  Action, Result, ok, err, diverged, errorf, wrap, context, pure, fail, lift, ◌>>=◌,
}
use developer_certificates.AppId.{validate_strict}
use developer_certificates.Challenge.{Reader}
use developer_certificates.X509.{
  Certificate, PublicKey, Template, KeyUsage, ExtKeyUsage, SignatureAlgorithm,
}

unfoldable pub crl_distribution_point : Bytes
crl_distribution_point = codes "https://owncloud.dev/developer-certificates/crl/developers.crl"

-- 2 * 365 * 24 * time.Hour
unfoldable pub leaf_validity : ℕ
leaf_validity = 2 * 365 * day

abbrev pub serial_bits : ℕ
serial_bits = 128

-- `issuer` is none for a nil certificate.
pub record Inputs : Type 0 where
  pub app_id : Bytes
  pub owner : Bytes
  pub origin : Bytes
  pub public_key : PublicKey
  pub not_before : Time
  pub issuer : Option Certificate

-- The number whose bytes these are, the first the most significant.
unfoldable pub big_endian : ℕ → Bytes → ℕ
big_endian acc [] = acc
big_endian acc (b ∷ s) = big_endian (acc * 256 + b) s

-- rand.Int below 2 ^ serial_bits: the number of sixteen bytes of the reader.
unfoldable pub rand_int : {W : Type 0} → Reader W → Action W ℕ
rand_int read = do pure (big_endian 0 (← read 16))

-- The loop draws until the number is not 0; `rounds` bounds it.
unfoldable pub random_serial : {W : Type 0} → Reader W → ℕ → Action W ℕ
random_serial read zero = fail diverged
random_serial read (suc rounds) = do
  n ← context (codes "certtmpl: serial") (rand_int read)
  let again = random_serial read rounds
  if ltb 0 n then pure n else again

unfoldable pub is_nil : PublicKey → Bool
is_nil PublicKey.nil = true
is_nil _ = false

-- min(notBefore + 2y, issuer.notAfter)
unfoldable pub capped : Time → Time → Time
capped not_before limit =
    let not_after = add_time not_before leaf_validity in
    if after not_after limit then limit else not_after

unfoldable pub template : Inputs → Certificate → ℕ → Template
template inputs issuer serial = record {
  serial_number = serial;
  common_name = inputs.app_id;
  organization = inputs.owner ∷ [];
  organizational_unit = inputs.origin ∷ [];
  not_before = inputs.not_before;
  not_after = capped inputs.not_before issuer.not_after;
  key_usage = KeyUsage.digital_signature ∷ [];
  ext_key_usage = ExtKeyUsage.code_signing ∷ [];
  basic_constraints_valid = true;
  is_ca = false;
  signature_algorithm = SignatureAlgorithm.ecdsa_with_sha384;
  crl_distribution_points = crl_distribution_point ∷ [];
}

-- The checks that `Leaf` begins with; they hand on the issuer. `quote` is %q.
unfoldable pub check_inputs : (Bytes → Bytes) → Inputs → Result Certificate
check_inputs quote inputs = elim (validate_strict inputs.app_id) [
  | err e ↦ err (wrap (codes "certtmpl: CN " ++ quote inputs.app_id) e)
  | ok _ ↦ elim inputs.issuer [
    | none ↦ err (errorf (codes "certtmpl: nil issuer certificate"))
    | some issuer ↦
        if is_nil inputs.public_key
        then err (errorf (codes "certtmpl: nil subject public key"))
        else ok issuer
  ]
]

unfoldable pub leaf : {W : Type 0} → (Bytes → Bytes) → Reader W → ℕ → Inputs → Action W Template
leaf quote read rounds inputs = do
  issuer ← lift (check_inputs quote inputs)
  serial ← random_serial read rounds
  pure (template inputs issuer serial)
