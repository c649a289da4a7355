-- ===== src/Cms/Openssl.antt =====
-- internal/cms/openssl: the openssl CLI verifies a request; the certificate that it writes for the
-- signer is the one signer's.
pub mod Signers
pub mod Verdict
use developer_certificates.Common.{
  ℕ, zero, suc, Bool, true, false, Option, none, some, List, [], ◌∷◌, ◌++◌, Bytes, codes, bytes_eq,
  length, if◌then◌else◌,
}
use developer_certificates.Decimal.{decimal}
use developer_certificates.Effects.{
  ⊤, Action, Error, Sentinel, Result, ok, err, errorf, wrap, mark, diverged, attempt, context, fail,
  lift, pure, ◌>>=◌,
}
use developer_certificates.Revoke.SelfService.{CmsResult}
use developer_certificates.Runtime.{Runtime}
use developer_certificates.Text.{trim_space}
use developer_certificates.X509.{Block, Certificate}

-- How a run of the command ends: with its standard output, with a non-zero status and what it wrote
-- to standard error, or not at all.
pub data Exit : Type 0 where
  success : Bytes → Exit
  failure : Bytes → Exit
  not_run : Error → Exit

-- The files and processes of package os; `run` is given the program, its arguments and its standard
-- input. `remove` drops its error, as the source does.
pub record Os (W : Type 0) : Type 0 where
  pub create_temp : Bytes → Action W Bytes
  pub remove : Bytes → W → W
  pub run : Bytes → List Bytes → Bytes → W → Exit × W
  pub read_file : Bytes → Action W Bytes

unfoldable pub binary : Bytes
binary = codes "openssl"

-- cms.ErrInvalidCMS, with a text behind it.
unfoldable pub invalid_cms : Bytes → Error
invalid_cms text = mark Sentinel.invalid_cms (codes "cms: verification failed") text

-- The certificates of the blocks in the text. Each block takes a part of it, so its length bounds the
-- rounds.
unfoldable pub certificates : Runtime → ℕ → Bytes → Result (List Certificate)
certificates rt zero text = err diverged
certificates rt (suc rounds) text = elim (rt.pem_decode text) [
  | none ↦ ok []
  | some p ↦
      let later = certificates rt rounds p.1 in
      if bytes_eq p.0.kind (codes "CERTIFICATE")
      then elim (rt.parse_certificate p.0.bytes) [
        | err e ↦ err e
        | ok cert ↦ elim later [ err e ↦ err e | ok certs ↦ ok (cert ∷ certs) ]
      ]
      else later
]

unfoldable pub exactly_one : List Certificate → Result Certificate
exactly_one [] = err (errorf (codes "no signer certificate in CMS output"))
exactly_one (cert ∷ []) = ok cert
exactly_one (a ∷ b ∷ certs) = err (
    errorf (
      codes "CMS has "
      ++ (decimal (length (a ∷ b ∷ certs)) ++ codes " signer certificates; exactly one required")))

unfoldable pub only_certificate : Runtime → Bytes → Result Certificate
only_certificate rt text = elim (certificates rt (suc (length text)) text) [
  | err e ↦ err e
  | ok certs ↦ exactly_one certs
]

module _ {W : Type 0} (rt : Runtime) (os : Os W) where
  unfoldable pub arguments : Bytes → List Bytes
  arguments signer_out =
      codes "cms"
      ∷ codes "-verify"
      ∷ codes "-noverify"
      ∷ codes "-inform"
      ∷ codes "PEM"
      ∷ codes "-signer"
      ∷ signer_out
      ∷ []

  unfoldable pub accept : Bytes → Result Certificate → Result CmsResult
  accept stdout (err e) = err (invalid_cms e.text)
  accept stdout (ok signer) = ok (record { signer_cert = signer; content = stdout })

  -- What follows the run of the command.
  unfoldable pub judge : Bytes → Exit → Action W CmsResult
  judge signer_out (failure stderr) = fail (invalid_cms (trim_space stderr))
  judge signer_out (not_run e) = fail (wrap (codes "openssl: run cms -verify") e)
  judge signer_out (success stdout) = do
    pem_certs ← context (codes "openssl: read signer") (os.read_file signer_out)
    lift (accept stdout (only_certificate rt pem_certs))

  unfoldable pub run_verify : Bytes → Bytes → Action W CmsResult
  run_verify request signer_out w =
      let (exit, w') = os.run binary (arguments signer_out) request w in judge signer_out exit w'

  -- The temporary file is removed in the end, whatever the outcome.
  unfoldable pub with_removal : Bytes → Action W CmsResult → Action W CmsResult
  with_removal signer_out m w = let (r, w') = m w in (r, os.remove signer_out w')

  unfoldable pub verify : Bytes → Action W CmsResult
  verify request = do
    signer_out ← context (codes "openssl: temp file") (os.create_temp (codes "cms-signer-*.pem"))
    with_removal signer_out (run_verify request signer_out)
