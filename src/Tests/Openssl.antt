-- ===== src/Tests/Openssl.antt =====
-- The theorem on the verification by openssl at concrete inputs: a request that openssl accepts, whose
-- signer's file holds a certificate behind a block of another kind.
use developer_certificates.Common.{◌≡◌, refl, List, [], ◌∷◌, Bytes, codes, bytes_eq}
use developer_certificates.Effects.{ok, context, ◌>>=◌}
use developer_certificates.Cms.Openssl.{
  Os, success, verify, with_removal, run_verify, judge, accept, only_certificate, certificates,
  exactly_one,
}
use developer_certificates.Cms.Openssl.Verdict.{Verdict, verify-Verdict}
use developer_certificates.Tests.Backends.{pem_rt, pem_rt-Shrinks}
use developer_certificates.Tests.Data.{issuer}

-- The state is the list of the files that exist.
abbrev os : Os (List Bytes)
os = record {
  create_temp = λ pattern files. (ok pattern, pattern ∷ files);
  remove = λ name files. [];
  run = λ program args stdin files. (success stdin, files);
  read_file = λ name files. (ok (codes "EC"), files);
}

accepts :
    verify pem_rt os (codes "revoke") []
    ≡ (ok (record { signer_cert = issuer; content = codes "revoke" }), [])
unfolding verify with_removal run_verify judge accept only_certificate certificates exactly_one
    context ◌>>=◌ codes bytes_eq
accepts = refl

verify-Verdict_example :
    Verdict pem_rt os (codes "revoke") [] (verify pem_rt os (codes "revoke") [])
verify-Verdict_example = verify-Verdict pem_rt os (codes "revoke") pem_rt-Shrinks []
