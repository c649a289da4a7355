-- ===== src/Tests/Seed.antt =====
-- The theorem on the first list at a concrete run: a key's file and a certificate's.
use developer_certificates.Common.{◌≡◌, refl, Bytes, codes, bytes_eq, if◌then◌else◌}
use developer_certificates.Effects.{⊤, Action, Result, ok, pure, context, ◌>>=◌}
use developer_certificates.GitHub.Fake.{Client}
use developer_certificates.Signer.Keys.{is_p384}
use developer_certificates.Cmd.Seedcrl.{
  run, load_key, key_of_block, parsed_key, check_key, load_cert, cert_of_block,
}
use developer_certificates.Cmd.Seedcrl.Seeded.{Seeded, run-Seeded}
use developer_certificates.Tests.Backends.{crypto, pem_rt}
use developer_certificates.Tests.Data.{hub}

abbrev read_file : Bytes → Result Bytes
read_file path = if bytes_eq path (codes "key.pem") then ok (codes "E") else ok (codes "C")

abbrev write_file : Bytes → Bytes → Action Client ⊤
write_file path content = pure tt

succeeds :
    (run pem_rt crypto read_file write_file
      (codes "key.pem")
      (codes "ca.pem")
      (codes "out.crl")
      300
      hub).0
    ≡ ok tt
unfolding run load_key key_of_block parsed_key check_key load_cert cert_of_block is_p384 bytes_eq
    codes context ◌>>=◌
succeeds = refl

run-Seeded_example :
    Seeded pem_rt crypto read_file write_file
      (codes "key.pem")
      (codes "ca.pem")
      (codes "out.crl")
      300
      hub
      (run pem_rt crypto read_file write_file
        (codes "key.pem")
        (codes "ca.pem")
        (codes "out.crl")
        300
        hub)
run-Seeded_example =
    run-Seeded pem_rt crypto read_file write_file (codes "key.pem") (codes "ca.pem")
      (codes "out.crl") 300 hub succeeds
