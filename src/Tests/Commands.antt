-- ===== src/Tests/Commands.antt =====
-- The theorems on the commands at concrete inputs.
use developer_certificates.Common.{
  ℕ, ◌≡◌, ◌↔◌, refl, false, [], ◌∷◌, codes, bytes_eq, if◌then◌else◌,
}
use developer_certificates.Effects.{ok, errorf, fail, Error}
use developer_certificates.GitHub.Fake.{client, get_file, mint_sha}
use developer_certificates.Enroll.Process.{process}
use developer_certificates.Signer.Pem
use developer_certificates.Signer.Keys.{public_equal, is_p384}
use developer_certificates.Cmd.Batch.{run_all, Polled, run_all-Polled}
use developer_certificates.Cmd.Config.{Env, configured, with_pem, load_cert, parse_cert, pem_config}
use developer_certificates.Cmd.Config.Selection.{Selected, configured-Selected}
use developer_certificates.Cmd.Crlgen.{publish_crl, crl_path}
use developer_certificates.Cmd.Crlgen.Published.{publish_crl_lem}
use developer_certificates.Tests.Backends.{crypto, pem_rt, vault, matched}
use developer_certificates.Tests.Data.{rt, repo, issue, deps, hub}

run_all-Polled_example :
    (n : ℕ) × Polled
      (process rt deps)
      (issue ∷ issue ∷ [])
      hub
      n
      (run_all (process rt deps) (issue ∷ issue ∷ []) hub).1
    × (((run_all (process rt deps) (issue ∷ issue ∷ []) hub).0 ≡ ok tt) ↔ (n ≡ 0))
run_all-Polled_example = run_all-Polled (process rt deps) (issue ∷ issue ∷ []) hub

-- No Vault; the key and the path of the certificate are set.
abbrev pub env : Env
env = record {
  getenv = λ name.
      if bytes_eq name (codes "INTERMEDIATE_KEY_PEM")
      then codes "E"
      else if bytes_eq name (codes "INTERMEDIATE_CERT")
      then codes "ca.pem"
      else [];
  read_file = λ _. ok (codes "C");
}

abbrev lacking : Error
lacking = errorf []

chosen :
    (configured pem_rt env crypto vault (fail lacking) hub).0
    ≡ ok (Pem.pem_signer pem_rt crypto matched)
unfolding configured bytes_eq codes with_pem pem_config load_cert parse_cert Pem.new Pem.with_issuer
    Pem.check_key Pem.parse_ec_key Pem.key_of_block Pem.check_public public_equal is_p384
chosen = refl

configured-Selected_example :
    Selected pem_rt env crypto vault (Pem.pem_signer pem_rt crypto matched)
configured-Selected_example =
    configured-Selected pem_rt env crypto vault lacking hub (Pem.pem_signer pem_rt crypto matched)
      chosen

visible : hub.inaccessible_repos repo ≡ false
unfolding hub
visible = refl

calm : hub.fail_next_put_with_conflict ≡ false
unfolding hub
calm = refl

publish_crl_lem_example :
    ((publish_crl client repo (5 ∷ []) hub).0 ≡ ok tt)
    × ((get_file repo crl_path (publish_crl client repo (5 ∷ []) hub).1).0
        ≡ ok (5 ∷ [], (mint_sha hub).0))
publish_crl_lem_example = publish_crl_lem repo (5 ∷ []) hub visible calm
