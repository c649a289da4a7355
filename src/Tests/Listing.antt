-- ===== src/Tests/Listing.antt =====
-- The theorems on the list builder at a concrete run: one ledger file, with one revoked certificate.
use developer_certificates.Common.{
  ◌≡◌, refl, inr, subst, sym, ap, ◌∙◌, none, some, List, [], ◌∷◌, codes, bytes_eq,
}
use mathlib.Core.List.{Mem, Memᴰ, Perm}
use mathlib.Core.List.Perm
use developer_certificates.Common.Int.{ℤ, pos}
use developer_certificates.AppId.{validate_strict}
use developer_certificates.AppId.Grammar.{IsAppId, validate_strict_iff}
use developer_certificates.Clock.{Time}
use developer_certificates.Effects.{ok, err, errorf, pure, fail, context, ◌>>=◌}
use developer_certificates.Effects.Keep.{ok_inj}
use developer_certificates.GitHub.Fake.{Client}
use developer_certificates.GitHub.Rest.Transport.{Http}
use developer_certificates.Ledger.{Certificate, Ledger, status_active, status_revoked, load}
use developer_certificates.Crl.{entries, build}
use developer_certificates.Crl.Entries.{Ordered}
use developer_certificates.Crl.Listed.{IsKept, build-revoked}
use developer_certificates.Signer.{format_serial}
use developer_certificates.Crl.Load.{load_all, load_paths, load_globbed, load_dir}
use developer_certificates.Runtime.{Runtime}
use developer_certificates.Signer.Pem
use developer_certificates.Signer.Keys.{public_equal, is_p384}
use developer_certificates.X509.{RevocationList, RevocationListEntry}
use developer_certificates.Cmd.Config.{configured, with_pem, load_cert, parse_cert, pem_config}
use developer_certificates.Cmd.Crlgen.{Disk, ledger_dir, new_signer, deliver, write_local, run}
use developer_certificates.Cmd.Crlgen.Complete.{Regenerated, run-Regenerated}
use developer_certificates.Tests.Backends.{crypto, pem_rt, vault, files}
use developer_certificates.Tests.Commands.{env}
use developer_certificates.Tests.Data.{codec, gone, ledger, hub}

abbrev one_gone : Ledger
one_gone = record ledger { certificates = gone ∷ [] }

abbrev run_rt : Runtime
run_rt = record pem_rt { codec = record codec { decode = λ _. ok one_gone } }

-- No token is set, so that nothing is sent.
abbrev http : Http Client
http = record {
  new_request = λ m u. none;
  send = λ r. fail (errorf []);
  marshal = λ p. ok [];
  unmarshal_issues = λ s. ok [];
  unmarshal_comments = λ s. ok [];
  unmarshal_contents = λ s. err (errorf []);
  decode_base64 = λ s. ok s;
  encode_base64 = λ s. s;
  path_escape = λ s. s;
}

abbrev disk : Disk Client
disk = record { mkdir_all = λ dir. pure tt; write_file = λ path content. pure tt }

abbrev clock : Client → Time × Client
clock c = (300, c)

abbrev as_is : List RevocationListEntry → List RevocationListEntry
as_is es = es

abbrev listed : RevocationListEntry
listed = record { serial_number = pos 31; revocation_time = 150 }

loads : load_all run_rt.codec files ledger_dir ≡ ok (one_gone ∷ [])
unfolding load_all load_dir load_globbed load load_paths validate_strict codes bytes_eq
    status_active status_revoked
loads = refl

collects : entries run_rt.codec.quote (one_gone ∷ []) ≡ ok (listed ∷ [])
unfolding entries codes bytes_eq status_revoked
collects = refl

sorts :
    (ls : List Ledger) (es : List RevocationListEntry)
    → load_all run_rt.codec files ledger_dir ≡ ok ls
    → entries run_rt.codec.quote ls ≡ ok es
    → Perm es (as_is es) × Ordered (as_is es)
sorts ls es loaded h =
    let same : one_gone ∷ [] ≡ ls = ok_inj (sym loads ∙ loaded) in
    (
      Perm.refl es,
      subst Ordered (ok_inj (sym collects ∙ (ap (entries run_rt.codec.quote) same ∙ h))) tt,
    )

succeeds : (run run_rt env crypto vault http clock files disk as_is hub).0 ≡ ok tt
unfolding run new_signer configured with_pem pem_config load_cert parse_cert Pem.new Pem.with_issuer
    Pem.check_key Pem.parse_ec_key Pem.key_of_block Pem.check_public public_equal is_p384 bytes_eq
    codes load_all load_dir load_globbed load validate_strict status_revoked entries build deliver
    write_local Pem.pem_signer Pem.sign_crl ◌>>=◌ context load_paths status_active
succeeds = refl

run-Regenerated_example :
    Regenerated run_rt env crypto vault http clock files disk as_is 300
      (run run_rt env crypto vault http clock files disk as_is hub)
run-Regenerated_example =
    run-Regenerated run_rt env crypto vault http clock files disk as_is hub
      (λ paths. Perm.refl paths) sorts succeeds

spelled : gone.serial ≡ format_serial (pos 31)
unfolding format_serial codes
spelled = refl

marked : gone.status ≡ status_revoked
unfolding status_revoked codes
marked = refl

legal : IsAppId one_gone.app_id
unfolding validate_strict codes
legal = ((validate_strict_iff one_gone.app_id one_gone.app_id).0 refl).1

one_gone-IsKept : IsKept one_gone
one_gone-IsKept = (
  record { named = legal; statuses = (inr (marked, λ undated. cc undated), tt) },
  ((pos 31, spelled), tt),
)

build-revoked_example :
    (rl : RevocationList) × (build run_rt.codec.quote as_is (one_gone ∷ []) 300 ≡ ok rl)
    × ((l : Ledger) (c : Certificate) (serial : ℤ)
        → Memᴰ l (one_gone ∷ [])
        → Memᴰ c l.certificates
        → c.status ≡ status_revoked
        → c.serial ≡ format_serial serial
        → (e : RevocationListEntry) × Mem e rl.revoked_certificate_entries
          × (e.serial_number ≡ serial)
          × (c.revoked_from ≡ some e.revocation_time))
build-revoked_example =
    build-revoked run_rt.codec.quote as_is (one_gone ∷ []) 300 (λ es h. Perm.refl es)
      (one_gone-IsKept, tt)
