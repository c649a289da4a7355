-- ===== src/Tests/Service.antt =====
-- The theorems on the log of ledgers, over a store whose SHAs are the texts behind a byte.
use developer_certificates.Common.{
  ◌≡◌, refl, ◌∙◌, Bool, false, inl, some, none, [], ◌∷◌, List, Bytes, codes,
}
use developer_certificates.Decimal.{decimal}
use developer_certificates.Effects.{ok, pure, context, ◌>>=◌, ◌>>◌}
use developer_certificates.Effects.Keep.{>>=-step}
use developer_certificates.GitHub.Fake.{is_stale}
use developer_certificates.CertTemplate.{
  leaf, check_inputs, is_nil, random_serial, rand_int, big_endian,
}
use developer_certificates.Ledger.{Certificate, marshal, origin_github, status_active}
use developer_certificates.Runtime.{Runtime}
use developer_certificates.Text.{hex_encode}
use developer_certificates.X509
use developer_certificates.AppId.Grammar.{IsAppId, validate_strict_iff}
use developer_certificates.AppId.{validate_strict}
use developer_certificates.Signer.{format_serial, fingerprint}
use developer_certificates.Enroll.Form.{owner_of}
use developer_certificates.Enroll.Issuance.{issue_certificate, mint, owner, entry, deliver}
use developer_certificates.Enroll.Ledgers.{
  commit_ledger, commit_from, write_extended, after_write, extended, new_ledger,
}
use developer_certificates.Enroll.Process
use developer_certificates.Revoke.Privileged.{PrivilegedRequest, privileged_process}
use developer_certificates.Cmd.Batch.{run_all}
use developer_certificates.Bots.Growth.{more}
use developer_certificates.Bots.History.{IsLedgerStore, History, Listed}
use developer_certificates.Bots.History.Issuer.{IsOutlived, issue_certificate-History}
use developer_certificates.Bots.History.Service.{
  Parts, issuing, revoking, start, later, issuer, revoker, privrevoke, Commands-Lossless,
}
use developer_certificates.Revoke.SelfService.Authorized.{IsQuiet}
use developer_certificates.Revoke.SelfService
use developer_certificates.Tests.Data.{app_id, rt, repo, issue, form, key, ones}
use developer_certificates.Tests.Data
use developer_certificates.Tests.Interleaving.{
  Texts, texts_gh, texts_view, texts_gh-IsVersioned, hash, hash-IsHash, addressed, trips,
  small_codec, empty_store, with_one, one, encoded_one,
}

abbrev served : Runtime
served = record rt { codec = small_codec }

abbrev parts : Parts Texts
parts = record {
  gh = texts_gh;
  signer = record {
    issuer_certificate = Data.issuer;
    sign = λ tmpl k. pure (2 ∷ []);
    sign_crl = λ rl. pure [];
  };
  clock = λ w. (300, w);
  rand = λ n w. (ok (ones n), w);
  rounds = 1;
  verify = λ cms. pure (record { signer_cert = Data.issuer; content = [] });
}

store : IsLedgerStore small_codec texts_gh texts_view
store = record {
  Named = λ _. Unit;
  names = λ id legal. tt;
  versioned = texts_gh-IsVersioned;
  hash = hash;
  is_hash = hash-IsHash;
  addressed = addressed;
}

outlived :
    (base : Bytes → List Certificate)
    → IsOutlived (issuing parts) (History small_codec texts_view base)
unfolding texts_gh
outlived base = record {
  quiet = record {
    own_comments = λ n w i. i;
    post_comment = λ n body w i. i;
    set_labels = λ n add remove w i. i;
    get_file = λ repo path w i. i;
    repo_accessible = λ repo w i. i;
    get_ledger = λ id w i. i;
    clock = λ w i. i;
    rand = λ n w i. i;
  };
  sign = λ tmpl k w i. i;
  close_issue = λ n w i. i;
}

quiet :
    (base : Bytes → List Certificate)
    → IsQuiet (revoking parts) (History small_codec texts_view base)
unfolding texts_gh
quiet base = record {
  post_comment = λ n body w i. i;
  set_labels = λ n add remove w i. i;
  close_issue = λ n w i. i;
  get_ledger = λ id w i. i;
  verify = λ cms w i. i;
}

legal : IsAppId app_id
unfolding validate_strict codes
legal = ((validate_strict_iff app_id app_id).0 refl).1

abbrev nothing : Bytes → List Certificate
nothing k = []

nothing_yet : History small_codec texts_view nothing empty_store
nothing_yet k = ([], inl (refl, refl), more)

issue_certificate-History_example :
    let out = issue_certificate served (issuing parts) issue form app_id key none [] empty_store in
    History small_codec texts_view nothing out.1
    × (out.0 ≡ ok tt
        → (der : Bytes) × (cert : X509.Certificate) × ((mint served
              (issuing parts)
              form
              app_id
              key
              empty_store).0
            ≡ ok (der, cert))
          × Listed small_codec texts_view app_id false (format_serial cert.serial_number) out.1)
issue_certificate-History_example =
    issue_certificate-History served (issuing parts) texts_view store trips issue outlived nothing
      form app_id key none [] empty_store empty_store legal (inl (refl, refl, refl)) nothing_yet

recorded :
    extended app_id repo 300 (entry served (issuing parts) issue (2 ∷ []) Data.issuer) none ≡ one
unfolding entry extended new_ledger codes format_serial fingerprint hex_encode decimal origin_github
    status_active
recorded = refl

leaf_minted :
    mint served (issuing parts) form app_id key empty_store
    ≡ (ok (2 ∷ [], Data.issuer), empty_store)
unfolding mint codes ◌>>=◌ owner owner_of context leaf check_inputs validate_strict is_nil
    random_serial rand_int big_endian
leaf_minted = refl

committed :
    commit_ledger small_codec texts_gh parts.clock app_id repo
      (entry served (issuing parts) issue (2 ∷ []) Data.issuer)
      none
      []
      empty_store
    ≡ (ok tt, with_one)
unfolding commit_ledger commit_from write_extended ◌>>=◌ context marshal after_write texts_gh
    is_stale small_codec
committed = rw (recorded, encoded_one) refl

-- It does succeed there.
issued :
    issue_certificate served (issuing parts) issue form app_id key none [] empty_store
    ≡ (ok tt, with_one)
unfolding issue_certificate deliver texts_gh ◌>>=◌ context
issued =
    >>=-step (mint served (issuing parts) form app_id key)
      (λ m.
        commit_ledger small_codec texts_gh parts.clock app_id repo
          (entry served (issuing parts) issue m.0 m.1) none []
        >> deliver served (issuing parts) issue app_id m.0)
      empty_store empty_store leaf_minted
    ∙ >>=-step
        (commit_ledger small_codec texts_gh parts.clock app_id repo
          (entry served (issuing parts) issue (2 ∷ []) Data.issuer) none [])
        (λ _. deliver served (issuing parts) issue app_id (2 ∷ [])) empty_store with_one committed

abbrev lost : PrivilegedRequest
lost = record {
  app_id = app_id;
  serial = codes "0x1";
  reason = codes "lost";
  revoked_from = some 150;
  actor = codes "admin";
}

-- The issuer polls, the revocation bot polls, and an operator revokes.
abbrev first : Texts
first = (run_all (Process.process served (issuing parts)) (issue ∷ []) empty_store).1

abbrev second : Texts
second = (run_all (SelfService.process served (revoking parts)) (issue ∷ []) first).1

abbrev third : Texts
third = (privileged_process served texts_gh lost second).1

Commands-Lossless_example :
    History small_codec texts_view nothing third
    × ((id : Bytes) (must : Bool) (serial : Bytes)
        → Listed small_codec texts_view id must serial empty_store
        → Listed small_codec texts_view id must serial third)
Commands-Lossless_example =
    Commands-Lossless served parts texts_view store trips outlived quiet nothing
      (later (later (later start (issuer (issue ∷ []))) (revoker (issue ∷ []))) (privrevoke lost))
      nothing_yet
