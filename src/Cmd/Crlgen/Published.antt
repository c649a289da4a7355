-- ===== src/Cmd/Crlgen/Published.antt =====
-- What the publication of the list leaves on the in-memory hub.
use developer_certificates.Common.{
  ◌≡◌, refl, ap, ◌∙◌, false, Option, none, some, [], Bytes, codes, ◌++◌, bytes_eq_refl, arith,
}
use developer_certificates.Effects.{Result, ok, context, lift, ◌>>=◌}
use developer_certificates.Effects.Keep.{attempt-step, >>=-step, context-step}
use developer_certificates.GitHub.{err_not_found}
use developer_certificates.GitHub.Fake.{
  Blob, Client, client, file_key, get_file, put_file, get_blob, check_prev_sha, is_stale, set_file,
  mint_sha,
}
use developer_certificates.Cmd.Crlgen.{publish_crl, published_sha, crl_path}

get_file-files :
    (repo : Bytes) (c : Client)
    → c.inaccessible_repos repo ≡ false
    → get_file repo crl_path c ≡ (get_blob (c.files (file_key repo crl_path)), c)
unfolding get_file
get_file-files repo c visible = rw (visible, get_file) refl

put_file-set_file :
    (repo der sha message : Bytes) (c : Client)
    → c.fail_next_put_with_conflict ≡ false
    → is_stale (c.files (file_key repo crl_path)) sha ≡ false
    → put_file repo crl_path der sha message c ≡ (ok tt, set_file repo crl_path der c)
unfolding put_file check_prev_sha
put_file-set_file repo der sha message c calm fresh = ground arith

publish_crl-step :
    (repo der sha : Bytes) (c : Client)
    → c.inaccessible_repos repo ≡ false
    → c.fail_next_put_with_conflict ≡ false
    → published_sha (get_blob (c.files (file_key repo crl_path))) ≡ ok sha
    → is_stale (c.files (file_key repo crl_path)) sha ≡ false
    → publish_crl client repo der c ≡ (ok tt, set_file repo crl_path der c)
unfolding publish_crl client
publish_crl-step repo der sha c visible calm known fresh =
    let message = codes "chore: regenerate crl/developers.crl" in
    let put = λ (s : Bytes).
      context (codes "crlgen: publish " ++ crl_path) (put_file repo crl_path der s message) in
    let go = λ (r : Result (Bytes × Bytes)). lift (published_sha r) >>= put in
    attempt-step (get_file repo crl_path) go c
    ∙ (ap (λ r. go r.0 r.1) (get_file-files repo c visible)
        ∙ (>>=-step (lift (published_sha (get_blob (c.files (file_key repo crl_path))))) put c c
              (λ i. (known i, c))
            ∙ context-step (codes "crlgen: publish " ++ crl_path)
                (put_file repo crl_path der sha message) c (set_file repo crl_path der c)
                (put_file-set_file repo der sha message c calm fresh)))

-- What is there to replace, and that its SHA is the current one.
known_sha :
    (b : Option Blob)
    → (sha : Bytes) × (published_sha (get_blob b) ≡ ok sha) × (is_stale b sha ≡ false)
unfolding published_sha get_blob is_stale err_not_found
known_sha none = ([], refl, refl)
known_sha (some b) = (b.sha, refl, rw (bytes_eq_refl b.sha) refl)

set_file-get_file :
    (repo der : Bytes) (c : Client)
    → c.inaccessible_repos repo ≡ false
    → (get_file repo crl_path (set_file repo crl_path der c)).0 ≡ ok (der, (mint_sha c).0)
unfolding get_file set_file get_blob mint_sha
set_file-get_file repo der c visible = rw (visible, bytes_eq_refl (file_key repo crl_path)) refl

-- Over the in-memory hub, in a repository that the bot can see and with no conflict asked for, the
-- publication succeeds, whether or not a list is there already, and the list that is read from the
-- repository afterwards is the new one, under the next SHA.
pub publish_crl_lem :
    (repo der : Bytes) (c : Client)
    → c.inaccessible_repos repo ≡ false
    → c.fail_next_put_with_conflict ≡ false
    → ((publish_crl client repo der c).0 ≡ ok tt)
      × ((get_file repo crl_path (publish_crl client repo der c).1).0 ≡ ok (der, (mint_sha c).0))
publish_crl_lem repo der c visible calm =
    let (sha, known, fresh) = known_sha (c.files (file_key repo crl_path)) in
    rw (publish_crl-step repo der sha c visible calm known fresh)
      (refl, set_file-get_file repo der c visible)
