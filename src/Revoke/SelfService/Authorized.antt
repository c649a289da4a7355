-- ===== src/Revoke/SelfService/Authorized.antt =====
-- A poll of the revocation bot keeps what the quiet calls keep, or has verified the holder's request.
use developer_certificates.Common.{
  ℕ, ◌≡◌, ◌⊎◌, inl, inr, refl, sym, ◌∙◌, false, Bool-cases, Option, some, Option-cases, List, Bytes,
  bytes_eq,
}
use developer_certificates.AppId.{canonicalize}
use developer_certificates.Effects.{⊤, Result, ok, err, Result-cases, is_invalid_cms}
use developer_certificates.Effects.Keep.{
  Keeps, >>=-cases, >>=-Keeps, attempt-Keeps, context-Keeps, attempt-step,
}
use developer_certificates.GitHub.{Issue}
use developer_certificates.Ledger.{Ledger, Certificate, status_revoked}
use developer_certificates.Runtime.{Runtime}
use developer_certificates.Signer.{fingerprint}
use developer_certificates.Revoke.Apply.{target, load_ledger}
use developer_certificates.Revoke.Find.{find_by_fingerprint}
use developer_certificates.Revoke.Messages.{label_revoked}
use developer_certificates.Revoke.SelfService.{
  Deps, CmsResult, parse_form, has_label, terminal, revoke, judge_target, match_loaded, match_cert,
  check_name, check_signer, judge_cms, check_cms, check_form, process,
}

-- `I` outlives every read, comment and label, the closing of an issue and the verification. Of
-- writing a ledger or a file nothing is said.
pub record IsQuiet {W : Type 0} (d : Deps W) (I : W → Type 0) : Type 0 where
  pub post_comment : (n : ℕ) (body : Bytes) → Keeps I (d.gh.post_comment n body)
  pub set_labels : (n : ℕ) (add remove : List Bytes) → Keeps I (d.gh.set_labels n add remove)
  pub close_issue : (n : ℕ) → Keeps I (d.gh.close_issue n)
  pub get_ledger : (app_id : Bytes) → Keeps I (d.gh.get_ledger app_id)
  pub verify : (cms : Bytes) → Keeps I (d.verify cms)

module _ {W : Type 0} (rt : Runtime) (d : Deps W) (issue : Issue) (I : W → Type 0) where
  -- The ledger lists the certificate and does not have it revoked, and the rest of the run is its
  -- revocation, from a world where `I` holds.
  pub record Revokes (app_id fp : Bytes) (out : Result ⊤ × W) : Type 0 where
    pub l : Option Ledger
    pub prev_sha : Bytes
    pub listed : Ledger × ℕ × Certificate
    pub before : W
    pub at : W
    pub loaded : load_ledger rt.codec d.gh app_id before ≡ (ok (l, prev_sha), at)
    pub found : target (λ lg. find_by_fingerprint lg fp) l ≡ some listed
    pub active : bytes_eq listed.2.status status_revoked ≡ false
    pub keeps : I at
    pub runs : out ≡ revoke rt d issue app_id fp l prev_sha listed.2 at

  -- The request in the issue is verified, and its signer's certificate is the one that is revoked.
  pub record Authorized (out : Result ⊤ × W) : Type 0 where
    pub cms : Bytes
    pub res : CmsResult
    pub app_id : Bytes
    pub asked : W
    pub unfinished : has_label issue.labels label_revoked ≡ false
    pub formed : parse_form issue.body ≡ ok cms
    pub verified : (d.verify cms asked).0 ≡ ok res
    pub named : canonicalize res.signer_cert.common_name ≡ ok app_id
    pub revokes : Revokes app_id (fingerprint rt res.signer_cert.raw) out

  module _ (q : IsQuiet d I) where
    terminal-Keeps : (label comment : Bytes) → Keeps I (terminal rt d issue label comment)
    unfolding terminal
    terminal-Keeps label comment =
        >>=-Keeps I _ _ (context-Keeps I _ _ (q.post_comment issue.number comment))
          (λ _. q.set_labels issue.number _ _)

    load_ledger-Keeps : (app_id : Bytes) → Keeps I (load_ledger rt.codec d.gh app_id)
    unfolding load_ledger
    load_ledger-Keeps app_id =
        attempt-Keeps I (d.gh.get_ledger app_id) _ (q.get_ledger app_id) (λ r w i. i)

    match_loaded-cases :
        (app_id fp : Bytes) (l : Option Ledger × Bytes) (w : W)
        → I w
        → I (match_loaded rt d issue app_id fp l w).1
          ⊎ ((t : Ledger × ℕ × Certificate) × (target (λ lg. find_by_fingerprint lg fp) l.0
                ≡ some t)
              × (bytes_eq t.2.status status_revoked ≡ false)
              × (match_loaded rt d issue app_id fp l w ≡ revoke rt d issue app_id fp l.0 l.1 t.2 w))
    unfolding match_loaded judge_target
    match_loaded-cases app_id fp l w i =
        elim (Option-cases (target (λ lg. find_by_fingerprint lg fp) l.0)) [
          | inl lost ↦ inl (rw (lost, judge_target) (terminal-Keeps _ _ w i))
          | inr (t, found) ↦ elim (Bool-cases (bytes_eq t.2.status status_revoked)) [
            | inl done ↦ inl (
                rw (found, judge_target, done)
                  (>>=-Keeps I _ _ (terminal-Keeps _ _) (λ _. q.close_issue issue.number) w i))
            | inr active ↦ inr (t, found, active, rw (found, judge_target, active) refl)
          ]
        ]

    match_cert-cases :
        (app_id fp : Bytes) (w : W)
        → I w
        → I (match_cert rt d issue app_id fp w).1
          ⊎ Revokes app_id fp (match_cert rt d issue app_id fp w)
    unfolding match_cert
    match_cert-cases app_id fp w i =
        let load = load_ledger rt.codec d.gh app_id in
        let kept = load_ledger-Keeps app_id w i in
        elim (>>=-cases load (match_loaded rt d issue app_id fp) w) [
          | inr (e, _, runs) ↦ inl (rw runs kept)
          | inl (l, found, runs) ↦ elim (match_loaded-cases app_id fp l (load w).1 kept) [
            | inl still ↦ inl (rw runs still)
            | inr (t, listed, active, goes) ↦ inr record {
              l = l.0;
              prev_sha = l.1;
              listed = t;
              before = w;
              at = (load w).1;
              loaded = λ j. (found j, (load w).1);
              found = listed;
              active = active;
              keeps = kept;
              runs = runs ∙ goes;
            }
          ]
        ]

    judge_cms-cases :
        (r : Result CmsResult) (w : W)
        → I w
        → I (judge_cms rt d issue r w).1
          ⊎ ((res : CmsResult) × (app_id : Bytes) × (r ≡ ok res)
              × (canonicalize res.signer_cert.common_name ≡ ok app_id)
              × Revokes app_id (fingerprint rt res.signer_cert.raw) (judge_cms rt d issue r w))
    unfolding judge_cms check_signer check_name
    judge_cms-cases (err e) w i = elim (Bool-cases (is_invalid_cms e)) [
      | inl invalid ↦ inl (rw invalid (terminal-Keeps _ _ w i))
      | inr other ↦ inl (rw other i)
    ]
    judge_cms-cases (ok res) w i = elim (Result-cases (canonicalize res.signer_cert.common_name)) [
      | inr (e, bad) ↦ inl (rw (bad, check_name) (terminal-Keeps _ _ w i))
      | inl (app_id, named) ↦
          rw (named, check_name)
            elim (match_cert-cases app_id (fingerprint rt res.signer_cert.raw) w i) [
              | inl kept ↦ inl kept
              | inr revokes ↦ inr (res, app_id, refl, named, revokes)
            ]
    ]

    check_form-cases :
        (r : Result Bytes) (w : W)
        → (r ≡ parse_form issue.body)
        → has_label issue.labels label_revoked ≡ false
        → I w
        → I (check_form rt d issue r w).1 ⊎ Authorized (check_form rt d issue r w)
    unfolding check_form check_cms
    check_form-cases (err e) w from fresh i = inl (terminal-Keeps _ _ w i)
    check_form-cases (ok cms) w from fresh i =
        rw (attempt-step (d.verify cms) (judge_cms rt d issue) w)
          elim (judge_cms-cases (d.verify cms w).0 (d.verify cms w).1 (q.verify cms w i)) [
            | inl kept ↦ inl kept
            | inr (res, app_id, verified, named, revokes) ↦ inr record {
              cms = cms;
              res = res;
              app_id = app_id;
              asked = w;
              unfinished = fresh;
              formed = sym from;
              verified = verified;
              named = named;
              revokes = revokes;
            }
          ]

    -- For any property `I` of the world that the quiet calls keep, a poll from a world where `I` holds
    -- either leaves a world where it holds, or it is the revocation of a certificate whose holder has
    -- asked for it: the request in the issue was verified, and the certificate of its signer is the
    -- one that the ledger lists under its fingerprint, and is not revoked yet.
    pub process-Authorized :
        (w : W) → I w → I (process rt d issue w).1 ⊎ Authorized (process rt d issue w)
    unfolding process
    process-Authorized w i = elim (Bool-cases (has_label issue.labels label_revoked)) [
      | inl done ↦ inl (rw done i)
      | inr fresh ↦ rw fresh (check_form-cases _ w refl fresh i)
    ]
