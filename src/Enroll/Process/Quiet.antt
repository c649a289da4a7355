-- ===== src/Enroll/Process/Quiet.antt =====
-- The steps of the issuer bot that mint nothing and write to no ledger.
use developer_certificates.Common.{ℕ, some, List, Bytes}
use developer_certificates.Challenge.{generate}
use developer_certificates.Effects.Keep.{Keeps, >>=-Keeps, attempt-Keeps, context-Keeps}
use developer_certificates.GitHub.{Issue}
use developer_certificates.Runtime.{Runtime}
use developer_certificates.Enroll.Form.{Form}
use developer_certificates.Enroll.Issuance.{Deps}
use developer_certificates.Enroll.Ledgers.{load_ledger}
use developer_certificates.Enroll.Process.{
  terminal, prior_challenge, post_challenge, explain_missing,
}

-- `J` outlives what a request is judged by: the comments, the files and the ledgers that are read, and
-- the clock.
pub record IsRead {ℓ} {W : Type 0} (d : Deps W) (J : W → Type ℓ) : Type ℓ where
  pub own_comments : (n : ℕ) → Keeps J (d.gh.own_comments n)
  pub get_file : (repo path : Bytes) → Keeps J (d.gh.get_file repo path)
  pub get_ledger : (app_id : Bytes) → Keeps J (d.gh.get_ledger app_id)
  pub clock : (w : W) → J w → J (d.clock w).1

-- `I` outlives every read, every comment and label, the clock and the randomness. Of signing, of
-- writing a ledger or a file, and of closing an issue, nothing is said.
pub record IsQuiet {ℓ} {W : Type 0} (d : Deps W) (I : W → Type ℓ) : Type ℓ where
  pub own_comments : (n : ℕ) → Keeps I (d.gh.own_comments n)
  pub post_comment : (n : ℕ) (body : Bytes) → Keeps I (d.gh.post_comment n body)
  pub set_labels : (n : ℕ) (add remove : List Bytes) → Keeps I (d.gh.set_labels n add remove)
  pub get_file : (repo path : Bytes) → Keeps I (d.gh.get_file repo path)
  pub repo_accessible : (repo : Bytes) → Keeps I (d.gh.repo_accessible repo)
  pub get_ledger : (app_id : Bytes) → Keeps I (d.gh.get_ledger app_id)
  pub clock : (w : W) → I w → I (d.clock w).1
  pub rand : (n : ℕ) → Keeps I (d.rand n)

pub IsQuiet-IsRead : {W : Type 0} {d : Deps W} {I : W → Type 0} → IsQuiet d I → IsRead d I
IsQuiet-IsRead q = record {
  own_comments = q.own_comments;
  get_file = q.get_file;
  get_ledger = q.get_ledger;
  clock = q.clock;
}

module _ {ℓ} {W : Type 0} (rt : Runtime) (d : Deps W) (issue : Issue) (I : W → Type ℓ)
    (q : IsRead d I) where
  pub prior_challenge-Keeps : Keeps I (prior_challenge rt d issue)
  unfolding prior_challenge
  prior_challenge-Keeps =
      >>=-Keeps I _ _ (context-Keeps I _ _ (q.own_comments issue.number)) (λ comments w i. i)

  pub load_ledger-Keeps : (app_id : Bytes) → Keeps I (load_ledger rt.codec d.gh app_id)
  unfolding load_ledger
  load_ledger-Keeps app_id =
      attempt-Keeps I (d.gh.get_ledger app_id) _ (q.get_ledger app_id) (λ r w i. i)

module _ {ℓ} {W : Type 0} (rt : Runtime) (d : Deps W) (issue : Issue) (I : W → Type ℓ)
    (q : IsQuiet d I) where
  pub terminal-Keeps : (label comment : Bytes) → Keeps I (terminal rt d issue label comment)
  unfolding terminal
  terminal-Keeps label comment =
      >>=-Keeps I _ _ (context-Keeps I _ _ (q.post_comment issue.number comment))
        (λ _. q.set_labels issue.number _ _)

  generate-Keeps : Keeps I (generate d.rand (some d.rand))
  unfolding generate
  generate-Keeps = >>=-Keeps I _ _ (context-Keeps I _ _ (q.rand 32)) (λ b w i. i)

  pub post_challenge-Keeps : Keeps I (post_challenge rt d issue)
  unfolding post_challenge
  post_challenge-Keeps = >>=-Keeps I _ _ (context-Keeps I _ _ generate-Keeps) (λ nonce.
      >>=-Keeps I _ _ (context-Keeps I _ _ (q.post_comment issue.number _))
        (λ _. q.set_labels issue.number _ _))

  pub explain_missing-Keeps : (f : Form) → Keeps I (explain_missing rt d issue f)
  unfolding explain_missing
  explain_missing-Keeps f =
      >>=-Keeps I _ _ (context-Keeps I _ _ (q.repo_accessible f.repo))
        (λ accessible. terminal-Keeps _ _)
