-- ===== src/Enroll/Process/Stages.antt =====
-- Each stage of the issuer bot keeps what the quiet calls keep, or has cleared the request.
use developer_certificates.Common.{
  ◌≡◌, ◌⊎◌, inl, inr, refl, ◌∙◌, true, false, Option, none, some, List, Bytes, Bool-cases, arith,
}
use developer_certificates.Clock.{Time}
use developer_certificates.Challenge.{file_path, expired, match}
use developer_certificates.Effects.{⊤, Result, ok, err, is_not_found, pure}
use developer_certificates.Effects.Keep.{
  >>=-cases, >>=-eq-ok, attempt-step, always-step, context-eq-ok,
}
use developer_certificates.GitHub.{Issue, Comment}
use developer_certificates.Ledger.{Ledger, Decision, decide}
use developer_certificates.Ledger.Ownership.{IsOpenTo, decide_passes_iff}
use developer_certificates.Runtime.{Runtime}
use developer_certificates.X509.{CertificateRequest}
use developer_certificates.Enroll.Form.{Form}
use developer_certificates.Enroll.Issuance.{Deps, issue_certificate}
use developer_certificates.Enroll.Ledgers.{load_ledger}
use developer_certificates.Enroll.Process.{
  latest, prior_challenge, decided, claim, judge_file, check_file, check_window, judge_prior,
  check_challenge,
}
use developer_certificates.Enroll.Process.Cleared.{Mints, HoldsNonce, InTime, Proven}
use developer_certificates.Enroll.Process.Quiet.{
  IsQuiet, IsRead, IsQuiet-IsRead, terminal-Keeps, prior_challenge-Keeps, post_challenge-Keeps,
  load_ledger-Keeps,
}

-- What the bot has read when it knows of a prior challenge, or of none.
pub prior_challenge-eq-ok :
    {W : Type 0} (rt : Runtime) (d : Deps W) (issue : Issue) (w : W) (found : Option (Bytes × Time))
    → (prior_challenge rt d issue w).0 ≡ ok found
    → (comments : List Comment) × ((d.gh.own_comments issue.number w).0 ≡ ok comments)
      × (latest none comments ≡ found)
unfolding prior_challenge
prior_challenge-eq-ok rt d issue w found e =
    let (comments, read, _, last) = >>=-eq-ok _ (λ cs. pure (latest none cs)) w found e in
    (comments, context-eq-ok _ (d.gh.own_comments issue.number) w read, ground arith)

module _ {W : Type 0} (rt : Runtime) (d : Deps W) (issue : Issue) (I J : W → Type 0)
    (q : IsQuiet d I) (reads : IsRead d J) where
  decided-cases :
      (f : Form) (req : CertificateRequest) (app_id : Bytes) (l : Option Ledger × Bytes) (w : W)
      → I w
      → J w
      → I (decided rt d issue f req app_id l w).1
        ⊎ (IsOpenTo f.repo l.0
            × (decided rt d issue f req app_id l w
                ≡ issue_certificate rt d issue f app_id req.public_key l.0 l.1 w))
  unfolding decided
  decided-cases f req app_id l w i j = go (decide l.0 f.repo) refl
    where
      go :
          (x : Decision)
          → decide l.0 f.repo ≡ x
          → I (decided rt d issue f req app_id l w).1
            ⊎ (IsOpenTo f.repo l.0
                × (decided rt d issue f req app_id l w
                    ≡ issue_certificate rt d issue f app_id req.public_key l.0 l.1 w))
      go Decision.rejected_reserved e =
          inl (rw (e, decided) (terminal-Keeps rt d issue I q _ _ w i))
      go Decision.rejected_mismatch e =
          inl (rw (e, decided) (terminal-Keeps rt d issue I q _ _ w i))
      go Decision.new_claim e = inr ((decide_passes_iff l.0 f.repo).0 (inl e), rw (e, decided) refl)
      go Decision.allowed e = inr ((decide_passes_iff l.0 f.repo).0 (inr e), rw (e, decided) refl)

  -- A step of the run, to a run that keeps `I` or has the evidence `A`.
  carry : {A B : Type 0} {x y : Result ⊤ × W} → x ≡ y → I y.1 ⊎ A → (A → B) → I x.1 ⊎ B
  carry e (inl k) f = inl (rw e k)
  carry e (inr a) f = inr (f a)

  claim-cases :
      (f : Form) (req : CertificateRequest) (app_id : Bytes) (w : W)
      → I w
      → J w
      → I (claim rt d issue f req app_id w).1
        ⊎ Mints rt d issue I J f req app_id (claim rt d issue f req app_id w)
  unfolding claim
  claim-cases f req app_id w i j =
      let load = load_ledger rt.codec d.gh app_id in
      let kept = load_ledger-Keeps rt d issue I (IsQuiet-IsRead q) app_id w i in
      let seen = load_ledger-Keeps rt d issue J reads app_id w j in
      elim (>>=-cases load (decided rt d issue f req app_id) w) [
        | inl (l, found, runs) ↦ carry runs (decided-cases f req app_id l (load w).1 kept seen) λ e.
            record {
              existing = l.0;
              prev_sha = l.1;
              before = w;
              read_at = j;
              at = (load w).1;
              loaded = λ k. (found k, (load w).1);
              open_to = e.0;
              keeps = kept;
              runs = runs ∙ e.1;
            }
        | inr (bad, _, runs) ↦ inl (rw runs kept)
      ]

  judge_file-cases :
      (f : Form) (req : CertificateRequest) (app_id nonce : Bytes) (r : Result (Bytes × Bytes))
      (w : W)
      → I w
      → J w
      → I (judge_file rt d issue f req app_id nonce r w).1
        ⊎ ((file : Bytes × Bytes) × (r ≡ ok file)
            × (match nonce file.0 ≡ true)
            × Mints rt d issue I J f req app_id (judge_file rt d issue f req app_id nonce r w))
  unfolding judge_file
  judge_file-cases f req app_id nonce (err e) w i j = elim (Bool-cases (is_not_found e)) [
    | inl absent ↦ inl (rw absent i)
    | inr other ↦ inl (rw other i)
  ]
  judge_file-cases f req app_id nonce (ok file) w i j = elim (Bool-cases (match nonce file.0)) [
    | inl good ↦ rw good elim (claim-cases f req app_id w i j) [
      | inl kept ↦ inl kept
      | inr c ↦ inr (file, refl, good, c)
    ]
    | inr bad ↦ inl (rw bad i)
  ]

  check_file-cases :
      (f : Form) (req : CertificateRequest) (app_id nonce : Bytes) (w : W)
      → I w
      → J w
      → I (check_file rt d issue f req app_id nonce w).1
        ⊎ HoldsNonce rt d issue I J f req app_id nonce (check_file rt d issue f req app_id nonce w)
  unfolding check_file
  check_file-cases f req app_id nonce w i j =
      let get = d.gh.get_file f.repo file_path in
      rw (attempt-step get (judge_file rt d issue f req app_id nonce) w)
        elim (judge_file-cases f req app_id nonce (get w).0 (get w).1
          (q.get_file f.repo file_path w i) (reads.get_file f.repo file_path w j)) [
            | inl kept ↦ inl kept
            | inr (file, got, good, c) ↦ inr record {
              file = file;
              asked = w;
              read_at = j;
              fetched = got;
              matched = good;
              mints = c;
            }
          ]

  check_window-cases :
      (f : Form) (req : CertificateRequest) (app_id : Bytes) (prior : Bytes × Time) (now : Time)
      (w : W)
      → I w
      → J w
      → I (check_window rt d issue f req app_id prior now w).1
        ⊎ ((expired prior.1 now ≡ false)
            × HoldsNonce rt d issue I J f req app_id prior.0
                (check_window rt d issue f req app_id prior now w))
  unfolding check_window
  check_window-cases f req app_id (nonce, posted_at) now w i j =
      elim (Bool-cases (expired posted_at now)) [
        | inl late ↦ inl (rw late (terminal-Keeps rt d issue I q _ _ w i))
        | inr early ↦ rw early elim (check_file-cases f req app_id nonce w i j) [
          | inl kept ↦ inl kept
          | inr c ↦ inr (refl, c)
        ]
      ]

  judge_prior-cases :
      (f : Form) (req : CertificateRequest) (app_id : Bytes) (found : Option (Bytes × Time)) (w : W)
      → I w
      → J w
      → I (judge_prior rt d issue f req app_id found w).1
        ⊎ ((prior : Bytes × Time) × (found ≡ some prior)
            × InTime rt d issue I J f req app_id prior
                (judge_prior rt d issue f req app_id found w))
  unfolding judge_prior
  judge_prior-cases f req app_id none w i j = inl (post_challenge-Keeps rt d issue I q w i)
  judge_prior-cases f req app_id (some prior) w i j =
      rw (always-step d.clock (check_window rt d issue f req app_id prior) w)
        elim (check_window-cases f req app_id prior (d.clock w).0 (d.clock w).1 (q.clock w i)
          (reads.clock w j)) [
            | inl kept ↦ inl kept
            | inr (early, c) ↦
                inr (prior, refl, record { asked = w; read_at = j; in_time = early; holds = c })
          ]

  pub check_challenge-cases :
      (f : Form) (req : CertificateRequest) (app_id : Bytes) (w : W)
      → I w
      → J w
      → I (check_challenge rt d issue f req app_id w).1
        ⊎ Proven rt d issue I J f req app_id (check_challenge rt d issue f req app_id w)
  unfolding check_challenge
  check_challenge-cases f req app_id w i j =
      let ask = prior_challenge rt d issue in
      let kept = prior_challenge-Keeps rt d issue I (IsQuiet-IsRead q) w i in
      let seen = prior_challenge-Keeps rt d issue J reads w j in
      elim (>>=-cases ask (judge_prior rt d issue f req app_id) w) [
        | inl (found, answer, runs) ↦
            rw runs elim (judge_prior-cases f req app_id found (ask w).1 kept seen) [
              | inl still ↦ inl still
              | inr (prior, same, e) ↦
                  let (comments, own, last) = prior_challenge-eq-ok rt d issue w found answer in
                  inr record {
                    comments = comments;
                    prior = prior;
                    asked = w;
                    read_at = j;
                    own = own;
                    last = last ∙ same;
                    timely = e;
                  }
            ]
        | inr (bad, _, runs) ↦ inl (rw runs kept)
      ]
