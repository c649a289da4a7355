-- ===== src/Bots/History/Issuer.antt =====
-- A poll of the issuer bot keeps the log of ledgers, however it ends.
use developer_certificates.Common.{
  ℕ, zero, suc, ◌≡◌, inl, inr, sym, subst, Bool, true, false, if◌then◌else◌, ltb, Option, List, [],
  Bytes,
}
use developer_certificates.AppId.Grammar.{IsAppId, validate_strict_iff}
use developer_certificates.Clock.{Time}
use developer_certificates.CertTemplate.{random_serial, rand_int, leaf}
use developer_certificates.Effects.{⊤, Action, Result, ok, errorf, ◌>>=◌}
use developer_certificates.Effects.Keep.{Keeps, >>=-cases, >>=-Keeps, context-Keeps, always-step}
use developer_certificates.GitHub.{Issue}
use developer_certificates.GitHub.Versioned.{View}
use developer_certificates.Ledger.{Certificate, Ledger}
use developer_certificates.Runtime.{Runtime}
use developer_certificates.Signer.{format_serial}
use developer_certificates.X509
use developer_certificates.X509.{PublicKey, Template}
use developer_certificates.Enroll.Form.{Form}
use developer_certificates.Enroll.Issuance.{Deps, mint, entry, deliver, issue_certificate}
use developer_certificates.Enroll.Ledgers.{max_ledger_retries, commit_ledger, commit_from}
use developer_certificates.Enroll.Process.{process}
use developer_certificates.Enroll.Process.Clearance.{process-cases}
use developer_certificates.Enroll.Process.Quiet.{IsQuiet, IsQuiet-IsRead}
use developer_certificates.Bots.Sources.{Source}
use developer_certificates.Bots.Writes.{Trips}
use developer_certificates.Bots.History.{IsLedgerStore, History, Listed, Recorded, Recorded-then}
use developer_certificates.Bots.History.Store.{load_to_issue-Source}
use developer_certificates.Bots.History.Issuance.{commit_from-Recorded}

-- `I` outlives every call of the collaborators but the writing of a ledger or a file.
pub record IsOutlived {W : Type 0} (d : Deps W) (I : W → Type 0) : Type 0 where
  pub quiet : IsQuiet d I
  pub sign : (tmpl : Template) (key : PublicKey) → Keeps I (d.signer.sign tmpl key)
  pub close_issue : (n : ℕ) → Keeps I (d.gh.close_issue n)

module _ {W : Type 0} (rt : Runtime) (d : Deps W) (issue : Issue) (I : W → Type 0)
    (q : IsOutlived d I) where
  if-Keeps :
      {A : Type 0} (b : Bool) (m n : Action W A)
      → Keeps I m
      → Keeps I n
      → Keeps I (if b then m else n)
  if-Keeps true m n keep_m keep_n = keep_m
  if-Keeps false m n keep_m keep_n = keep_n

  random_serial-Keeps : (rounds : ℕ) → Keeps I (random_serial d.rand rounds)
  unfolding random_serial rand_int
  random_serial-Keeps zero = λ w i. i
  random_serial-Keeps (suc rounds) =
      >>=-Keeps I _ _ (context-Keeps I _ _ (>>=-Keeps I _ _ (q.quiet.rand _) (λ b w i. i)))
        (λ n. if-Keeps (ltb 0 n) _ _ (λ w i. i) (random_serial-Keeps rounds))

  mint-Keeps : (f : Form) (app_id : Bytes) (key : PublicKey) → Keeps I (mint rt d f app_id key)
  unfolding mint leaf
  mint-Keeps f app_id key = >>=-Keeps I _ _ q.quiet.clock (λ now.
      >>=-Keeps I _ _ (λ w i. i)
        (λ o.
          >>=-Keeps I _ _
            (context-Keeps I _ _ (
              >>=-Keeps I _ _ (λ w i. i)
                (λ issuer. >>=-Keeps I _ _ (random_serial-Keeps d.rounds) (λ serial w i. i))))
            (λ tmpl.
              >>=-Keeps I _ _ (context-Keeps I _ _ (q.sign tmpl key))
                (λ der. >>=-Keeps I _ _ (context-Keeps I _ _ (λ w i. i)) (λ cert w i. i)))))

  deliver-Keeps : (app_id der : Bytes) → Keeps I (deliver rt d issue app_id der)
  unfolding deliver
  deliver-Keeps app_id der =
      >>=-Keeps I _ _ (context-Keeps I _ _ (q.quiet.post_comment issue.number _)) (λ _.
        >>=-Keeps I _ _ (context-Keeps I _ _ (q.quiet.set_labels issue.number _ _))
          (λ _. q.close_issue issue.number))

module _ {W : Type 0} (rt : Runtime) (d : Deps W) (view : W → View)
    (store : IsLedgerStore rt.codec d.gh view) (trips : Trips rt.codec) (issue : Issue)
    (q : (base : Bytes → List Certificate) → IsOutlived d (History rt.codec view base)) where
  committed :
      (base : Bytes → List Certificate) (repo : Bytes) (cert : Certificate) (app_id : Bytes)
      (existing : Option Ledger) (sha : Bytes) (past w : W)
      → IsAppId app_id
      → Source rt.codec (view past app_id) existing sha
      → History rt.codec view base w
      → Recorded rt.codec view base app_id false
          (λ (_ : ⊤). cert.serial)
          (commit_ledger rt.codec d.gh d.clock app_id repo cert existing sha w)
  unfolding commit_ledger
  committed base repo cert app_id existing sha past w legal source log =
      let loop = λ (now : Time).
        commit_from rt.codec d.gh app_id repo cert now max_ledger_retries (errorf []) existing
          sha in
      subst (Recorded rt.codec view base app_id false (λ (_ : ⊤). cert.serial))
        (sym (always-step d.clock loop w))
        (commit_from-Recorded rt.codec d.gh view store trips base app_id repo legal cert
          (d.clock w).0 max_ledger_retries (errorf []) existing sha past (d.clock w).1 source
          ((q base).quiet.clock w log))

  -- However a minting for a legal appId ends that was given a ledger as it stood in some earlier world,
  -- and whatever else was written since: where every ledger can be decoded and lists the certificates
  -- of `base`, none of them loses one or takes a revocation back. If the minting succeeds, a leaf was
  -- minted whose serial the ledger of the appId lists when the delivery is over. The hub serves a store
  -- of ledgers under SHAs that guard the writes, the SHA of a ledger is a hash of its text that no two
  -- texts share, and every ledger that is encoded is decoded to one that lists the same certificates,
  -- though perhaps with their times to the second. The other calls take nothing out of the ledgers.
  pub issue_certificate-History :
      (base : Bytes → List Certificate) (f : Form) (app_id : Bytes) (key : PublicKey)
      (existing : Option Ledger) (sha : Bytes) (past w : W)
      → IsAppId app_id
      → Source rt.codec (view past app_id) existing sha
      → History rt.codec view base w
      → let out = issue_certificate rt d issue f app_id key existing sha w in
        History rt.codec view base out.1
        × (out.0 ≡ ok tt
            → (der : Bytes) × (cert : X509.Certificate) × ((mint rt d f app_id key w).0
                ≡ ok (der, cert))
              × Listed rt.codec view app_id false (format_serial cert.serial_number) out.1)
  unfolding issue_certificate commit_ledger entry
  issue_certificate-History base f app_id key existing sha past w legal source log =
      let make = mint rt d f app_id key in
      let kept = mint-Keeps rt d issue (History rt.codec view base) (q base) f app_id key w log in
      let record_it = λ (m : Bytes × X509.Certificate).
        commit_ledger rt.codec d.gh d.clock app_id f.repo (entry rt d issue m.0 m.1) existing sha
        >>= λ _. deliver rt d issue app_id m.0 in
      elim (>>=-cases make record_it w) [
        | inr (e, _, runs) ↦ rw runs (kept, λ good. cc good)
        | inl ((der, cert), minted, runs) ↦
            let at = (make w).1 in
            let commit =
              commit_ledger rt.codec d.gh d.clock app_id f.repo (entry rt d issue der cert) existing
                sha in
            let (after, lists) =
              Recorded-then rt.codec view base app_id false
                (λ (_ : ⊤). format_serial cert.serial_number) commit
                (λ _. deliver rt d issue app_id der) at
                (committed base f.repo (entry rt d issue der cert) app_id existing sha past at legal
                  source kept)
                (λ now _.
                  deliver-Keeps rt d issue (History rt.codec view now) (q now) app_id der) in
            rw runs (after, λ good. (der, cert, minted, (lists tt good).2))
      ]

  -- A poll keeps the log, however it ends.
  pub process-History :
      (base : Bytes → List Certificate) → Keeps (History rt.codec view base) (process rt d issue)
  process-History base w log =
      let I = History rt.codec view base in
      elim (process-cases rt d issue I I (q base).quiet (IsQuiet-IsRead (q base).quiet) w log log) [
        | inl kept ↦ kept
        | inr c ↦
            let m = c.proven.timely.holds.mints in
            let (same, name) = (validate_strict_iff c.req.common_name c.app_id).0 c.named in
            let legal = subst IsAppId (sym same) name in
            let source =
              load_to_issue-Source rt.codec d.gh view store trips c.app_id legal m.before m.at
                m.existing m.prev_sha m.loaded in
            subst (λ (out : Result ⊤ × W). I out.1) (sym m.runs)
              (issue_certificate-History base c.form c.app_id c.req.public_key m.existing m.prev_sha
                m.before m.at legal source m.keeps).0
      ]
