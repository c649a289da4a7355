-- ===== src/Enroll/Ledgers/Written.antt =====
-- What the loop that writes a ledger has written when it succeeds.
use developer_certificates.Common.{
  ℕ, zero, suc, ◌≡◌, ◌⊎◌, inl, inr, refl, ap, sym, ◌∙◌, Option, [], ◌++◌, Bytes, codes, Bool-cases,
}
use developer_certificates.Clock.{Time}
use developer_certificates.Effects.{
  ⊤, Action, Error, Result, ok, err, is_conflict, context, lift, errorf,
}
use developer_certificates.Effects.Keep.{>>=-eq-ok, attempt-step, always-step, context-eq-ok}
use developer_certificates.GitHub.{GitHub}
use developer_certificates.Ledger.{Certificate, Ledger, Codec, marshal}
use developer_certificates.Enroll.Ledgers.{
  max_ledger_retries, load_ledger, extended, after_write, write_extended, commit_from,
  commit_ledger,
}

module _ {W : Type 0} (codec : Codec) (gh : GitHub W) (app_id : Bytes) where
  after_write-eq-ok :
      (again : Error → Action W ⊤) (r : Result ⊤) (w left : W)
      → after_write codec gh again r w ≡ (ok tt, left)
      → ((r ≡ ok tt) × (left ≡ w)) ⊎ ((e : Error) × (r ≡ err e) × (again e w ≡ (ok tt, left)))
  unfolding after_write
  after_write-eq-ok again (ok _) w left h = inl (refl, sym (ap (λ r. r.1) h))
  after_write-eq-ok again (err e) w left h = elim (Bool-cases (is_conflict e)) [
    | inl conflict ↦ inr (e, refl, rw conflict at h)
    | inr other ↦ cc (ap (λ r. r.0) (rw other at h))
  ]

  -- A turn of the loop that succeeds has written the ledger, or the turns after it succeed.
  pub write_extended-eq-ok :
      (prev_sha : Bytes) (again : Error → Action W ⊤) (next : Ledger) (w left : W)
      → write_extended codec gh app_id prev_sha again next w ≡ (ok tt, left)
      → ((text : Bytes) × (codec.encode next ≡ ok text)
          × (gh.put_ledger app_id text prev_sha (codes "ledger: issue cert for " ++ app_id) w
              ≡ (ok tt, left)))
        ⊎ ((text : Bytes) × (e : Error) × (at : W) × (codec.encode next ≡ ok text)
            × (gh.put_ledger app_id text prev_sha (codes "ledger: issue cert for " ++ app_id) w
                ≡ (err e, at))
            × (again e at ≡ (ok tt, left)))
  unfolding write_extended marshal context
  write_extended-eq-ok prev_sha again next w left h =
      let (text, encoded, runs, _) =
        >>=-eq-ok (context (codes "enroll: marshal ledger") (lift (marshal codec next))) _ w tt
          (ap (λ r. r.0) h) in
      let put = gh.put_ledger app_id text prev_sha (codes "ledger: issue cert for " ++ app_id) in
      let step = attempt-step put (after_write codec gh again) w in
      elim (after_write-eq-ok again (put w).0 (put w).1 left (sym step ∙ (sym runs ∙ h))) [
        | inl (stored, same) ↦ inl (
          text,
          context-eq-ok (codes "enroll: marshal ledger") (lift (marshal codec next)) w encoded,
          λ i. (stored i, sym same i),
        )
        | inr (e, bad, later) ↦ inr (
          text,
          e,
          (put w).1,
          context-eq-ok (codes "enroll: marshal ledger") (lift (marshal codec next)) w encoded,
          (λ i. (bad i, (put w).1)),
          later,
        )
      ]

module _ {W : Type 0} (codec : Codec) (gh : GitHub W) (app_id repo : Bytes) (entry : Certificate)
    (now : Time) where
  -- One write went through, and ended the loop: of the ledger that was given, or of one that was
  -- loaded again, with the entry behind its certificates, guarded by the SHA that came with it.
  pub record Written (existing : Option Ledger) (prev_sha : Bytes) (left : W) : Type 0 where
    pub base : Option Ledger
    pub sha : Bytes
    pub text : Bytes
    pub at : W
    pub read :
        ((base ≡ existing) × (sha ≡ prev_sha))
        ⊎ ((w : W) × ((load_ledger codec gh app_id w).0 ≡ ok (base, sha)))
    pub encoded : codec.encode (extended app_id repo now entry base) ≡ ok text
    pub stored :
        gh.put_ledger app_id text sha (codes "ledger: issue cert for " ++ app_id) at ≡ (ok tt, left)

  pub commit_from-Written :
      (attempts : ℕ) (last : Error) (existing : Option Ledger) (prev_sha : Bytes) (w left : W)
      → commit_from codec gh app_id repo entry now attempts last existing prev_sha w ≡ (ok tt, left)
      → Written existing prev_sha left
  unfolding commit_from
  commit_from-Written zero last existing prev_sha w left h = cc (ap (λ r. r.0) h)
  commit_from-Written (suc attempts) last existing prev_sha w left h =
      elim (write_extended-eq-ok codec gh app_id prev_sha _ _ w left h) [
        | inl (text, encoded, stored) ↦ record {
          base = existing;
          sha = prev_sha;
          text = text;
          at = w;
          read = inl (refl, refl);
          encoded = encoded;
          stored = stored;
        }
        | inr (_, e, at, _, _, later) ↦
            let load = load_ledger codec gh app_id in
            let ((base, sha), loaded, runs, _) = >>=-eq-ok load _ at tt (ap (λ r. r.0) later) in
            let rest =
              commit_from-Written attempts e base sha (load at).1 left (sym runs ∙ later) in
            record {
              base = rest.base;
              sha = rest.sha;
              text = rest.text;
              at = rest.at;
              read = inr (elim rest.read [
                | inl (b, s) ↦ (at, loaded ∙ (λ i. ok (sym b i, sym s i)))
                | inr again ↦ again
              ]);
              encoded = rest.encoded;
              stored = rest.stored;
            }
      ]

-- When the ledger is committed, one write of it went through: of the ledger that was given, or of one
-- that was loaded again after a conflict, with the entry behind the certificates it had, and under
-- the SHA that came with it. The time of a new claim is the clock's at the beginning.
pub commit_ledger-Written :
    {W : Type 0} (codec : Codec) (gh : GitHub W) (clock : W → Time × W) (app_id repo : Bytes)
    (entry : Certificate) (existing : Option Ledger) (prev_sha : Bytes) (w left : W)
    → commit_ledger codec gh clock app_id repo entry existing prev_sha w ≡ (ok tt, left)
    → Written codec gh app_id repo entry (clock w).0 existing prev_sha left
unfolding commit_ledger
commit_ledger-Written codec gh clock app_id repo entry existing prev_sha w left h =
    let loop = λ (now : Time).
      commit_from codec gh app_id repo entry now max_ledger_retries (errorf []) existing prev_sha in
    commit_from-Written codec gh app_id repo entry (clock w).0 max_ledger_retries (errorf [])
      existing prev_sha (clock w).1 left (sym (always-step clock loop w) ∙ h)
