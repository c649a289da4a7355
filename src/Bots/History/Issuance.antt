-- ===== src/Bots/History/Issuance.antt =====
-- The loop of the issuer bot keeps the log.
use developer_certificates.Common.{
  ℕ, zero, suc, ◌≡◌, inl, inr, refl, sym, subst, ◌∙◌, false, Bool-cases, Option, some, List, ◌++◌,
  Bytes, codes,
}
use developer_certificates.AppId.Grammar.{IsAppId}
use developer_certificates.Clock.{Time}
use developer_certificates.Effects.{
  ⊤, Action, Error, Result, ok, err, is_conflict, attempt, context, lift, ◌>>=◌,
}
use developer_certificates.Effects.Keep.{>>=-cases, attempt-step, context-eq-ok}
use developer_certificates.GitHub.{GitHub}
use developer_certificates.GitHub.Versioned.{View}
use developer_certificates.Ledger.{Certificate, Ledger, Codec, marshal}
use developer_certificates.Enroll.Ledgers.{extended, after_write, write_extended, commit_from}
use developer_certificates.Bots.{issue, next, load_ledger as load_for}
use developer_certificates.Bots.Sources.{Source}
use developer_certificates.Bots.Writes.{Trips}
use developer_certificates.Bots.History.{IsLedgerStore, History, Listed, Recorded, Recorded-err}
use developer_certificates.Bots.History.Store.{load_ledger-Recorded, put_ledger-History}

module _ {W : Type 0} (codec : Codec) (gh : GitHub W) (view : W → View)
    (store : IsLedgerStore codec gh view) (trips : Trips codec) (base : Bytes → List Certificate)
    (app_id repo : Bytes) (legal : IsAppId app_id) (entry : Certificate) (now : Time) where
  abbrev Commits : Result ⊤ × W → Type 0
  Commits = Recorded codec view base app_id false (λ (_ : ⊤). entry.serial)

  after_write-Commits :
      (again : Error → Action W ⊤) (r : Result ⊤) (w : W)
      → History codec view base w
      → (r ≡ ok tt → Listed codec view app_id false entry.serial w)
      → ((e : Error) → Commits (again e w))
      → Commits (after_write codec gh again r w)
  unfolding after_write
  after_write-Commits again (ok _) w log lists later = (log, λ a good. lists refl)
  after_write-Commits again (err e) w log lists later = elim (Bool-cases (is_conflict e)) [
    | inl conflict ↦ rw conflict (later e)
    | inr other ↦ rw other (Recorded-err codec view (λ (_ : ⊤). entry.serial) _ w log)
  ]

  wants :
      (existing : Option Ledger)
      → next app_id (issue repo entry now) existing
        ≡ some (extended app_id repo now entry existing, entry.serial)
  unfolding next
  wants existing = refl

  -- A turn of the loop, for a ledger that was read in some earlier world.
  write_extended-Commits :
      (again : Error → Action W ⊤) (existing : Option Ledger) (sha : Bytes) (past w : W)
      → Source codec (view past app_id) existing sha
      → History codec view base w
      → ((e : Error) (left : W) → History codec view base left → Commits (again e left))
      → Commits
          (write_extended codec gh app_id sha again (extended app_id repo now entry existing) w)
  unfolding write_extended marshal context
  write_extended-Commits again existing sha past w source log later =
      let l = extended app_id repo now entry existing in
      let encode = context (codes "enroll: marshal ledger") (lift (marshal codec l)) in
      let message = codes "ledger: issue cert for " ++ app_id in
      let send = λ (text : Bytes).
        attempt (gh.put_ledger app_id text sha message) >>= after_write codec gh again in
      elim (>>=-cases encode send w) [
        | inr (e, _, runs) ↦
            subst Commits (sym runs) (Recorded-err codec view (λ (_ : ⊤). entry.serial) e w log)
        | inl (text, encoded, runs) ↦
            let put = gh.put_ledger app_id text sha message in
            let (kept, lists) =
              put_ledger-History codec gh view store trips app_id legal base (issue repo entry now)
                existing l sha entry.serial text message past w source (wants existing)
                (context-eq-ok (codes "enroll: marshal ledger") (lift (marshal codec l)) w encoded)
                log in
            subst Commits (sym (runs ∙ attempt-step put (after_write codec gh again) w)) (
              after_write-Commits again (put w).0 (put w).1 kept lists
                (λ e. later e (put w).1 kept))
      ]

  -- However the loop ends, the log is kept; if it commits, the ledger lists the entry.
  pub commit_from-Recorded :
      (attempts : ℕ) (last : Error) (existing : Option Ledger) (sha : Bytes) (past w : W)
      → Source codec (view past app_id) existing sha
      → History codec view base w
      → Commits (commit_from codec gh app_id repo entry now attempts last existing sha w)
  unfolding commit_from load_for
  commit_from-Recorded zero last existing sha past w source log =
      Recorded-err codec view (λ (_ : ⊤). entry.serial) _ w log
  commit_from-Recorded (suc attempts) last existing sha past w source log =
      write_extended-Commits _ existing sha past w source log (λ e left kept.
        load_ledger-Recorded codec gh view store trips app_id legal base (issue repo entry now)
          false (λ (_ : ⊤). entry.serial) _ left kept
          (λ l l_sha at from still. commit_from-Recorded attempts e l l_sha left at from still))
