-- ===== src/Bots/History/Revocation.antt =====
-- The loop of the revocation bots keeps the log.
use developer_certificates.Common.{
  ℕ, zero, suc, ◌≡◌, inl, inr, refl, sym, subst, ◌∙◌, true, Bool-cases, Option, some, Option-cases,
  List, [], Bytes, codes,
}
use developer_certificates.AppId.Grammar.{IsAppId}
use developer_certificates.Effects.{
  ⊤, Action, Error, Result, ok, err, is_conflict, attempt, context, lift, errorf, ◌>>=◌,
}
use developer_certificates.Effects.Keep.{>>=-cases, attempt-step, context-eq-ok, ok_inj}
use developer_certificates.GitHub.{GitHub}
use developer_certificates.GitHub.Versioned.{View}
use developer_certificates.Ledger.{Certificate, Ledger, Codec, marshal}
use developer_certificates.Revoke.Apply.{
  Revocation, FindFunc, target, flipped, commit_message, max_ledger_retries, after_write,
  write_flipped, apply_from, apply_revocation,
}
use developer_certificates.Bots.{revoke, next, load_ledger as load_for}
use developer_certificates.Bots.Sources.{Source}
use developer_certificates.Bots.Writes.{Trips}
use developer_certificates.Bots.History.{IsLedgerStore, History, Listed, Recorded, Recorded-err}
use developer_certificates.Bots.History.Store.{load_ledger-Recorded, put_ledger-History}

module _ {W : Type 0} (codec : Codec) (gh : GitHub W) (view : W → View)
    (store : IsLedgerStore codec gh view) (trips : Trips codec) (base : Bytes → List Certificate)
    (app_id : Bytes) (legal : IsAppId app_id) (find : FindFunc) (rev : Revocation) where
  abbrev Revokes : Result Bytes × W → Type 0
  Revokes = Recorded codec view base app_id true (λ (serial : Bytes). serial)

  fails : (e : Error) (w : W) → History codec view base w → Revokes (err e, w)
  fails = Recorded-err codec view (λ (serial : Bytes). serial)

  after_write-Revokes :
      (serial : Bytes) (again : Error → Action W Bytes) (r : Result ⊤) (w : W)
      → History codec view base w
      → (r ≡ ok tt → Listed codec view app_id true serial w)
      → ((e : Error) → Revokes (again e w))
      → Revokes (after_write codec gh serial again r w)
  unfolding after_write
  after_write-Revokes serial again (ok _) w log lists later =
      (log, λ a good. subst (λ s. Listed codec view app_id true s w) (ok_inj good) (lists refl))
  after_write-Revokes serial again (err e) w log lists later = elim (Bool-cases (is_conflict e)) [
    | inl conflict ↦ rw conflict (later e)
    | inr other ↦ rw other (fails _ w log)
  ]

  wants :
      (existing : Option Ledger) (t : Ledger × ℕ × Certificate)
      → target find existing ≡ some t
      → next app_id (revoke find rev) existing ≡ some (flipped rev t.0 t.1 t.2, t.2.serial)
  unfolding next
  wants existing t found = rw (next, found) refl

  -- A turn of the loop, for a target in a ledger that was read in some earlier world.
  write_flipped-Revokes :
      (again : Error → Action W Bytes) (existing : Option Ledger) (sha : Bytes)
      (t : Ledger × ℕ × Certificate) (past w : W)
      → target find existing ≡ some t
      → Source codec (view past app_id) existing sha
      → History codec view base w
      → ((e : Error) (left : W) → History codec view base left → Revokes (again e left))
      → Revokes (write_flipped codec gh app_id rev sha again t w)
  unfolding write_flipped marshal context
  write_flipped-Revokes again existing sha t past w found source log later =
      let l = flipped rev t.0 t.1 t.2 in
      let encode = context (codes "revoke: marshal ledger") (lift (marshal codec l)) in
      let message = commit_message rev t.2 app_id in
      let send = λ (text : Bytes).
        attempt (gh.put_ledger app_id text sha message) >>= after_write codec gh t.2.serial again in
      elim (>>=-cases encode send w) [
        | inr (e, _, runs) ↦ subst Revokes (sym runs) (fails e w log)
        | inl (text, encoded, runs) ↦
            let put = gh.put_ledger app_id text sha message in
            let (kept, lists) =
              put_ledger-History codec gh view store trips app_id legal base (revoke find rev)
                existing l sha t.2.serial text message past w source (wants existing t found)
                (context-eq-ok (codes "revoke: marshal ledger") (lift (marshal codec l)) w encoded)
                log in
            subst Revokes (sym (runs ∙ attempt-step put (after_write codec gh t.2.serial again) w))
              (after_write-Revokes t.2.serial again (put w).0 (put w).1 kept lists
                (λ e. later e (put w).1 kept))
      ]

  apply_from-Recorded :
      (attempts : ℕ) (last : Error) (existing : Option Ledger) (sha : Bytes) (past w : W)
      → Source codec (view past app_id) existing sha
      → History codec view base w
      → Revokes (apply_from codec gh app_id find rev attempts last existing sha w)
  unfolding apply_from load_for
  apply_from-Recorded zero last existing sha past w source log = fails _ w log
  apply_from-Recorded (suc attempts) last existing sha past w source log =
      elim (Option-cases (target find existing)) [
        | inl gone ↦ rw (gone, apply_from) (fails _ w log)
        | inr (t, found) ↦
            rw (found, apply_from)
              (write_flipped-Revokes _ existing sha t past w found source log (λ e left kept.
                load_ledger-Recorded codec gh view store trips app_id legal base (revoke find rev)
                  true (λ (serial : Bytes). serial) _ left kept
                  (λ l l_sha at from still.
                    apply_from-Recorded attempts e l l_sha left at from still)))
      ]

  -- However a revocation ends, the log is kept; if it is applied, the ledger lists a certificate with
  -- the serial that is returned as revoked.
  pub apply_revocation-Recorded :
      (existing : Option Ledger) (sha : Bytes) (past w : W)
      → Source codec (view past app_id) existing sha
      → History codec view base w
      → Revokes (apply_revocation codec gh app_id find rev existing sha w)
  unfolding apply_revocation
  apply_revocation-Recorded = apply_from-Recorded max_ledger_retries (errorf [])
