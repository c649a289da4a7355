-- ===== src/Bots/History/Revoker.antt =====
-- A poll of the revocation bot and a privileged revocation keep the log of ledgers, however they end.
use developer_certificates.Common.{
  ◌≡◌, inl, inr, sym, subst, true, Option, none, some, Option-cases, List, Bytes,
}
use developer_certificates.AppId.Grammar.{IsAppId, canonicalize_iff}
use developer_certificates.Clock.{Time}
use developer_certificates.Effects.{⊤, Result, ok, lift, pure, ◌>>=◌}
use developer_certificates.Effects.Keep.{Keeps, >>=-cases, >>=-Keeps, context-Keeps}
use developer_certificates.GitHub.{GitHub, Issue}
use developer_certificates.GitHub.Versioned.{View}
use developer_certificates.Ledger.{Certificate, Ledger}
use developer_certificates.Runtime.{Runtime}
use developer_certificates.Revoke.Apply.{target, load_ledger}
use developer_certificates.Revoke.Find.{find_by_serial, find_by_fingerprint}
use developer_certificates.Revoke.SelfService.{Deps, deliver, revoke, process}
use developer_certificates.Revoke.SelfService.Authorized.{IsQuiet, process-Authorized}
use developer_certificates.Revoke.Privileged
use developer_certificates.Revoke.Privileged.{
  PrivilegedRequest, check_request, resolve_date, in_ledger, privileged_process,
}
use developer_certificates.Revoke.Privileged.Safety.{check_request-eq-ok}
use developer_certificates.Bots.Sources.{Source}
use developer_certificates.Bots.Writes.{Trips}
use developer_certificates.Bots.History.{IsLedgerStore, History, Listed, Recorded-then}
use developer_certificates.Bots.History.Store.{load_to_revoke-Source, load_to_revoke-History}
use developer_certificates.Bots.History.Revocation.{apply_revocation-Recorded}

module _ {W : Type 0} (rt : Runtime) (d : Deps W) (issue : Issue) (I : W → Type 0)
    (q : IsQuiet d I) where
  deliver-Keeps :
      (serial app_id : Bytes) (from : Time) → Keeps I (deliver rt d issue serial app_id from)
  unfolding deliver
  deliver-Keeps serial app_id from =
      >>=-Keeps I _ _ (context-Keeps I _ _ (q.post_comment issue.number _)) (λ _.
        >>=-Keeps I _ _ (context-Keeps I _ _ (q.set_labels issue.number _ _))
          (λ _. q.close_issue issue.number))

module _ {W : Type 0} (rt : Runtime) (d : Deps W) (view : W → View)
    (store : IsLedgerStore rt.codec d.gh view) (trips : Trips rt.codec) (issue : Issue)
    (q : (base : Bytes → List Certificate) → IsQuiet d (History rt.codec view base)) where
  -- The log is kept however the revocation ends. If it succeeds, then when it is over the ledger of
  -- the appId lists a certificate as revoked.
  pub revoke-History :
      (base : Bytes → List Certificate) (app_id fp : Bytes) (existing : Option Ledger) (sha : Bytes)
      (c : Certificate) (past w : W)
      → IsAppId app_id
      → Source rt.codec (view past app_id) existing sha
      → History rt.codec view base w
      → let out = revoke rt d issue app_id fp existing sha c w in
        History rt.codec view base out.1
        × (out.0 ≡ ok tt → (serial : Bytes) × Listed rt.codec view app_id true serial out.1)
  unfolding revoke
  revoke-History base app_id fp existing sha c past w legal source log =
      let (after, lists) =
        Recorded-then rt.codec view base app_id true (λ (serial : Bytes). serial) _
          (λ serial. deliver rt d issue serial app_id c.not_before) w
          (apply_revocation-Recorded rt.codec d.gh view store trips base app_id legal
            (λ lg. find_by_fingerprint lg fp) _ existing sha past w source log)
          (λ now serial.
            deliver-Keeps rt d issue (History rt.codec view now) (q now) serial app_id
              c.not_before) in
      (after, λ good. let (serial, _, listed) = lists tt good in (serial, listed))

  -- A poll of the revocation bot keeps the log, however it ends.
  pub revoke_process-History :
      (base : Bytes → List Certificate) → Keeps (History rt.codec view base) (process rt d issue)
  revoke_process-History base w log =
      let I = History rt.codec view base in
      elim (process-Authorized rt d issue I (q base) w log) [
        | inl kept ↦ kept
        | inr a ↦
            let r = a.revokes in
            let (_, legal) = (canonicalize_iff a.res.signer_cert.common_name a.app_id).0 a.named in
            let source =
              load_to_revoke-Source rt.codec d.gh view store trips a.app_id legal r.before r.at r.l
                r.prev_sha r.loaded in
            subst (λ (out : Result ⊤ × W). I out.1) (sym r.runs)
              (revoke-History base a.app_id _ r.l r.prev_sha r.listed.2 r.before r.at legal source
                r.keeps).0
      ]

module _ {W : Type 0} (rt : Runtime) (gh : GitHub W) (view : W → View)
    (store : IsLedgerStore rt.codec gh view) (trips : Trips rt.codec)
    (req : PrivilegedRequest) where
  in_ledger-History :
      (base : Bytes → List Certificate) (serial : Bytes) (existing : Option Ledger) (sha : Bytes)
      (past w : W)
      → IsAppId req.app_id
      → Source rt.codec (view past req.app_id) existing sha
      → History rt.codec view base w
      → History rt.codec view base (in_ledger rt gh req serial (existing, sha) w).1
  unfolding in_ledger Privileged.revoke
  in_ledger-History base serial none sha past w legal source log = log
  in_ledger-History base serial (some found) sha past w legal source log =
      elim (Option-cases (target (λ lg. find_by_serial lg serial) (some found))) [
        | inl lost ↦ rw (lost, Privileged.revoke) log
        | inr (t, listed) ↦
            rw (listed, Privileged.revoke)
              (>>=-Keeps (History rt.codec view base) (lift (resolve_date rt gh req t.2)) _
                (λ v i. i)
                (λ from v i.
                  (Recorded-then rt.codec view base req.app_id true (λ (s : Bytes). s) _
                    (λ _. pure tt) v
                    (apply_revocation-Recorded rt.codec gh view store trips base req.app_id legal
                      (λ lg. find_by_serial lg serial) _ (some found) sha past v source i)
                    (λ now s u log'. log')).0)
                w log)
      ]

  -- A privileged revocation keeps the log, however it ends.
  pub privileged_process-History :
      (base : Bytes → List Certificate)
      → Keeps (History rt.codec view base) (privileged_process rt gh req)
  unfolding privileged_process
  privileged_process-History base w log =
      let load = load_ledger rt.codec gh req.app_id in
      elim (>>=-cases (lift (check_request rt gh req))
        (λ serial. load >>= in_ledger rt gh req serial) w) [
          | inr (e, _, runs) ↦ rw runs log
          | inl (serial, checked, runs) ↦
              let (_, complete) = check_request-eq-ok rt gh req serial checked in
              let legal = complete.named in
              let kept =
                load_to_revoke-History rt.codec gh view store trips req.app_id legal base w log in
              rw runs elim (>>=-cases load (in_ledger rt gh req serial) w) [
                | inr (e, _, fails) ↦ rw fails kept
                | inl ((existing, sha), got, goes) ↦ rw goes (
                    in_ledger-History base serial existing sha w (load w).1 legal
                      (load_to_revoke-Source rt.codec gh view store trips req.app_id legal w
                        (load w).1 existing sha (λ i. (got i, (load w).1)))
                      kept)
              ]
        ]
