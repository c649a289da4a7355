-- ===== src/Bots/History/Store.antt =====
-- The reads and the guarded writes of ledgers keep the log.
use developer_certificates.Common.{
  Bool, ◌≡◌, ◌≢◌, inl, inr, sym, subst, ◌∙◌, Option, some, List, Bytes, bytes_eq, bytes_eq_iff,
  Bool-cases, ap,
}
use developer_certificates.AppId.Grammar.{IsAppId}
use developer_certificates.Effects.{⊤, Action, Result, ok, Result-cases, ◌>>=◌}
use developer_certificates.Effects.Keep.{Keeps, >>=-cases}
use developer_certificates.GitHub.{GitHub}
use developer_certificates.GitHub.Versioned.{View, Written, Written-err, refused, stored}
use developer_certificates.Ledger.{Certificate, Ledger, Codec}
use developer_certificates.Enroll.Ledgers.{load_ledger as load_to_issue, loaded as loaded_to_issue}
use developer_certificates.Revoke.Apply.{load_ledger as load_to_revoke, loaded as loaded_to_revoke}
use developer_certificates.Bots.{Job, issue, revoke, is_revocation, next, load_ledger}
use developer_certificates.Bots.Growth.{IsLater, IsLater-trans, Lists}
use developer_certificates.Bots.Sources.{Source, Holds, loaded-Source}
use developer_certificates.Bots.Writes.{Trips, write-IsLater}
use developer_certificates.Bots.History.{
  IsLedgerStore, History, Recorded, Recorded-err, IsSame-History,
}

Written-others :
    {v v' : View} {id text sha : Bytes} {r : Result ⊤}
    → Written v id text sha r v'
    → (k : Bytes) → k ≢ id
    → v' k ≡ v k
Written-others (refused e same) k other = same k
Written-others (stored b fresh is there others) k other = others k other

module _ {W : Type 0} (codec : Codec) (gh : GitHub W) (view : W → View)
    (store : IsLedgerStore codec gh view) (trips : Trips codec) (app_id : Bytes)
    (legal : IsAppId app_id) where
  pub get_ledger-History :
      (base : Bytes → List Certificate) → Keeps (History codec view base) (gh.get_ledger app_id)
  get_ledger-History base w log =
      IsSame-History codec view base w (gh.get_ledger app_id w).1
        (store.versioned.reads app_id w (store.names app_id legal)) log

  pub load_to_revoke-History :
      (base : Bytes → List Certificate)
      → Keeps (History codec view base) (load_to_revoke codec gh app_id)
  unfolding load_to_revoke ◌>>=◌
  load_to_revoke-History base = get_ledger-History base

  load_ledger-History :
      (base : Bytes → List Certificate) (job : Job)
      → Keeps (History codec view base) (load_ledger codec gh app_id job)
  unfolding load_ledger load_to_issue ◌>>=◌
  load_ledger-History base (issue repo entry now) = get_ledger-History base
  load_ledger-History base (revoke find rev) = load_to_revoke-History base

  -- A write of what a bot makes of a ledger that was read once keeps the log, whether it goes through
  -- or is refused; if it goes through, the ledger lists what the bot reports.
  pub put_ledger-History :
      (base : Bytes → List Certificate) (job : Job) (existing : Option Ledger) (l : Ledger)
      (sha serial text message : Bytes) (past w : W)
      → Source codec (view past app_id) existing sha
      → next app_id job existing ≡ some (l, serial)
      → codec.encode l ≡ ok text
      → History codec view base w
      → History codec view base (gh.put_ledger app_id text sha message w).1
        × ((gh.put_ledger app_id text sha message w).0 ≡ ok tt
            → (ds : List Certificate) × Holds codec
                (view (gh.put_ledger app_id text sha message w).1 app_id)
                ds
              × Lists (is_revocation job) serial ds)
  put_ledger-History base job existing l sha serial text message past w source wants encoded log =
      let put = gh.put_ledger app_id text sha message w in
      let named = store.names app_id legal in
      let written = store.versioned.writes app_id text sha message w named in
      elim (Result-cases put.0) [
        | inr (e, bad) ↦ (
          IsSame-History codec view base w put.1
              (Written-err
                (subst (λ r. Written (view w) app_id text sha r (view put.1)) bad written))
              log,
          λ good. cc (bad, good),
        )
        | inl (_, good) ↦
            let (now, held, grown) = log app_id in
            let (ds, holds, later, lists) =
              write-IsLater codec gh view store.Named store.versioned store.hash store.is_hash
                app_id named (λ _. job) (λ v. store.addressed v app_id) trips now job existing l sha
                serial text message past w put.1 held source wants encoded (λ i. (good i, put.1)) in
            (
              (λ k. elim (Bool-cases (bytes_eq k app_id)) [
                | inl same ↦
                    subst
                      (λ id.
                        (es : List Certificate) × Holds codec (view put.1 id) es
                        × IsLater (base id) es)
                      (sym ((bytes_eq_iff k app_id).0 same))
                      ((ds, holds, IsLater-trans grown later))
                | inr differs ↦
                    let (es, before, since) = log k in
                    let kept =
                      Written-others written k (λ e. cc (differs, (bytes_eq_iff k app_id).1 e)) in
                    (es, subst (λ v. Holds codec v es) (sym kept) before, since)
              ]),
              λ _. (ds, holds, lists),
            )
      ]

  -- What a bot has read is what was stored then.
  pub load_to_issue-Source :
      (w left : W) (existing : Option Ledger) (sha : Bytes)
      → load_to_issue codec gh app_id w ≡ (ok (existing, sha), left)
      → Source codec (view w app_id) existing sha
  unfolding load_to_issue ◌>>=◌
  load_to_issue-Source w left existing sha got =
      let answered = sym (store.versioned.answers app_id w (store.names app_id legal)) in
      loaded-Source codec gh app_id (view w app_id) existing sha
        (inl (ap (loaded_to_issue codec gh app_id) answered ∙ ap (λ r. r.0) got))

  pub load_to_revoke-Source :
      (w left : W) (existing : Option Ledger) (sha : Bytes)
      → load_to_revoke codec gh app_id w ≡ (ok (existing, sha), left)
      → Source codec (view w app_id) existing sha
  unfolding load_to_revoke ◌>>=◌
  load_to_revoke-Source w left existing sha got =
      let answered = sym (store.versioned.answers app_id w (store.names app_id legal)) in
      loaded-Source codec gh app_id (view w app_id) existing sha
        (inr (ap (loaded_to_revoke codec gh app_id) answered ∙ ap (λ r. r.0) got))

  load_ledger-Source :
      (job : Job) (w left : W) (existing : Option Ledger) (sha : Bytes)
      → load_ledger codec gh app_id job w ≡ (ok (existing, sha), left)
      → Source codec (view w app_id) existing sha
  unfolding load_ledger
  load_ledger-Source (issue repo entry now) = load_to_issue-Source
  load_ledger-Source (revoke find rev) = load_to_revoke-Source

  -- A bot that reads the ledger and goes on with what it has read.
  pub load_ledger-Recorded :
      {A : Type 0} (base : Bytes → List Certificate) (job : Job) (must : Bool) (report : A → Bytes)
      (k : Option Ledger × Bytes → Action W A) (w : W)
      → History codec view base w
      → ((existing : Option Ledger) (sha : Bytes) (left : W)
          → Source codec (view w app_id) existing sha
          → History codec view base left
          → Recorded codec view base app_id must report (k (existing, sha) left))
      → Recorded codec view base app_id must report ((load_ledger codec gh app_id job >>= k) w)
  load_ledger-Recorded base job must report k w log next =
      let load = load_ledger codec gh app_id job in
      let kept = load_ledger-History base job w log in
      elim (>>=-cases load k w) [
        | inr (e, _, runs) ↦
            subst (Recorded codec view base app_id must report) (sym runs)
              (Recorded-err codec view report e (load w).1 kept)
        | inl ((existing, sha), got, runs) ↦
            let source =
              load_ledger-Source job w (load w).1 existing sha (λ i. (got i, (load w).1)) in
            subst (Recorded codec view base app_id must report) (sym runs)
              (next existing sha (load w).1 source kept)
      ]
