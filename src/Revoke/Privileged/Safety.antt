-- ===== src/Revoke/Privileged/Safety.antt =====
-- What a privileged revocation that succeeds has checked and written.
use developer_certificates.Common.{
  ℕ, ◌≤◌, ◌≡◌, ◌≢◌, ◌↔◌, ◌⊎◌, inl, inr, refl, ap, sym, ◌∙◌, Option, none, some, Bytes, [],
  bytes_eq_iff, arith, Bool-cases, Option-cases, subst,
}
use developer_certificates.Clock.{Time, before}
use developer_certificates.AppId.{validate_strict}
use developer_certificates.AppId.Grammar.{IsAppId, validate_strict_iff}
use developer_certificates.Effects.{⊤, Result, ok, err, Result-cases, lift, pure}
use developer_certificates.Effects.Keep.{>>=-eq-ok, ok_inj}
use developer_certificates.GitHub.{GitHub}
use developer_certificates.Ledger.{Ledger, Certificate}
use developer_certificates.Runtime.{Runtime}
use developer_certificates.Text.{trim_space}
use developer_certificates.Revoke.Apply.{Revocation, target, load_ledger, apply_revocation}
use developer_certificates.Revoke.Apply.Flip.{IsFirst, target-IsFirst}
use developer_certificates.Revoke.Apply.Rewritten.{Rewritten, apply_revocation-Rewritten}
use developer_certificates.Revoke.Find.{find_by_serial}
use developer_certificates.Revoke.Privileged.{
  PrivilegedRequest, require, ◌then◌, check_request, resolve_date, revoke, in_ledger,
  privileged_process,
}

require_iff : (name value : Bytes) → (require name value ≡ ok tt) ↔ (value ≢ [])
unfolding require
require_iff name value = ground (arith, bytes_eq_iff value [])

then-eq-ok :
    {A : Type 0} (r : Result ⊤) (q : Result A) (a : A)
    → (r then q) ≡ ok a
    → (r ≡ ok tt) × (q ≡ ok a)
then-eq-ok (ok _) q a h = (refl, h)
then-eq-ok (err e) q a h = cc h

module _ {W : Type 0} (rt : Runtime) (gh : GitHub W) (req : PrivilegedRequest) where
  -- A legal appId, and nothing left out.
  pub record IsComplete : Type 0 where
    pub named : IsAppId req.app_id
    pub serial : trim_space req.serial ≢ []
    pub reason : req.reason ≢ []
    pub actor : req.actor ≢ []

  pub check_request-eq-ok :
      (s : Bytes) → check_request rt gh req ≡ ok s → (s ≡ trim_space req.serial) × IsComplete
  unfolding check_request
  check_request-eq-ok s h = elim (Result-cases (validate_strict req.app_id)) [
    | inr (e, bad) ↦ cc (rw (bad, check_request) at h)
    | inl (a, good) ↦
        let (serial, h1) = then-eq-ok _ _ s (rw (good, check_request) at h) in
        let (reason, h2) = then-eq-ok _ _ s h1 in
        let (actor, h3) = then-eq-ok _ _ s h2 in
        (
          sym (ok_inj h3),
          record {
            named = ((validate_strict_iff req.app_id a).0 good).1;
            serial = (require_iff _ (trim_space req.serial)).0 serial;
            reason = (require_iff _ req.reason).0 reason;
            actor = (require_iff _ req.actor).0 actor;
          },
        )
  ]

  -- The date asked for, or the certificate's notBefore, which it does not precede.
  abbrev pub IsDate : Certificate → Time → Type 0
  IsDate c from =
      (c.not_before ≤ from)
      × ((req.revoked_from ≡ some from) ⊎ ((req.revoked_from ≡ none) × (from ≡ c.not_before)))

  resolve_date-eq-ok :
      (c : Certificate) (from : Time) → resolve_date rt gh req c ≡ ok from → IsDate c from
  unfolding resolve_date
  resolve_date-eq-ok c from h = elim (Option-cases req.revoked_from) [
    | inl unset ↦
        let same : c.not_before ≡ from = ok_inj (rw (unset, resolve_date) at h) in
        (omega (arith, same), inr (unset, sym same))
    | inr (rf, given) ↦ elim (Bool-cases (before rf c.not_before)) [
      | inl early ↦ cc (rw (given, early, resolve_date) at h)
      | inr late ↦
          let same : rf ≡ from = ok_inj (rw (given, late, resolve_date) at h) in
          let order : c.not_before ≤ rf = ground arith in
          (omega (arith, same, order), inl (given ∙ ap some same))
    ]
  ]

  -- The certificate with the serial was revoked, from a date that does not precede it.
  pub record Revoked (left : W) : Type 0 where
    pub complete : IsComplete
    pub base : Ledger
    pub sha : Bytes
    pub asked : W
    pub loaded : (load_ledger rt.codec gh req.app_id asked).0 ≡ ok (some base, sha)
    pub index : ℕ
    pub cert : Certificate
    pub first : IsFirst (λ c. c.serial) (trim_space req.serial) base.certificates index cert
    pub from : Time
    pub dated : IsDate cert from
    pub result : Bytes
    pub written :
        Rewritten rt.codec gh req.app_id
          (λ l. find_by_serial l (trim_space req.serial))
          (record { reason = req.reason; revoked_from = from; actor = req.actor })
          (some base)
          sha
          result
          left

  revoke-Revoked :
      (serial : Bytes) (base : Ledger) (sha : Bytes) (w left : W)
      → revoke rt gh req serial (some base) sha w ≡ (ok tt, left)
      → (i : ℕ) × (c : Certificate) × IsFirst (λ b. b.serial) serial base.certificates i c
        × ((from : Time) × IsDate c from
            × ((s : Bytes) × Rewritten rt.codec gh req.app_id
                  (λ l. find_by_serial l serial)
                  (record { reason = req.reason; revoked_from = from; actor = req.actor })
                  (some base)
                  sha
                  s
                  left))
  unfolding revoke find_by_serial
  revoke-Revoked serial base sha w left h =
      let find : Option Ledger → Option ℕ = λ l. find_by_serial l serial in
      elim (Option-cases (target find (some base))) [
        | inl missing ↦ cc (ap (λ r. r.0) (rw (missing, revoke) at h))
        | inr ((l, i, c), found) ↦
            let (from_base, first) =
              target-IsFirst (λ b. b.serial) serial find (some base) l i c (refl, λ m. refl)
                found in
            let same : l ≡ base = cc from_base in
            let opened = rw (found, revoke) at h in
            let (from, resolved, runs, h2) =
              >>=-eq-ok (lift (resolve_date rt gh req c)) _ w tt (ap (λ r. r.0) opened) in
            let rev : Revocation = record {
              reason = req.reason;
              revoked_from = from;
              actor = req.actor;
            } in
            let apply = apply_revocation rt.codec gh req.app_id find rev (some base) sha in
            let (s, applied, ends, _) = >>=-eq-ok apply (λ _. pure tt) w tt h2 in
            let world : (apply w).1 ≡ left = ap (λ r. r.1) (sym (runs ∙ ends) ∙ opened) in
            (
              i,
              c,
              subst (λ m. IsFirst (λ b. b.serial) serial m.certificates i c) same first,
              (
                from,
                resolve_date-eq-ok c from resolved,
                (
                  s,
                  apply_revocation-Rewritten rt.codec gh req.app_id find rev (some base) sha w s
                      left (λ j. (applied j, world j)),
                ),
              ),
            )
      ]

  in_ledger-Revoked :
      (l : Option Ledger × Bytes) (asked w left : W)
      → (load_ledger rt.codec gh req.app_id asked).0 ≡ ok l
      → IsComplete
      → in_ledger rt gh req (trim_space req.serial) l w ≡ (ok tt, left)
      → Revoked left
  unfolding in_ledger
  in_ledger-Revoked (none, sha) asked w left loaded complete h = cc (ap (λ r. r.0) h)
  in_ledger-Revoked (some base, sha) asked w left loaded complete h =
      let (i, c, first, (from, dated, (s, written))) =
        revoke-Revoked (trim_space req.serial) base sha w left h in
      record {
        complete = complete;
        base = base;
        sha = sha;
        asked = asked;
        loaded = loaded;
        index = i;
        cert = c;
        first = first;
        from = from;
        dated = dated;
        result = s;
        written = written;
      }

  -- When a privileged revocation succeeds, the request had a legal appId, a serial, a reason and an
  -- actor; the ledger of the appId that was loaded had a certificate with that serial; and one write
  -- went through, of that ledger or of one loaded again after a conflict, in which the certificate
  -- with the serial is revoked with that reason and actor, from the date asked for or else the
  -- notBefore of the certificate found first, and in no case from a date before that notBefore.
  pub privileged_process-Revoked :
      (w left : W) → privileged_process rt gh req w ≡ (ok tt, left) → Revoked left
  unfolding privileged_process
  privileged_process-Revoked w left h =
      let (serial, checked, step, h1) =
        >>=-eq-ok (lift (check_request rt gh req)) _ w tt (ap (λ r. r.0) h) in
      let (trimmed, complete) = check_request-eq-ok serial checked in
      let load = load_ledger rt.codec gh req.app_id in
      let (l, loaded, next, _) = >>=-eq-ok load _ w tt h1 in
      let runs : in_ledger rt gh req serial l (load w).1 ≡ (ok tt, left) = sym (step ∙ next) ∙ h in
      in_ledger-Revoked l w (load w).1 left loaded complete (rw trimmed at runs)
