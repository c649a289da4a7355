-- ===== src/Bots/Revocations.antt =====
-- The loop of the revocation bots, as steps of the interleaved runs.
use developer_certificates.Common.{
  ℕ, zero, suc, ◌≡◌, inl, inr, refl, ap, sym, ◌∙◌, Option, some, Bytes, Option-cases,
}
use developer_certificates.Effects.{Error, ok}
use developer_certificates.Effects.Keep.{>>=-eq-ok}
use developer_certificates.GitHub.{GitHub}
use developer_certificates.GitHub.Versioned.{View}
use developer_certificates.Ledger.{Certificate, Ledger, Codec}
use developer_certificates.Revoke.Apply.{
  Revocation, FindFunc, target, flipped, apply_from, load_ledger as load_to_revoke,
}
use developer_certificates.Revoke.Apply.Rewritten.{write_flipped-eq-ok}
use developer_certificates.Bots.{
  Job, revoke, next, idle, holding, done, System, move, load_ledger, Step, read, write, refuse,
  Reach, start, later,
}
use developer_certificates.Bots.Runs.{Reach-trans, move-phase}

module _ {W : Type 0} (codec : Codec) (gh : GitHub W) (view : W → View) (app_id : Bytes)
    (job : ℕ → Job) (i : ℕ) (find : FindFunc) (rev : Revocation)
    (is : job i ≡ revoke find rev) where
  wants :
      (existing : Option Ledger) {t : Ledger × ℕ × Certificate}
      → target find existing ≡ some t
      → next app_id (job i) existing ≡ some (flipped rev t.0 t.1 t.2, t.2.serial)
  unfolding next
  wants existing found = rw (is, next, found) refl

  reads :
      (w w' : W) (existing : Option Ledger) (sha : Bytes)
      → load_to_revoke codec gh app_id w ≡ (ok (existing, sha), w')
      → load_ledger codec gh app_id (job i) w ≡ (ok (existing, sha), w')
  unfolding load_ledger
  reads w w' existing sha got = rw is got

  -- When a run of a revocation bot holds a ledger that it read, and the loop of that bot, given this
  -- ledger and its SHA, succeeds with a serial, the reads and writes of the loop are steps of the
  -- interleaved runs: they lead from that system to one whose world is what the loop leaves and in
  -- which the run has reported that serial.
  pub apply_from-Reach :
      (attempts : ℕ) (last : Error) (existing : Option Ledger) (sha serial : Bytes) (s : System W)
      (left : W)
      → s.phase i ≡ holding existing sha
      → apply_from codec gh app_id find rev attempts last existing sha s.world ≡ (ok serial, left)
      → (t : System W) × Reach codec gh view app_id job s t
        × (t.world ≡ left)
        × (t.phase i ≡ done serial)
  unfolding apply_from
  apply_from-Reach zero last existing sha serial s left at h = cc (ap (λ r. r.0) h)
  apply_from-Reach (suc attempts) last existing sha serial s left at h =
      elim (Option-cases (target find existing)) [
        | inl gone ↦ cc (ap (λ r. r.0) (rw (apply_from, gone) at h))
        | inr (t, found) ↦
            elim (write_flipped-eq-ok codec gh app_id find rev sha _ t s.world serial left
              (rw (apply_from, found) at h)) [
                | inl (text, encoded, put, named) ↦ (
                  move s left i (done t.2.serial),
                  later start (write i at (wants existing found) encoded put),
                  refl,
                  move-phase codec gh view app_id job s left i (done t.2.serial)
                      ∙ ap done (sym named),
                )
                | inr (text, e, w, encoded, put, again) ↦
                    let load = load_to_revoke codec gh app_id in
                    let ((base, base_sha), loaded, runs, _) =
                      >>=-eq-ok load _ w serial (ap (λ r. r.0) again) in
                    let refused = move s w i idle in
                    let held = move refused (load w).1 i (holding base base_sha) in
                    let first : Step codec gh view app_id job s refused =
                      refuse i at (wants existing found) encoded put in
                    let second : Step codec gh view app_id job refused held =
                      read i (reads w (load w).1 base base_sha (λ j. (loaded j, (load w).1))) in
                    let (u, rest, world, phase) =
                      apply_from-Reach attempts e base base_sha serial held left
                        (move-phase codec gh view app_id job refused (load w).1 i
                          (holding base base_sha))
                        (sym runs ∙ again) in
                    (
                      u,
                      Reach-trans codec gh view app_id job (later (later start first) second) rest,
                      world,
                      phase,
                    )
              ]
      ]
