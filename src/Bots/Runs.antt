-- ===== src/Bots/Runs.antt =====
-- The loop of the issuer bot, as steps of the interleaved runs.
use developer_certificates.Common.{
  ℕ, zero, suc, ◌≡◌, inl, inr, refl, ap, sym, ◌∙◌, Option, some, Bytes, ==_refl,
}
use developer_certificates.Clock.{Time}
use developer_certificates.Effects.{Error, ok}
use developer_certificates.Effects.Keep.{>>=-eq-ok}
use developer_certificates.GitHub.{GitHub}
use developer_certificates.GitHub.Versioned.{View}
use developer_certificates.Ledger.{Certificate, Ledger, Codec}
use developer_certificates.Enroll.Ledgers.{extended, commit_from, load_ledger as load_to_issue}
use developer_certificates.Enroll.Ledgers.Written.{write_extended-eq-ok}
use developer_certificates.Bots.{
  Job, issue, next, Phase, idle, holding, done, System, move, load_ledger, Step, read, write,
  refuse, Reach, start, later,
}

module _ {W : Type 0} (codec : Codec) (gh : GitHub W) (view : W → View) (app_id : Bytes)
    (job : ℕ → Job) where
  pub Reach-trans :
      {s t u : System W}
      → Reach codec gh view app_id job s t
      → Reach codec gh view app_id job t u
      → Reach codec gh view app_id job s u
  Reach-trans r start = r
  Reach-trans r (later q step) = later (Reach-trans r q) step

  pub move-phase : (s : System W) (w : W) (i : ℕ) (p : Phase) → (move s w i p).phase i ≡ p
  move-phase s w i p = rw (==_refl i) refl

  module _ (i : ℕ) (repo : Bytes) (entry : Certificate) (now : Time)
      (is : job i ≡ issue repo entry now) where
    wants :
        (existing : Option Ledger)
        → next app_id (job i) existing
          ≡ some (extended app_id repo now entry existing, entry.serial)
    unfolding next
    wants existing = rw is refl

    reads :
        (w w' : W) (existing : Option Ledger) (sha : Bytes)
        → load_to_issue codec gh app_id w ≡ (ok (existing, sha), w')
        → load_ledger codec gh app_id (job i) w ≡ (ok (existing, sha), w')
    unfolding load_ledger
    reads w w' existing sha got = rw is got

    -- When a run of the issuer bot holds a ledger that it read, and the loop of that bot, given this
    -- ledger and its SHA, commits the entry, the reads and writes of the loop are steps of the
    -- interleaved runs: they lead from that system to one whose world is what the loop leaves and in
    -- which the run has reported the serial of the entry.
    pub commit_from-Reach :
        (attempts : ℕ) (last : Error) (existing : Option Ledger) (sha : Bytes) (s : System W)
        (left : W)
        → s.phase i ≡ holding existing sha
        → commit_from codec gh app_id repo entry now attempts last existing sha s.world
          ≡ (ok tt, left)
        → (t : System W) × Reach codec gh view app_id job s t
          × (t.world ≡ left)
          × (t.phase i ≡ done entry.serial)
    unfolding commit_from
    commit_from-Reach zero last existing sha s left at h = cc (ap (λ r. r.0) h)
    commit_from-Reach (suc attempts) last existing sha s left at h =
        elim (write_extended-eq-ok codec gh app_id sha _ _ s.world left h) [
          | inl (text, encoded, put) ↦ (
            move s left i (done entry.serial),
            later start (write i at (wants existing) encoded put),
            refl,
            move-phase s left i (done entry.serial),
          )
          | inr (text, e, w, encoded, put, again) ↦
              let load = load_to_issue codec gh app_id in
              let ((base, base_sha), loaded, runs, _) =
                >>=-eq-ok load _ w tt (ap (λ r. r.0) again) in
              let refused = move s w i idle in
              let held = move refused (load w).1 i (holding base base_sha) in
              let first : Step codec gh view app_id job s refused =
                refuse i at (wants existing) encoded put in
              let second : Step codec gh view app_id job refused held =
                read i (reads w (load w).1 base base_sha (λ j. (loaded j, (load w).1))) in
              let (t, rest, world, phase) =
                commit_from-Reach attempts e base base_sha held left
                  (move-phase refused (load w).1 i (holding base base_sha)) (sym runs ∙ again) in
              (t, Reach-trans (later (later start first) second) rest, world, phase)
        ]
