-- ===== src/Revoke/Apply.antt =====
-- internal/revoke/steps.go: the ledger is read, the certificate is flipped to revoked, and the ledger
-- is written back, and read again after a conflict.
pub mod Flip
pub mod Rewritten
use developer_certificates.Common.{
  ℕ, zero, suc, Bool, true, false, Option, none, some, List, [], ◌∷◌, ◌++◌, Bytes, codes, get_elem?,
  set, if◌then◌else◌,
}
use developer_certificates.Clock.{Time}
use developer_certificates.Decimal.{decimal}
use developer_certificates.Effects.{
  ⊤, Action, Error, Result, ok, err, errorf, wrap, attempt, context, pure, fail, lift, is_not_found,
  is_conflict, ◌>>=◌,
}
use developer_certificates.GitHub.{GitHub}
use developer_certificates.Ledger.{Certificate, Ledger, status_revoked, parse, marshal, Codec}

abbrev pub max_ledger_retries : ℕ
max_ledger_retries = 5

abbrev pub Loaded : Type 0
Loaded = Option Ledger × Bytes

pub record Revocation : Type 0 where
  pub reason : Bytes
  pub revoked_from : Time
  pub actor : Bytes

abbrev pub FindFunc : Type 0
FindFunc = Option Ledger → Option ℕ

-- The certificate with the fields of the revocation written on it.
unfoldable pub flip : Revocation → Certificate → Certificate
flip rev c = record c {
  status = status_revoked;
  revoked_from = some rev.revoked_from;
  reason = rev.reason;
  actor = rev.actor;
}

-- The target, as the finder locates it in a ledger: the ledger, the index and the certificate there.
-- A finder that names an index behind the end makes the source panic; no finder does.
unfoldable pub target : FindFunc → Option Ledger → Option (Ledger × ℕ × Certificate)
target find none = none
target find (some l) = elim (find (some l)) [
  | none ↦ none
  | some i ↦ elim (get_elem? l.certificates i) [ none ↦ none | some c ↦ some (l, i, c) ]
]

unfoldable pub flipped : Revocation → Ledger → ℕ → Certificate → Ledger
flipped rev l i c = record l { certificates = set l.certificates i (flip rev c) }

abbrev is_empty : Bytes → Bool
is_empty [] = true
is_empty (_ ∷ _) = false

unfoldable pub commit_message : Revocation → Certificate → Bytes → Bytes
commit_message rev c app_id =
    if is_empty rev.actor
    then codes "ledger: revoke " ++ (c.serial ++ (codes " for " ++ app_id))
    else codes "ledger: privileged revoke "
      ++ (c.serial ++ (codes " for " ++ (app_id ++ (codes " (" ++ (rev.actor ++ codes ")")))))

unfoldable pub vanished : Bytes → Error
vanished app_id =
    errorf (codes "revoke: target cert vanished from ledger " ++ (app_id ++ codes " during retry"))

unfoldable pub retries_exhausted : Bytes → Error → Error
retries_exhausted app_id last_conflict =
    wrap
      (codes "revoke: ledger write for "
        ++ (app_id
            ++ (codes " conflicted after " ++ (decimal max_ledger_retries ++ codes " retries"))))
      last_conflict

module _ {W : Type 0} (codec : Codec) (gh : GitHub W) where
  unfoldable pub loaded : Bytes → Result (Bytes × Bytes) → Result Loaded
  loaded app_id (err e) =
      if is_not_found e then ok (none, []) else err (wrap (codes "revoke: read ledger") e)
  loaded app_id (ok (text, sha)) = elim (parse codec text) [
    | err e ↦ err (wrap (codes "revoke: parse ledger " ++ app_id) e)
    | ok l ↦ ok (some l, sha)
  ]

  unfoldable pub load_ledger : Bytes → Action W Loaded
  load_ledger app_id = do answer ← attempt (gh.get_ledger app_id); lift (loaded app_id answer)

  -- What follows a write; `again` is the rest of the loop after a conflict. The result is the serial
  -- of the certificate.
  unfoldable pub after_write : Bytes → (Error → Action W Bytes) → Result ⊤ → Action W Bytes
  after_write serial again (ok _) = pure serial
  after_write serial again (err e) =
      if is_conflict e then again e else fail (wrap (codes "revoke: write ledger") e)

  -- One turn of the loop, for the target in the ledger.
  unfoldable pub write_flipped :
      Bytes
      → Revocation
      → Bytes
      → (Error → Action W Bytes)
      → Ledger × ℕ × Certificate
      → Action W Bytes
  write_flipped app_id rev prev_sha again t = do
    text ← context (codes "revoke: marshal ledger") (lift (marshal codec (flipped rev t.0 t.1 t.2)))
    written ← attempt (gh.put_ledger app_id text prev_sha (commit_message rev t.2 app_id))
    after_write t.2.serial again written

  -- The loop, with the attempts that are left and the last conflict.
  unfoldable pub apply_from :
      Bytes → FindFunc → Revocation → ℕ → Error → Option Ledger → Bytes → Action W Bytes
  apply_from app_id find rev zero last_conflict l prev_sha =
      fail (retries_exhausted app_id last_conflict)
  apply_from app_id find rev (suc attempts) last_conflict l prev_sha = elim (target find l) [
    | none ↦ fail (vanished app_id)
    | some t ↦
        write_flipped app_id rev prev_sha
          (λ e. load_ledger app_id >>= λ r. apply_from app_id find rev attempts e r.0 r.1) t
  ]

  -- The empty error stands for the nil before any conflict, and is never reported.
  unfoldable pub apply_revocation :
      Bytes → FindFunc → Revocation → Option Ledger → Bytes → Action W Bytes
  apply_revocation app_id find rev l prev_sha =
      apply_from app_id find rev max_ledger_retries (errorf []) l prev_sha
