-- ===== src/Enroll/Ledgers.antt =====
-- internal/enroll/steps.go, loadLedger and commitLedger: the ledger is read, extended and written
-- back, and read again after a conflict.
pub mod Written
pub mod Retry
pub mod Progress
pub mod Appended
use developer_certificates.Common.{
  ℕ, zero, suc, Bool, Option, none, some, [], ◌∷◌, ◌++◌, Bytes, codes, if◌then◌else◌,
}
use developer_certificates.Clock.{Time}
use developer_certificates.Decimal.{decimal}
use developer_certificates.Effects.{
  ⊤, Action, Error, Result, ok, err, errorf, wrap, attempt, context, pure, fail, lift, always,
  is_not_found, is_conflict, ◌>>=◌,
}
use developer_certificates.GitHub.{GitHub}
use developer_certificates.Ledger.{Certificate, Ledger, origin_github, parse, marshal, Codec}

-- maxLedgerRetries
abbrev pub max_ledger_retries : ℕ
max_ledger_retries = 5

-- A ledger with the SHA of its file; (nil, "") where there is none.
abbrev pub Loaded : Type 0
Loaded = Option Ledger × Bytes

-- A new claim, bound to the proven repository.
unfoldable pub new_ledger : Bytes → Bytes → Time → Ledger
new_ledger app_id repo now = record {
  app_id = app_id;
  owner = record { origin = origin_github; repo = repo };
  claimed_at = now;
  reserved = Bool.false;
  certificates = [];
}

-- The ledger that an attempt writes.
unfoldable pub extended : Bytes → Bytes → Time → Certificate → Option Ledger → Ledger
extended app_id repo now entry existing =
    let l : Ledger = elim existing [ none ↦ new_ledger app_id repo now | some old ↦ old ] in
    record l { certificates = l.certificates ++ entry ∷ [] }

unfoldable pub retries_exhausted : Bytes → Error → Error
retries_exhausted app_id last_conflict =
    wrap
      (codes "enroll: ledger write for "
        ++ (app_id
            ++ (codes " conflicted after " ++ (decimal max_ledger_retries ++ codes " retries"))))
      last_conflict

module _ {W : Type 0} (codec : Codec) (gh : GitHub W) where
  -- What `loadLedger` makes of the answer to its read.
  unfoldable pub loaded : Bytes → Result (Bytes × Bytes) → Result Loaded
  loaded app_id (err e) =
      if is_not_found e then ok (none, []) else err (wrap (codes "enroll: read ledger") e)
  loaded app_id (ok (text, sha)) = elim (parse codec text) [
    | err e ↦ err (wrap (codes "enroll: parse ledger " ++ app_id) e)
    | ok l ↦ ok (some l, sha)
  ]

  unfoldable pub load_ledger : Bytes → Action W Loaded
  load_ledger app_id = do answer ← attempt (gh.get_ledger app_id); lift (loaded app_id answer)

  -- What follows a write; `again` is the rest of the loop after a conflict.
  unfoldable pub after_write : (Error → Action W ⊤) → Result ⊤ → Action W ⊤
  after_write again (ok _) = pure tt
  after_write again (err e) =
      if is_conflict e then again e else fail (wrap (codes "enroll: write ledger") e)

  -- One turn of the loop, for the ledger that it writes.
  unfoldable pub write_extended : Bytes → Bytes → (Error → Action W ⊤) → Ledger → Action W ⊤
  write_extended app_id prev_sha again next = do
    text ← context (codes "enroll: marshal ledger") (lift (marshal codec next))
    written ←
        attempt (gh.put_ledger app_id text prev_sha (codes "ledger: issue cert for " ++ app_id))
    after_write again written

  -- The loop, with the attempts that are left and the last conflict.
  unfoldable pub commit_from :
      Bytes → Bytes → Certificate → Time → ℕ → Error → Option Ledger → Bytes → Action W ⊤
  commit_from app_id repo entry now zero last_conflict existing prev_sha =
      fail (retries_exhausted app_id last_conflict)
  commit_from app_id repo entry now (suc attempts) last_conflict existing prev_sha =
      write_extended app_id prev_sha
        (λ e. load_ledger app_id >>= λ r. commit_from app_id repo entry now attempts e r.0 r.1)
        (extended app_id repo now entry existing)

  -- The first attempt stands before any conflict, and the first error that is kept is the first
  -- conflict, so the empty error given here is never reported.
  unfoldable pub commit_ledger :
      (W → Time × W) → Bytes → Bytes → Certificate → Option Ledger → Bytes → Action W ⊤
  commit_ledger clock app_id repo entry existing prev_sha = do
    now ← always clock
    commit_from app_id repo entry now max_ledger_retries (errorf []) existing prev_sha
