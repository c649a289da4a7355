-- ===== src/Cmd/Batch.antt =====
-- The loop of cmd/issuer and of cmd/revoker over the open issues.
use developer_certificates.Common.{
  ℕ, zero, suc, ◌≡◌, ◌↔◌, List, [], ◌∷◌, ◌++◌, codes, length, arith, inl, inr,
}
use developer_certificates.Decimal.{decimal}
use developer_certificates.Effects.{⊤, Action, Error, Result, ok, err, errorf, Result-cases}
use developer_certificates.GitHub.{Issue}

abbrev count : Result ⊤ → ℕ → ℕ
count (ok _) n = n
count (err _) n = suc n

-- The number of failures, with the world after the last issue.
unfoldable pub poll : {W : Type 0} → (Issue → Action W ⊤) → List Issue → W → ℕ × W
poll process [] w = (0, w)
poll process (issue ∷ issues) w =
    let (r, w') = process issue w in let (n, left) = poll process issues w' in (count r n, left)

unfoldable pub summary : ℕ → ℕ → Result ⊤
summary zero total = ok tt
summary (suc n) total = err (
    errorf
      (decimal (suc n) ++ (codes " of " ++ (decimal total ++ codes " issue(s) failed this poll"))))

unfoldable pub run_all : {W : Type 0} → (Issue → Action W ⊤) → List Issue → Action W ⊤
run_all process issues w =
    let (n, left) = poll process issues w in (summary n (length issues), left)

summary_iff : (n total : ℕ) → (summary n total ≡ ok tt) ↔ (n ≡ 0)
unfolding summary
summary_iff zero total = ground arith
summary_iff (suc n) total = ground arith

module _ {W : Type 0} (process : Issue → Action W ⊤) where
  -- Every issue was processed, in order, each in the world that the one before left; `n` failed.
  pub data Polled : List Issue → W → ℕ → W → Type 0 where
    nil : {w : W} → Polled [] w 0 w
    good :
        {issue : Issue} {issues : List Issue} {w left : W} {n : ℕ}
        → (process issue w).0 ≡ ok tt
        → Polled issues (process issue w).1 n left
        → Polled (issue ∷ issues) w n left
    bad :
        {issue : Issue} {issues : List Issue} {w left : W} {n : ℕ} (e : Error)
        → (process issue w).0 ≡ err e
        → Polled issues (process issue w).1 n left
        → Polled (issue ∷ issues) w (suc n) left

  poll-Polled :
      (issues : List Issue) (w : W)
      → Polled issues w (poll process issues w).0 (poll process issues w).1
  unfolding poll
  poll-Polled [] w = nil
  poll-Polled (issue ∷ issues) w = elim (Result-cases (process issue w).0) [
    | inl (_, fine) ↦ rw (fine, poll) (good fine (poll-Polled issues (process issue w).1))
    | inr (e, fails) ↦ rw (fails, poll) (bad e fails (poll-Polled issues (process issue w).1))
  ]

  -- A run processes every open issue once, in order and each in the world that the one before left,
  -- also after a failure, and it succeeds exactly when none failed.
  pub run_all-Polled :
      (issues : List Issue) (w : W)
      → (n : ℕ) × Polled issues w n (run_all process issues w).1
        × (((run_all process issues w).0 ≡ ok tt) ↔ (n ≡ 0))
  unfolding run_all
  run_all-Polled issues w = (
    (poll process issues w).0,
    poll-Polled issues w,
    summary_iff (poll process issues w).0 (length issues),
  )
