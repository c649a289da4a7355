-- ===== src/GitHub.antt =====
-- internal/ghclient: the calls of the GitHub API that the bots make, as an interface over the state
-- behind it.
pub mod Fake
pub mod Versioned
pub mod Rest
use developer_certificates.Common.{ℕ, Bool, List, Bytes, codes}
use developer_certificates.Common.Int.{ℤ}
use developer_certificates.Clock.{Time}
use developer_certificates.Effects.{⊤, Action, Error, Sentinel}

unfoldable pub err_not_found : Error
unfolding codes
err_not_found = record { sentinel = Sentinel.not_found; text = codes "ghclient: not found" }

unfoldable pub err_conflict : Error
unfolding codes
err_conflict = record {
  sentinel = Sentinel.conflict;
  text = codes "ghclient: ledger write conflict";
}

pub record Author : Type 0 where
  pub login : Bytes
  pub user_id : ℤ

pub record Issue : Type 0 where
  pub number : ℕ
  pub body : Bytes
  pub author : Author
  pub labels : List Bytes

pub record Comment : Type 0 where
  pub body : Bytes
  pub created_at : Time

-- `W` is the state of the world behind the calls. A content comes with its blob SHA.
pub record GitHub (W : Type 0) : Type 0 where
  pub list_open_cert_requests : Action W (List Issue)
  pub list_open_revocation_requests : Action W (List Issue)
  pub own_comments : ℕ → Action W (List Comment)
  pub post_comment : ℕ → Bytes → Action W ⊤
  pub set_labels : ℕ → List Bytes → List Bytes → Action W ⊤
  pub close_issue : ℕ → Action W ⊤
  pub get_file : Bytes → Bytes → Action W (Bytes × Bytes)
  pub repo_accessible : Bytes → Action W Bool
  pub get_ledger : Bytes → Action W (Bytes × Bytes)
  pub put_ledger : Bytes → Bytes → Bytes → Bytes → Action W ⊤
  pub put_file : Bytes → Bytes → Bytes → Bytes → Bytes → Action W ⊤
