-- ===== src/GitHub/Fake.antt =====
-- internal/ghclient/fake: the in-memory client, with the Contents API's guard on stale writes.
pub mod Store
use developer_certificates.Common.{
  ℕ, ◌+◌, Bool, true, false, not, ◌&&◌, Option, none, some, List, [], ◌∷◌, ◌++◌, Bytes, codes,
  bytes_eq, ◌==◌, if◌then◌else◌,
}
use developer_certificates.Decimal.{decimal}
use developer_certificates.Effects.{⊤, Action, Result, ok, err, Error}
use developer_certificates.GitHub.{Issue, Comment, GitHub, err_not_found, err_conflict}

pub record Blob : Type 0 where
  pub content : Bytes
  pub sha : Bytes

-- A map is a function; a missing key of a map to slices is the nil slice, of a map to bools false.
pub record Client : Type 0 where
  pub issues : List Issue
  pub revocation_issues : List Issue
  pub own_comments_by_issue : ℕ → List Comment
  pub files : Bytes → Option Blob
  pub ledgers : Bytes → Option Blob
  pub posted_comments : ℕ → List Bytes
  pub labels_added : ℕ → List Bytes
  pub labels_removed : ℕ → List Bytes
  pub closed : ℕ → Bool
  pub fail_next_put_with_conflict : Bool
  pub inaccessible_repos : Bytes → Bool
  pub next_sha : ℕ

-- m[k] = v
abbrev pub update {ℓ} : {V : Type ℓ} → (Bytes → V) → Bytes → V → Bytes → V
update m k v j = if bytes_eq k j then v else m j

abbrev pub update_at {ℓ} : {V : Type ℓ} → (ℕ → V) → ℕ → V → ℕ → V
update_at m k v j = if k == j then v else m j

unfoldable pub new : Client
new = record {
  issues = [];
  revocation_issues = [];
  own_comments_by_issue = λ _. [];
  files = λ _. none;
  ledgers = λ _. none;
  posted_comments = λ _. [];
  labels_added = λ _. [];
  labels_removed = λ _. [];
  closed = λ _. false;
  fail_next_put_with_conflict = false;
  inaccessible_repos = λ _. false;
  next_sha = 0;
}

unfoldable pub file_key : Bytes → Bytes → Bytes
file_key repo path = repo ++ 0 ∷ path

unfoldable pub mark_repo_inaccessible : Bytes → Client → Client
mark_repo_inaccessible repo c = record c {
  inaccessible_repos = update c.inaccessible_repos repo true;
}

-- The SHA, and the client with the counter moved on.
unfoldable pub mint_sha : Client → Bytes × Client
unfolding codes decimal
mint_sha c = (codes "sha" ++ decimal (c.next_sha + 1), record c { next_sha = c.next_sha + 1 })

unfoldable pub set_file : Bytes → Bytes → Bytes → Client → Client
unfolding mint_sha file_key
set_file repo path content c =
    let (sha, c') = mint_sha c in
    record c' {
      files = update c'.files (file_key repo path) (some (record { content = content; sha = sha }));
    }

unfoldable pub set_ledger : Bytes → Bytes → Client → Bytes × Client
unfolding mint_sha
set_ledger app_id content c =
    let (sha, c') = mint_sha c in
    (
      sha,
      record c' {
        ledgers = update c'.ledgers app_id (some (record { content = content; sha = sha }));
      },
    )

abbrev is_empty : Bytes → Bool
is_empty [] = true
is_empty (_ ∷ _) = false

-- Whether the SHA that the writer expects is not the one that is stored.
unfoldable pub is_stale : Option Blob → Bytes → Bool
unfolding bytes_eq
is_stale none prev_sha = not (is_empty prev_sha)
is_stale (some existing) prev_sha = not (bytes_eq existing.sha prev_sha)

unfoldable pub check_prev_sha : Option Blob → Bytes → Client → Result ⊤ × Client
unfolding is_stale err_conflict
check_prev_sha existing prev_sha c =
    if c.fail_next_put_with_conflict
    then (err err_conflict, record c { fail_next_put_with_conflict = false })
    else (if is_stale existing prev_sha then err err_conflict else ok tt, c)

unfoldable pub get_blob : Option Blob → Result (Bytes × Bytes)
unfolding err_not_found
get_blob none = err err_not_found
get_blob (some b) = ok (b.content, b.sha)

unfoldable pub get_file : Bytes → Bytes → Action Client (Bytes × Bytes)
unfolding get_blob file_key err_not_found
get_file repo path c = (
  if c.inaccessible_repos repo then err err_not_found else get_blob (c.files (file_key repo path)),
  c,
)

unfoldable pub get_ledger : Bytes → Action Client (Bytes × Bytes)
unfolding get_blob
get_ledger app_id c = (get_blob (c.ledgers app_id), c)

unfoldable pub put_ledger : Bytes → Bytes → Bytes → Bytes → Action Client ⊤
unfolding check_prev_sha set_ledger
put_ledger app_id content prev_sha message c =
    let (r, c') = check_prev_sha (c.ledgers app_id) prev_sha c in
    elim r [ err e ↦ (err e, c') | ok _ ↦ (ok tt, (set_ledger app_id content c').1) ]

unfoldable pub put_file : Bytes → Bytes → Bytes → Bytes → Bytes → Action Client ⊤
unfolding check_prev_sha set_file file_key
put_file repo path content prev_sha message c =
    let (r, c') = check_prev_sha (c.files (file_key repo path)) prev_sha c in
    elim r [ err e ↦ (err e, c') | ok _ ↦ (ok tt, set_file repo path content c') ]

unfoldable pub post_comment : ℕ → Bytes → Action Client ⊤
post_comment issue body c = (
  ok tt,
  record c {
    posted_comments = update_at c.posted_comments issue (c.posted_comments issue ++ body ∷ []);
  },
)

unfoldable pub set_labels : ℕ → List Bytes → List Bytes → Action Client ⊤
set_labels issue add remove c = (
  ok tt,
  record c {
    labels_added = update_at c.labels_added issue (c.labels_added issue ++ add);
    labels_removed = update_at c.labels_removed issue (c.labels_removed issue ++ remove);
  },
)

unfoldable pub close_issue : ℕ → Action Client ⊤
close_issue issue c = (ok tt, record c { closed = update_at c.closed issue true })

-- The methods of *Client, as an implementation of the interface.
unfoldable pub client : GitHub Client
unfolding post_comment set_labels close_issue get_file get_ledger put_ledger put_file
client = record {
  list_open_cert_requests = λ c. (ok c.issues, c);
  list_open_revocation_requests = λ c. (ok c.revocation_issues, c);
  own_comments = λ issue c. (ok (c.own_comments_by_issue issue), c);
  post_comment = post_comment;
  set_labels = set_labels;
  close_issue = close_issue;
  get_file = get_file;
  repo_accessible = λ repo c. (ok (not (c.inaccessible_repos repo)), c);
  get_ledger = get_ledger;
  put_ledger = put_ledger;
  put_file = put_file;
}
