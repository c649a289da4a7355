-- ===== src/Enroll/Process/OnFake.antt =====
-- A poll of the issuer bot against the in-memory client.
use developer_certificates.Common.{ℕ, ◌≡◌, ◌⊎◌, ◌∙◌, refl, ap, Option, Bytes}
use developer_certificates.Effects.Keep.{Keeps}
use developer_certificates.GitHub.{Issue}
use developer_certificates.GitHub.Fake.{
  Blob, Client, client, get_file, get_ledger, post_comment, set_labels,
}
use developer_certificates.Runtime.{Runtime}
use developer_certificates.Enroll.Issuance.{Deps}
use developer_certificates.Enroll.Process.{process}
use developer_certificates.Enroll.Process.Cleared.{Cleared}
use developer_certificates.Enroll.Process.Clearance.{process-cases}
use developer_certificates.Enroll.Process.Quiet.{IsQuiet, IsRead}

-- The ledgers are these.
abbrev pub HasLedgers : (Bytes → Option Blob) → Client → Type 0
HasLedgers ledgers c = c.ledgers ≡ ledgers

-- The same collaborators, on the in-memory client.
unfoldable pub on_fake : Deps Client → Deps Client
unfolding client
on_fake d = record d { gh = client }

module _ (d : Deps Client) (ledgers : Bytes → Option Blob)
    (clock_keeps : (c : Client) → HasLedgers ledgers c → HasLedgers ledgers (d.clock c).1)
    (rand_keeps : (n : ℕ) → Keeps (HasLedgers ledgers) (d.rand n)) where
  pub on_fake-IsQuiet : IsQuiet (on_fake d) (HasLedgers ledgers)
  unfolding on_fake client post_comment set_labels get_file get_ledger
  on_fake-IsQuiet = record {
    own_comments = λ n c h. h;
    post_comment = λ n body c h. h;
    set_labels = λ n add remove c h. h;
    get_file = λ repo path c h. h;
    repo_accessible = λ repo c h. h;
    get_ledger = λ app_id c h. h;
    clock = clock_keeps;
    rand = rand_keeps;
  }

-- The reads of the in-memory client change nothing at all.
pub on_fake-IsRead :
    (d : Deps Client) (c : Client)
    → ((k : Client) → (d.clock k).1 ≡ k)
    → IsRead (on_fake d) (λ k. k ≡ c)
unfolding on_fake client get_file get_ledger
on_fake-IsRead d c still = record {
  own_comments = λ n k h. h;
  get_file = λ repo path k h. h;
  get_ledger = λ app_id k h. h;
  clock = λ k h. still k ∙ h;
}

-- A poll leaves every ledger of the in-memory hub as it was, or the request has passed every stage, on
-- what the hub held when the poll began (its comments, files, ledger and time), and the poll ended in
-- the minting. The clock changes nothing on the hub, and the reader of randomness no ledger.
pub process-HasLedgers :
    (rt : Runtime) (d : Deps Client) (issue : Issue) (c : Client)
    → ((k : Client) → (d.clock k).1 ≡ k)
    → ((n : ℕ) → Keeps (HasLedgers c.ledgers) (d.rand n))
    → ((process rt (on_fake d) issue c).1.ledgers ≡ c.ledgers)
      ⊎ Cleared rt
          (on_fake d)
          issue
          (HasLedgers c.ledgers)
          (λ k. k ≡ c)
          (process rt (on_fake d) issue c)
process-HasLedgers rt d issue c still rand_keeps =
    process-cases rt (on_fake d) issue (HasLedgers c.ledgers) (λ k. k ≡ c)
      (on_fake-IsQuiet d c.ledgers (λ k h. ap (λ x. x.ledgers) (still k) ∙ h) rand_keeps)
      (on_fake-IsRead d c still) c refl refl
