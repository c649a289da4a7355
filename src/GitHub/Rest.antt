-- ===== src/GitHub/Rest.antt =====
-- internal/ghclient/rest: the hub's interface over the REST API. Every caller drops the status that
-- `do` returns beside its error, and the model does not return it; a nil HTTP client is the default
-- one, and `http` stands for either.
pub mod Transport
pub mod Outcome
pub mod Comments
pub mod Api
pub mod Refinement
use developer_certificates.Common.{
  ℕ, Bool, true, false, ◌&&◌, ◌||◌, Option, none, some, List, [], ◌∷◌, ◌++◌, Bytes, codes, bytes_eq,
  ltb, leb, ◌==◌, if◌then◌else◌,
}
use developer_certificates.Decimal.{decimal}
use developer_certificates.Effects.{
  ⊤, Action, Error, Sentinel, Result, ok, err, errorf, wrap, mark, attempt, context, pure, fail,
  lift, is_not_found, ◌>>=◌,
}
use developer_certificates.GitHub.{GitHub, Issue, Comment, err_not_found, err_conflict}
use developer_certificates.Text.{trim_space, trim_right_byte, trim_prefix, remove_byte}
use developer_certificates.GitHub.Rest.Transport.{
  Payload, no_content, object, names, HttpRequest, HttpResponse, RawIssue, RawComment,
  ContentsResponse, Http,
}

unfoldable pub default_api_base : Bytes
default_api_base = codes "https://api.github.com"

unfoldable pub accept_header : Bytes
accept_header = codes "application/vnd.github+json"

unfoldable pub api_version : Bytes
api_version = codes "2022-11-28"

unfoldable pub cert_request_label : Bytes
cert_request_label = codes "cert-request"

unfoldable pub revocation_label : Bytes
revocation_label = codes "revocation-request"

pub record Config : Type 0 where
  pub token : Bytes
  pub bot_login : Bytes
  pub repo : Bytes
  pub api_base : Bytes

pub record Client : Type 0 where
  pub cfg : Config
  pub base : Bytes

abbrev is_empty : Bytes → Bool
is_empty [] = true
is_empty (_ ∷ _) = false

unfoldable pub new : Config → Result Client
unfolding trim_right_byte default_api_base codes
new cfg =
    if is_empty cfg.token || is_empty cfg.bot_login || is_empty cfg.repo
    then err (errorf (codes "rest: Token, BotLogin and Repo are required"))
    else ok (record {
      cfg = cfg;
      base =
          trim_right_byte b'/' (if is_empty cfg.api_base then default_api_base else cfg.api_base);
    })

-- err == ghclient.ErrNotFound: the error itself and not one that wraps it.
unfoldable pub is_err_not_found : Error → Bool
unfolding err_not_found bytes_eq
is_err_not_found e = is_not_found e && bytes_eq e.text err_not_found.text

-- The variable behind `out`: what it holds when nothing is decoded, and its decoder; a nil `out` has
-- none.
pub record Out (A : Type 0) : Type 0 where
  pub initial : A
  pub decoder : Option (Bytes → Result A)

abbrev pub no_out : Out ⊤
no_out = record { initial = tt; decoder = none }

unfoldable pub decode : {A : Type 0} → Out A → Bytes → Result A
decode out [] = ok out.initial
decode out (b ∷ more) = elim out.decoder [
  | none ↦ ok out.initial
  | some f ↦ elim (f (b ∷ more)) [
    | err e ↦ err (wrap (codes "rest: decode response") e)
    | ok a ↦ ok a
  ]
]

-- The error of a 409, with the reason that the hub gives.
unfoldable pub conflict : HttpResponse → Error
conflict resp =
    let reason = trim_space resp.body in
    if is_empty reason
    then err_conflict
    else mark Sentinel.conflict err_conflict.text (resp.status ++ (codes ": " ++ reason))

unfoldable pub unexpected : Bytes → Bytes → HttpResponse → Error
unexpected method path resp = errorf (
    codes "rest: "
    ++ (method
        ++ (codes " "
            ++ (path ++ (codes ": " ++ (resp.status ++ (codes ": " ++ trim_space resp.body)))))))

-- What `do` makes of a response.
unfoldable pub judge : {A : Type 0} → Bytes → Bytes → Out A → HttpResponse → Result A
judge method path out resp =
    if resp.status_code == 404
    then err err_not_found
    else if resp.status_code == 409
    then err (conflict resp)
    else if ltb resp.status_code 200 || leb 300 resp.status_code
    then err (unexpected method path resp)
    else decode out resp.body

-- The issues among the answers, which hold pull requests too.
unfoldable pub issues_of : List RawIssue → List Issue
issues_of [] = []
issues_of (r ∷ raw) =
    let rest = issues_of raw in
    if r.is_pull_request
    then rest
    else (record {
      number = r.number;
      body = r.body;
      author = record { login = r.login; user_id = r.user_id };
      labels = r.labels;
    })
      ∷ rest

module _ {W : Type 0} (http : Http W) (c : Client) where
  unfoldable pub headers : Payload → List (Bytes × Bytes)
  headers body =
      let content_type : List (Bytes × Bytes) = elim body [
        | no_content ↦ []
        | _ ↦ (codes "Content-Type", codes "application/json") ∷ []
      ] in
      (codes "Authorization", codes "Bearer " ++ c.cfg.token)
      ∷ (codes "Accept", accept_header)
      ∷ (codes "X-GitHub-Api-Version", api_version)
      ∷ content_type

  unfoldable pub content : Payload → Result (Option Bytes)
  content no_content = ok none
  content body = elim (http.marshal body) [
    | err e ↦ err (wrap (codes "rest: marshal body") e)
    | ok text ↦ ok (some text)
  ]

  unfoldable pub build : Bytes → Bytes → Payload → Option Bytes → Result HttpRequest
  build method path body text = elim (http.new_request method (c.base ++ path)) [
    | some e ↦ err (wrap (codes "rest: build request") e)
    | none ↦
        ok
          (record { method = method; url = c.base ++ path; headers = headers body; content = text })
  ]

  -- do
  unfoldable pub call : {A : Type 0} → Bytes → Bytes → Payload → Out A → Action W A
  call method path body out = do
    text ← lift (content body)
    req ← lift (build method path body text)
    resp ← context (codes "rest: " ++ (method ++ (codes " " ++ path))) (http.send req)
    lift (judge method path out resp)

  unfoldable pub issue_path : ℕ → Bytes
  issue_path issue = codes "/repos/" ++ (c.cfg.repo ++ (codes "/issues/" ++ decimal issue))

  unfoldable pub list_open_issues : Bytes → Action W (List Issue)
  list_open_issues label = do
    raw ←
        call (codes "GET")
          (codes "/repos/"
            ++ (c.cfg.repo
                ++ (codes "/issues?state=open&labels=" ++ (label ++ codes "&per_page=100"))))
          no_content (record { initial = []; decoder = some http.unmarshal_issues })
    pure (issues_of raw)

  -- The comments of the bot itself.
  unfoldable pub own_of : List RawComment → List Comment
  own_of [] = []
  own_of (r ∷ raw) =
      let rest = own_of raw in
      if bytes_eq r.login c.cfg.bot_login
      then (record { body = r.body; created_at = r.created_at }) ∷ rest
      else rest

  unfoldable pub own_comments : ℕ → Action W (List Comment)
  own_comments issue = do
    raw ←
        call (codes "GET") (issue_path issue ++ codes "/comments?per_page=100") no_content
          (record { initial = []; decoder = some http.unmarshal_comments })
    pure (own_of raw)

  unfoldable pub post_comment : ℕ → Bytes → Action W ⊤
  post_comment issue body =
      call (codes "POST") (issue_path issue ++ codes "/comments")
        (object ((codes "body", body) ∷ [])) no_out

  -- A label that is not there is no error.
  unfoldable pub after_removal : Action W ⊤ → Result ⊤ → Action W ⊤
  after_removal rest (ok _) = rest
  after_removal rest (err e) = if is_err_not_found e then rest else fail e

  unfoldable pub remove_label : ℕ → Bytes → Action W ⊤
  remove_label issue name =
      call (codes "DELETE") (issue_path issue ++ (codes "/labels/" ++ http.path_escape name))
        no_content no_out

  -- The additions, once the removals are made.
  unfoldable pub add_labels : ℕ → List Bytes → Action W ⊤
  add_labels issue [] = pure tt
  add_labels issue (name ∷ add) =
      call (codes "POST") (issue_path issue ++ codes "/labels")
        (names (codes "labels") (name ∷ add)) no_out

  unfoldable pub set_labels : ℕ → List Bytes → List Bytes → Action W ⊤
  set_labels issue add [] = add_labels issue add
  set_labels issue add (name ∷ remove) = do
    answer ← attempt (remove_label issue name)
    after_removal (set_labels issue add remove) answer

  unfoldable pub close_issue : ℕ → Action W ⊤
  close_issue issue =
      call (codes "PATCH") (issue_path issue) (object ((codes "state", codes "closed") ∷ [])) no_out

  unfoldable pub contents_path : Bytes → Bytes → Bytes
  contents_path repo path =
      codes "/repos/" ++ (repo ++ (codes "/contents/" ++ trim_prefix (codes "/") path))

  -- The API breaks the base64 text into lines.
  unfoldable pub decode_contents : ContentsResponse → Result (Bytes × Bytes)
  decode_contents resp = elim (http.decode_base64 (remove_byte 10 resp.content)) [
    | err e ↦ err (wrap (codes "rest: decode contents") e)
    | ok text ↦ ok (text, resp.sha)
  ]

  unfoldable pub get_contents : Bytes → Bytes → Action W (Bytes × Bytes)
  get_contents repo path = do
    resp ← call (codes "GET") (contents_path repo path) no_content (record {
      initial = record { content = []; sha = [] };
      decoder = some http.unmarshal_contents;
    })
    lift (decode_contents resp)

  unfoldable pub accessible : Result ⊤ → Result Bool
  accessible (ok _) = ok true
  accessible (err e) = if is_not_found e then ok false else err e

  unfoldable pub repo_accessible : Bytes → Action W Bool
  repo_accessible repo = do
    answer ← attempt (call (codes "GET") (codes "/repos/" ++ repo) no_content no_out)
    lift (accessible answer)

  unfoldable pub ledger_path : Bytes → Bytes
  ledger_path app_id = codes "ledger/" ++ (app_id ++ codes ".json")

  -- The absence of a SHA creates the file.
  unfoldable pub put_body : Bytes → Bytes → Bytes → Payload
  put_body text prev_sha message =
      let sha : List (Bytes × Bytes) =
        if is_empty prev_sha then [] else (codes "sha", prev_sha) ∷ [] in
      object ((codes "message", message) ∷ (codes "content", http.encode_base64 text) ∷ sha)

  unfoldable pub put_contents : Bytes → Bytes → Bytes → Bytes → Bytes → Action W ⊤
  put_contents repo path text prev_sha message =
      call (codes "PUT") (contents_path repo path) (put_body text prev_sha message) no_out

  -- The methods of *Client, as an implementation of the interface.
  unfoldable pub client : GitHub W
  client = record {
    list_open_cert_requests = list_open_issues cert_request_label;
    list_open_revocation_requests = list_open_issues revocation_label;
    own_comments = own_comments;
    post_comment = post_comment;
    set_labels = set_labels;
    close_issue = close_issue;
    get_file = get_contents;
    repo_accessible = repo_accessible;
    get_ledger = λ app_id. get_contents c.cfg.repo (ledger_path app_id);
    put_ledger = λ app_id. put_contents c.cfg.repo (ledger_path app_id);
    put_file = put_contents;
  }
