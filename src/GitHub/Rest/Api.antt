-- ===== src/GitHub/Rest/Api.antt =====
-- The Contents API of the hub, as its documentation describes it to the REST client.
use developer_certificates.Common.{
  List, ◌≡◌, ◌≢◌, ◌≤◌, ◌<◌, ◌⊎◌, ℕ, false, none, some, Option, [], ◌∷◌, ◌++◌, Bytes, codes,
}
use developer_certificates.Effects.{ok}
use developer_certificates.GitHub.Fake.{Blob, is_stale}
use developer_certificates.GitHub.Rest.{Client}
use developer_certificates.GitHub.Rest.Transport.{
  HttpRequest, HttpResponse, ContentsResponse, Http, object,
}
use developer_certificates.GitHub.Versioned.{View, IsSame}
use developer_certificates.Text.{remove_byte}

abbrev pub IsSuccess : HttpResponse → Type 0
IsSuccess resp = (200 ≤ resp.status_code) × (resp.status_code < 300)

module _ {W : Type 0} (http : Http W) (c : Client) where
  -- The file of a ledger, by its URL.
  abbrev pub ledger_url : Bytes → Bytes
  ledger_url id =
      c.base
      ++ (codes "/repos/" ++ (c.cfg.repo ++ (codes "/contents/ledger/" ++ (id ++ codes ".json"))))

  -- The fields of a write, with the SHA of the file that is replaced, if there is one.
  abbrev pub fields : Bytes → Bytes → Bytes → List (Bytes × Bytes)
  fields text [] message =
      (codes "message", message) ∷ (codes "content", http.encode_base64 text) ∷ []
  fields text (x ∷ sha) message =
      (codes "message", message)
      ∷ (codes "content", http.encode_base64 text)
      ∷ (codes "sha", x ∷ sha)
      ∷ []

  -- The response to a read: 404 without a file, and else its content in base64 with its SHA.
  pub data Serves (resp : HttpResponse) : Option Blob → Type 0 where
    missing : resp.status_code ≡ 404 → Serves resp none
    found :
        {b : Blob} (first : ℕ) (more : Bytes) (r : ContentsResponse)
        → IsSuccess resp
        → resp.body ≡ first ∷ more
        → http.unmarshal_contents resp.body ≡ ok r
        → http.decode_base64 (remove_byte 10 r.content) ≡ ok b.content
        → r.sha ≡ b.sha
        → Serves resp (some b)

  -- The response to a write: no success, and the files as they were, or a success, and the one file
  -- replaced under its guard.
  pub data Stores (v : View) (url text sha : Bytes) (resp : HttpResponse) (v' : View) : Type 0 where
    denies :
        (resp.status_code < 200) ⊎ (300 ≤ resp.status_code)
        → IsSame v v'
        → Stores v url text sha resp v'
    accepts :
        (b : Blob)
        → IsSuccess resp
        → is_stale (v url) sha ≡ false
        → b.content ≡ text
        → v' url ≡ some b
        → ((k : Bytes) → k ≢ url → v' k ≡ v k)
        → Stores v url text sha resp v'

  -- The documented behaviour of the Contents API, of net/http on the URLs of the ledgers in `Named`,
  -- and of json.Marshal on a map of strings; `files` sees the files by their URL.
  pub record IsContentsApi (Named : Bytes → Type 0) (files : W → View) : Type 0 where
    pub well_formed :
        (method id : Bytes) → Named id → http.new_request method (ledger_url id) ≡ none
    pub marshals :
        (text sha message : Bytes)
        → (json : Bytes) × (http.marshal (object (fields text sha message)) ≡ ok json)
    pub fetch :
        (id : Bytes) (req : HttpRequest) (w : W)
        → Named id
        → req.method ≡ codes "GET"
        → req.url ≡ ledger_url id
        → (resp : HttpResponse) × (left : W) × (http.send req w ≡ (ok resp, left))
          × Serves resp (files w (ledger_url id))
          × IsSame (files w) (files left)
    pub store :
        (id text sha message json : Bytes) (req : HttpRequest) (w : W)
        → Named id
        → http.marshal (object (fields text sha message)) ≡ ok json
        → req.method ≡ codes "PUT"
        → req.url ≡ ledger_url id
        → req.content ≡ some json
        → (resp : HttpResponse) × (left : W) × (http.send req w ≡ (ok resp, left))
          × Stores (files w) (ledger_url id) text sha resp (files left)
