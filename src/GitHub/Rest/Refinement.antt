-- ===== src/GitHub/Rest/Refinement.antt =====
-- The REST client over a Contents API that behaves as documented is a store of ledgers.
use developer_certificates.Common.{
  ◌≡◌, ◌⊎◌, inl, inr, refl, ap, sym, ◌∙◌, none, some, Option, [], ◌∷◌, ◌++◌, Bytes, codes,
}
use mathlib.Core.List.{append_cancel_left, append_cancel_right}
use developer_certificates.Effects.{ok, err, lift}
use developer_certificates.Effects.Keep.{>>=-step, >>=-err}
use developer_certificates.GitHub.{err_not_found}
use developer_certificates.GitHub.Fake.{Blob, get_blob}
use developer_certificates.GitHub.Rest.{
  Client, Out, call, content, build, headers, contents_path, ledger_path, put_body, put_contents,
  get_contents, client, judge, decode, decode_contents, no_out,
}
use developer_certificates.GitHub.Rest.Outcome.{Answered, judge-decode, judge-err, call-judge}
use developer_certificates.GitHub.Rest.Transport.{
  Payload, no_content, object, HttpRequest, HttpResponse, ContentsResponse, Http,
}
use developer_certificates.GitHub.Versioned.{View, IsSame, Written, refused, stored, IsVersioned}
use developer_certificates.Text.{trim_prefix}
use developer_certificates.GitHub.Rest.Api.{
  ledger_url, fields, Serves, missing, found, Stores, denies, accepts, IsContentsApi,
}

ledger_url_inj :
    {W : Type 0} (http : Http W) (c : Client) (k id : Bytes)
    → ledger_url http c k ≡ ledger_url http c id
    → k ≡ id
unfolding codes
ledger_url_inj http c k id same =
    let in_base = append_cancel_left c.base _ _ same in
    let in_repos = append_cancel_left (codes "/repos/") _ _ in_base in
    let in_repo = append_cancel_left c.cfg.repo _ _ in_repos in
    let in_folder = append_cancel_left (codes "/contents/ledger/") _ _ in_repo in
    append_cancel_right k id (codes ".json") in_folder

-- The SHA goes into the body of a write exactly when there is one.
put_body-fields :
    {W : Type 0} (http : Http W) (c : Client) (text sha message : Bytes)
    → put_body http c text sha message ≡ object (fields http c text sha message)
unfolding put_body
put_body-fields http c text [] message = refl
put_body-fields http c text (x ∷ sha) message = refl

decode-no_out : (body : Bytes) → decode no_out body ≡ ok tt
unfolding decode
decode-no_out [] = refl
decode-no_out (b ∷ more) = refl

module _ {W : Type 0} (http : Http W) (c : Client) (Named : Bytes → Type 0) (files : W → View)
    (api : IsContentsApi http c Named files) where
  -- The request that a call sends when nothing before it fails.
  abbrev request : Bytes → Bytes → Payload → Option Bytes → HttpRequest
  request method path body text = record {
    method = method;
    url = c.base ++ path;
    headers = headers http c body;
    content = text;
  }

  get_call :
      (id : Bytes) (w : W)
      → Named id
      → (resp : HttpResponse) × (left : W) × Answered http c
          (codes "GET")
          (contents_path http c c.cfg.repo (ledger_path http c id))
          no_content
          w
          resp
          left
        × Serves http c resp (files w (ledger_url http c id))
        × IsSame (files w) (files left)
  unfolding content build codes contents_path ledger_path trim_prefix headers
  get_call id w named =
      let path = contents_path http c c.cfg.repo (ledger_path http c id) in
      let req = request (codes "GET") path no_content none in
      let (resp, left, sent, serves, same) = api.fetch id req w named refl refl in
      (
        resp,
        left,
        record {
          text = none;
          req = req;
          encoded = refl;
          built = rw (api.well_formed (codes "GET") id named, build) refl;
          sent = sent;
        },
        serves,
        same,
      )

  put_call :
      (id text sha message : Bytes) (w : W)
      → Named id
      → (resp : HttpResponse) × (left : W) × Answered http c
          (codes "PUT")
          (contents_path http c c.cfg.repo (ledger_path http c id))
          (put_body http c text sha message)
          w
          resp
          left
        × Stores http c (files w) (ledger_url http c id) text sha resp (files left)
  unfolding content build codes contents_path ledger_path trim_prefix headers
  put_call id text sha message w named =
      let path = contents_path http c c.cfg.repo (ledger_path http c id) in
      let (json, encoded) = api.marshals text sha message in
      let req = request (codes "PUT") path (put_body http c text sha message) (some json) in
      let (resp, left, sent, stores) =
        api.store id text sha message json req w named encoded refl refl refl in
      (
        resp,
        left,
        record {
          text = some json;
          req = req;
          encoded = rw (put_body-fields http c text sha message, content, encoded) refl;
          built = rw (api.well_formed (codes "PUT") id named, build) refl;
          sent = sent;
        },
        stores,
      )

  contents_out : Out ContentsResponse
  contents_out = record {
    initial = record { content = []; sha = [] };
    decoder = some http.unmarshal_contents;
  }

  -- What a read makes of the response.
  judge-Serves :
      (method path : Bytes) (resp : HttpResponse) (b : Option Blob)
      → Serves http c resp b
      → ((b ≡ none) × (judge method path contents_out resp ≡ err err_not_found))
        ⊎ ((r : ContentsResponse) × (judge method path contents_out resp ≡ ok r)
            × (decode_contents http c r ≡ get_blob b))
  unfolding judge decode contents_out decode_contents get_blob
  judge-Serves method path resp none (missing status) = inl (refl, rw status refl)
  judge-Serves method path resp (some b) (found first more r success body json text sha) = inr (
    r,
    judge-decode method path contents_out resp success.0 success.1
        ∙ rw (body, decode, (rw body at json)) refl,
    rw (text, decode_contents) (ap (λ s. ok (b.content, s)) sha),
  )

  get_contents-Serves :
      (repo path : Bytes) (w left : W) (resp : HttpResponse) (b : Option Blob)
      → Answered http c (codes "GET") (contents_path http c repo path) no_content w resp left
      → Serves http c resp b
      → get_contents http c repo path w ≡ (get_blob b, left)
  unfolding get_contents contents_out get_blob
  get_contents-Serves repo path w left resp b answered serves =
      let at = contents_path http c repo path in
      let get = call http c (codes "GET") at no_content contents_out in
      let step = call-judge http c (codes "GET") at no_content contents_out w left resp answered in
      elim (judge-Serves (codes "GET") at resp b serves) [
        | inl (gone, fails) ↦
            >>=-err get (λ r. lift (decode_contents http c r)) w left
              (step ∙ ap (λ r. (r, left)) fails)
            ∙ (λ i. (get_blob (sym gone i), left))
        | inr (r, good, blob) ↦
            >>=-step get (λ r. lift (decode_contents http c r)) w left
              (step ∙ ap (λ r. (r, left)) good)
            ∙ (λ i. (blob i, left))
      ]

  put_contents-Written :
      (id text sha message : Bytes) (w : W)
      → Named id
      → Written
          (λ k. files w (ledger_url http c k))
          id
          text
          sha
          ((client http c).put_ledger id text sha message w).0
          (λ k. files ((client http c).put_ledger id text sha message w).1 (ledger_url http c k))
  unfolding client put_contents
  put_contents-Written id text sha message w named =
      let (resp, left, answered, stores) = put_call id text sha message w named in
      let at = contents_path http c c.cfg.repo (ledger_path http c id) in
      let step =
        call-judge http c (codes "PUT") at (put_body http c text sha message) no_out w left resp
          answered in
      elim stores [
        | denies outside same ↦
            let (e, fails) = judge-err (codes "PUT") at no_out resp outside in
            rw (step, fails) (refused e (λ k. same (ledger_url http c k)))
        | accepts b success fresh is at_id others ↦
            rw
              (
                step,
                judge-decode (codes "PUT") at no_out resp success.0 success.1,
                decode-no_out resp.body,
              )
              (stored b fresh is at_id (λ k other.
                others (ledger_url http c k) (λ same. other (ledger_url_inj http c k id same))))
      ]

  -- The REST client refines the store of ledgers, over an API that answers every request and behaves
  -- as documented: a read returns the file of the ledger and changes nothing, and a write that succeeds
  -- had the SHA of the file and replaced that file alone; one that does not succeed changed nothing.
  pub client-IsVersioned_rest :
      IsVersioned (client http c) Named (λ w k. files w (ledger_url http c k))
  unfolding client
  client-IsVersioned_rest = record {
    answers = λ id w named.
        let (resp, left, answered, serves, same) = get_call id w named in
        ap (λ r. r.0) (get_contents-Serves _ _ w left resp _ answered serves);
    reads = λ id w named k.
        let (resp, left, answered, serves, same) = get_call id w named in
        ap (λ r. files r.1 (ledger_url http c k))
          (get_contents-Serves _ _ w left resp _ answered serves)
        ∙ same (ledger_url http c k);
    writes = λ id text sha message w named. put_contents-Written id text sha message w named;
  }
