-- ===== src/Tests/Rest.antt =====
-- The theorems on the REST client over the server.
use developer_certificates.Common.{
  ◌≡◌, refl, ap, ◌∙◌, none, some, [], ◌∷◌, List, bytes_eq, codes, ◌↔◌, ◌≤◌, ◌<◌,
}
use mathlib.Core.List.{Memᴰ}
use developer_certificates.Effects.{
  ok, errorf, pure, fail, context, ◌>>=◌, is_not_found, is_conflict,
}
use developer_certificates.Effects.Keep.{>>=-step}
use developer_certificates.GitHub.{Comment}
use developer_certificates.Challenge.{comment_body, parse_nonce}
use developer_certificates.Challenge.RoundTrip.{parse_nonce-comment_body}
use developer_certificates.Enroll.Issuance.{Deps}
use developer_certificates.Enroll.Process.{prior_challenge, latest}
use developer_certificates.Tests.Data.{rt, issue, issuer}
use developer_certificates.Tests.Names.{nonce, nonce-IsNonce}
use developer_certificates.GitHub.Rest.{call, no_out, client, content, build, headers, decode}
use developer_certificates.GitHub.Rest.Transport.{no_content, RawComment}
use developer_certificates.GitHub.Rest.Refinement.{client-IsVersioned_rest}
use developer_certificates.GitHub.Rest.Api.{ledger_url}
use developer_certificates.GitHub.Rest.{judge, own_comments, own_of}
use developer_certificates.GitHub.Rest.Outcome.{Answered, Fails, Succeeds, IsPlain, call_lem}
use developer_certificates.GitHub.Rest.Comments.{page, prior_challenge-own}
use developer_certificates.GitHub.Versioned.{IsVersioned}
use developer_certificates.Tests.Server.{
  Files, files_view, serve, bot, server, server-IsContentsApi,
}

client-IsVersioned_rest_example :
    IsVersioned (client server bot) (λ _. Unit) (λ w k. files_view w (ledger_url server bot k))
client-IsVersioned_rest_example =
    client-IsVersioned_rest server bot (λ _. Unit) files_view server-IsContentsApi

-- A label that is not there.
answered :
    Answered server bot
      (codes "DELETE")
      (codes "/x")
      no_content
      (λ _. none)
      (serve none)
      (λ _. none)
unfolding server content build codes bytes_eq
answered = record {
  text = none;
  req = record {
    method = codes "DELETE";
    url = codes "https://h/x";
    headers = headers server bot no_content;
    content = none;
  };
  encoded = refl;
  built = refl;
  sent = refl;
}

no_out-IsPlain : IsPlain no_out
unfolding decode
no_out-IsPlain [] e h = cc h
no_out-IsPlain (b ∷ s) e h = cc h

call_lem_example :
    (Fails is_not_found
        (call server bot (codes "DELETE") (codes "/x") no_content no_out (λ _. none)).0
      ↔ ((serve none).status_code ≡ 404))
    × (Fails is_conflict
          (call server bot (codes "DELETE") (codes "/x") no_content no_out (λ _. none)).0
        ↔ ((serve none).status_code ≡ 409))
    × (Succeeds (call server bot (codes "DELETE") (codes "/x") no_content no_out (λ _. none)).0 ↔ (
        (200 ≤ (serve none).status_code)
        × ((serve none).status_code < 300)
        × Succeeds (decode no_out [])))
call_lem_example =
    call_lem server bot (codes "DELETE") (codes "/x") no_content no_out (λ _. none) (λ _. none)
      (serve none) answered no_out-IsPlain

server_deps : Deps Files
server_deps = record {
  gh = client server bot;
  signer = record {
    issuer_certificate = issuer;
    sign = λ tmpl k. pure [];
    sign_crl = λ rl. pure [];
  };
  clock = λ w. (300, w);
  rand = λ n. fail (errorf []);
  rounds = 1;
}

abbrev own : List Comment
own = record { body = comment_body nonce; created_at = 100 } ∷ []

own_read :
    context (codes "enroll: read own comments") ((client server bot).own_comments 1) (λ _. some [])
    ≡ (ok own, λ _. some [])
unfolding client server codes bytes_eq context ◌>>=◌ call own_comments own_of content build judge
    decode
own_read = refl

own_latest : latest none own ≡ some (nonce, 100)
unfolding latest
own_latest = rw (parse_nonce-comment_body nonce nonce-IsNonce, latest) refl

known :
    (prior_challenge rt (record server_deps { gh = client server bot }) issue (λ _. some [])).0
    ≡ ok (some (nonce, 100))
unfolding prior_challenge
known =
    ap (λ r. r.0)
      (>>=-step (context (codes "enroll: read own comments") ((client server bot).own_comments 1))
        (λ cs. pure (latest none cs)) (λ _. some []) (λ _. some []) own_read)
    ∙ ap ok own_latest

prior_challenge-own_example :
    (raw : List RawComment) × (r : RawComment) × (page server bot 1 (λ _. some []) ≡ ok raw)
    × Memᴰ r raw
    × (r.login ≡ codes "bot")
    × (parse_nonce r.body ≡ some nonce)
    × (r.created_at ≡ 100)
prior_challenge-own_example =
    prior_challenge-own server bot rt server_deps issue (λ _. some []) (nonce, 100) known
