-- ===== src/GitHub/Rest/Outcome.antt =====
-- What a call of the REST client returns, by the status of the response.
use developer_certificates.Common.{
  ◌≡◌, ◌≢◌, ◌↔◌, ◌≤◌, ◌<◌, Bool, true, false, Option, Bytes, arith, ◌⊎◌, inl, inr, ap,
}
use developer_certificates.Effects.{
  Error, Result, ok, err, mark, errorf, context, is_not_found, is_conflict, ◌>>=◌, Result-cases,
}
use developer_certificates.GitHub.{err_not_found, err_conflict}
use developer_certificates.GitHub.Rest.{
  Client, Out, decode, judge, call, content, build, conflict, unexpected,
}
use developer_certificates.GitHub.Rest.Transport.{Payload, HttpRequest, HttpResponse, Http}

-- The request reaches the hub, which answers it.
pub record Answered {W : Type 0} (http : Http W) (c : Client) (method path : Bytes) (body : Payload)
    (w : W) (resp : HttpResponse) (left : W) : Type 0 where
  pub text : Option Bytes
  pub req : HttpRequest
  pub encoded : content http c body ≡ ok text
  pub built : build http c method path body text ≡ ok req
  pub sent : http.send req w ≡ (ok resp, left)

pub call-judge :
    {W A : Type 0} (http : Http W) (c : Client) (method path : Bytes) (body : Payload) (out : Out A)
    (w left : W) (resp : HttpResponse)
    → Answered http c method path body w resp left
    → call http c method path body out w ≡ (judge method path out resp, left)
unfolding call ◌>>=◌ context
call-judge http c method path body out w left resp a =
    rw (a.encoded, a.built, a.sent)
      (ap (λ v. (judge method path out resp, v)) (ap (λ r. r.1) a.sent))

abbrev pub Fails : {A : Type 0} → (Error → Bool) → Result A → Type 0
Fails test r = (e : Error) × (r ≡ err e) × (test e ≡ true)

abbrev pub Succeeds : {A : Type 0} → Result A → Type 0
Succeeds {A} r = (a : A) × (r ≡ ok a)

-- The decoder's errors carry none of the sentinels of the hub's interface.
abbrev pub IsPlain : {A : Type 0} → Out A → Type 0
IsPlain out =
    (s : Bytes) (e : Error)
    → decode out s ≡ err e
    → (is_not_found e ≡ false) × (is_conflict e ≡ false)

conflict_lem :
    (resp : HttpResponse)
    → (is_conflict (conflict resp) ≡ true) × (is_not_found (conflict resp) ≡ false)
unfolding conflict err_conflict mark
conflict_lem resp = ground arith

pub data Judged {A : Type 0} (method path : Bytes) (out : Out A) (resp : HttpResponse)
    : Type 0 where
  missing :
      resp.status_code ≡ 404
      → judge method path out resp ≡ err err_not_found
      → Judged method path out resp
  stale :
      resp.status_code ≡ 409
      → judge method path out resp ≡ err (conflict resp)
      → Judged method path out resp
  refused :
      (resp.status_code < 200) ⊎ (300 ≤ resp.status_code)
      → resp.status_code ≢ 404
      → resp.status_code ≢ 409
      → judge method path out resp ≡ err (unexpected method path resp)
      → Judged method path out resp
  decoded :
      200 ≤ resp.status_code
      → resp.status_code < 300
      → judge method path out resp ≡ decode out resp.body
      → Judged method path out resp

pub judge-Judged :
    {A : Type 0} (method path : Bytes) (out : Out A) (resp : HttpResponse)
    → Judged method path out resp
unfolding judge
judge-Judged method path out resp = ground arith

judge_lem :
    {A : Type 0} (method path : Bytes) (out : Out A) (resp : HttpResponse)
    → IsPlain out
    → (Fails is_not_found (judge method path out resp) ↔ (resp.status_code ≡ 404))
      × (Fails is_conflict (judge method path out resp) ↔ (resp.status_code ≡ 409))
      × (Succeeds (judge method path out resp)
          ↔ ((200 ≤ resp.status_code) × (resp.status_code < 300) × Succeeds (decode out resp.body)))
unfolding err_not_found unexpected errorf
judge_lem method path out resp plain = elim (judge-Judged method path out resp) [
  | missing code is ↦ rw is (ground arith)
  | stale code is ↦ rw is (ground (arith, conflict_lem resp))
  | refused range no_404 no_409 is ↦ rw is (ground arith)
  | decoded low high is ↦ rw is elim (Result-cases (decode out resp.body)) [
    | inl (a, got) ↦ ground arith
    | inr (e, got) ↦ ground (arith, plain resp.body e got)
  ]
]

pub judge-decode :
    {A : Type 0} (method path : Bytes) (out : Out A) (resp : HttpResponse)
    → 200 ≤ resp.status_code
    → resp.status_code < 300
    → judge method path out resp ≡ decode out resp.body
judge-decode method path out resp low high = elim (judge-Judged method path out resp) [
  | missing code is ↦ absurd (omega (arith, code))
  | stale code is ↦ absurd (omega (arith, code))
  | refused range no_404 no_409 is ↦ absurd (ground arith)
  | decoded _ _ is ↦ is
]

-- A status outside of 2xx is an error.
pub judge-err :
    {A : Type 0} (method path : Bytes) (out : Out A) (resp : HttpResponse)
    → (resp.status_code < 200) ⊎ (300 ≤ resp.status_code)
    → (e : Error) × (judge method path out resp ≡ err e)
judge-err method path out resp outside = elim (judge-Judged method path out resp) [
  | missing code is ↦ (err_not_found, is)
  | stale code is ↦ (conflict resp, is)
  | refused range no_404 no_409 is ↦ (unexpected method path resp, is)
  | decoded low high is ↦ absurd (ground arith)
]

-- A call that the hub answers fails as not found exactly at status 404, fails as a conflict exactly
-- at status 409, and succeeds exactly when the status is from 200 to 299 and the body can be decoded.
-- The decoder may not return an error that stands for one of the two.
pub call_lem :
    {W A : Type 0} (http : Http W) (c : Client) (method path : Bytes) (body : Payload) (out : Out A)
    (w left : W) (resp : HttpResponse)
    → Answered http c method path body w resp left
    → IsPlain out
    → (Fails is_not_found (call http c method path body out w).0 ↔ (resp.status_code ≡ 404))
      × (Fails is_conflict (call http c method path body out w).0 ↔ (resp.status_code ≡ 409))
      × (Succeeds (call http c method path body out w).0
          ↔ ((200 ≤ resp.status_code) × (resp.status_code < 300) × Succeeds (decode out resp.body)))
call_lem http c method path body out w left resp a plain =
    rw (call-judge http c method path body out w left resp a) (judge_lem method path out resp plain)
