-- ===== src/GitHub/Rest/Transport.antt =====
-- What the REST client calls: net/http, encoding/json, encoding/base64 and url.PathEscape.
use developer_certificates.Common.{ℕ, Bool, Option, List, Bytes}
use developer_certificates.Common.Int.{ℤ}
use developer_certificates.Clock.{Time}
use developer_certificates.Effects.{Action, Error, Result}

-- A request's JSON body: none, a map[string]string, or one key with a list of strings.
pub data Payload : Type 0 where
  no_content : Payload
  object : List (Bytes × Bytes) → Payload
  names : Bytes → List Bytes → Payload

pub record HttpRequest : Type 0 where
  pub method : Bytes
  pub url : Bytes
  pub headers : List (Bytes × Bytes)
  pub content : Option Bytes

-- `body` is what io.ReadAll gets; the source drops its error.
pub record HttpResponse : Type 0 where
  pub status_code : ℕ
  pub status : Bytes
  pub body : Bytes

-- The structs that listOpenIssues, OwnComments and getContents decode a response into.
pub record RawIssue : Type 0 where
  pub number : ℕ
  pub body : Bytes
  pub login : Bytes
  pub user_id : ℤ
  pub labels : List Bytes
  pub is_pull_request : Bool

pub record RawComment : Type 0 where
  pub body : Bytes
  pub created_at : Time
  pub login : Bytes

pub record ContentsResponse : Type 0 where
  pub content : Bytes
  pub sha : Bytes

-- `new_request` is the error of http.NewRequestWithContext for a method and a URL, if any.
pub record Http (W : Type 0) : Type 0 where
  pub new_request : Bytes → Bytes → Option Error
  pub send : HttpRequest → Action W HttpResponse
  pub marshal : Payload → Result Bytes
  pub unmarshal_issues : Bytes → Result (List RawIssue)
  pub unmarshal_comments : Bytes → Result (List RawComment)
  pub unmarshal_contents : Bytes → Result ContentsResponse
  pub decode_base64 : Bytes → Result Bytes
  pub encode_base64 : Bytes → Bytes
  pub path_escape : Bytes → Bytes
