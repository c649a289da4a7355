-- ===== src/Ledger/Json.antt =====
-- internal/ledger: the canonical text of a ledger, as its struct tags, Marshal and the timestamps make
-- it. Each part is written in front of what follows it. A list with no certificate is written as an
-- empty array: a slice that is nil, which no bot writes, would be null.
pub mod Read
pub mod RoundTrip
pub mod Trip
pub mod Canonical
use developer_certificates.Common.{
  ℕ, zero, suc, Bool, true, false, Option, none, some, List, [], ◌∷◌, ◌++◌, Bytes, codes,
}
use developer_certificates.Clock.{Time}
use developer_certificates.Clock.Layout.{time_text}
use developer_certificates.Ledger.{Owner, Requester, Certificate, Ledger}
use developer_certificates.Text.Json.{string, int}

-- A new line with an indentation of two spaces for each level.
unfoldable pub margin : ℕ → Bytes
margin zero = 10 ∷ []
margin (suc n) = margin n ++ 32 ∷ 32 ∷ []

unfoldable pub key : ℕ → Bytes → Bytes
key n name = margin n ++ (34 ∷ name ++ (34 ∷ b':' ∷ 32 ∷ []))

-- The first key of an object, and a further one.
unfoldable pub first : ℕ → Bytes → Bytes
first n name = b'{' ∷ key n name

unfoldable pub next : ℕ → Bytes → Bytes
next n name = b',' ∷ key n name

unfoldable pub close : ℕ → Bytes
close n = margin n ++ b'}' ∷ []

-- MarshalJSON: no byte of the text of a time is escaped.
unfoldable pub timestamp : Time → Bytes → Bytes
timestamp t r = 34 ∷ time_text t (34 ∷ r)

unfoldable pub owner : Owner → Bytes → Bytes
owner o r =
    first 2 (codes "origin")
    ++ string o.origin (next 2 (codes "repo") ++ string o.repo (close 1 ++ r))

unfoldable pub requester : Requester → Bytes → Bytes
requester q r =
    first 4 (codes "origin")
    ++ string q.origin (
        next 4 (codes "login")
        ++ string q.login (next 4 (codes "userId") ++ int q.user_id (close 3 ++ r)))

-- The fields that `omitempty` leaves out.
unfoldable pub revoked_from : Option Time → Bytes → Bytes
revoked_from none r = r
revoked_from (some t) r = next 3 (codes "revokedFrom") ++ timestamp t r

unfoldable pub optional : Bytes → Bytes → Bytes → Bytes
optional name [] r = r
optional name (b ∷ s) r = next 3 name ++ string (b ∷ s) r

unfoldable pub revocation : Certificate → Bytes → Bytes
revocation c r =
    revoked_from c.revoked_from
      (optional (codes "reason") c.reason (optional (codes "actor") c.actor r))

unfoldable pub certificate : Certificate → Bytes → Bytes
certificate c r =
    first 3 (codes "serial")
    ++ string c.serial (
        next 3 (codes "fingerprint")
        ++ string c.fingerprint (
            next 3 (codes "notBefore")
            ++ timestamp c.not_before (
                next 3 (codes "notAfter")
                ++ timestamp c.not_after (
                    next 3 (codes "requester")
                    ++ requester c.requester (
                        next 3 (codes "issueRef")
                        ++ string c.issue_ref (
                            next 3 (codes "status")
                            ++ string c.status (revocation c (close 2 ++ r))))))))

unfoldable pub others : List Certificate → Bytes → Bytes
others [] r = r
others (c ∷ cs) r = b',' ∷ margin 2 ++ certificate c (others cs r)

unfoldable pub certificates : List Certificate → Bytes → Bytes
certificates [] r = codes "[]" ++ r
certificates (c ∷ cs) r = b'[' ∷ margin 2 ++ certificate c (others cs (margin 1 ++ b']' ∷ r))

unfoldable pub reserved : Bool → Bytes → Bytes
reserved true r = next 1 (codes "reserved") ++ (codes "true" ++ r)
reserved false r = r

unfoldable pub ledger : Ledger → Bytes → Bytes
ledger l r =
    first 1 (codes "appId")
    ++ string l.app_id (
        next 1 (codes "owner")
        ++ owner l.owner (
            next 1 (codes "claimedAt")
            ++ timestamp l.claimed_at (
                reserved l.reserved
                  (next 1 (codes "certificates") ++ certificates l.certificates (close 0 ++ r)))))

-- Marshal: the encoder ends the text with a new line.
unfoldable pub marshal_text : Ledger → Bytes
marshal_text l = ledger l (10 ∷ [])
