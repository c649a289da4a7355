-- ===== src/Ledger/Json/RoundTrip.antt =====
-- What is written is read back.
use developer_certificates.Common.{
  ◌-◌, ◌%◌, ◌<◌, ◌≡◌, refl, ◌∙◌, Option, none, some, [], ◌∷◌, ◌++◌, Bytes, codes, strip_prefix,
  strip_prefix-append,
}
use mathlib.Core.Option
use developer_certificates.Clock.{Time, second}
use developer_certificates.Clock.Layout.{year_10000, scan_time-time_text}
use developer_certificates.Ledger.{Owner, Requester, Certificate}
use developer_certificates.Ledger.Json.{
  margin, key, first, next, close, timestamp, owner, requester, revoked_from, optional, revocation,
  certificate,
}
use developer_certificates.Ledger.Json.Read.{
  field, maybe, scan_timestamp, scan_owner, scan_requester, scan_some_time, scan_revocation,
  scan_certificate,
}
use developer_certificates.Text.Json.RoundTrip.{
  IsText, scan_string, scan_string-string, scan_int-int,
}
use developer_certificates.Text.Scan.{Scan, lit, >>=-scans, lit-scans}

abbrev pub to_second : Time → Time
to_second t = t - t % second

pub field-scans :
    {A : Type 0} (w : Bytes) (m : Scan A) (s : Bytes) {a : A} {r : Bytes}
    → m s ≡ some (a, r)
    → field w m (w ++ s) ≡ some (a, r)
unfolding field
field-scans w m s h = >>=-scans (lit w) (λ _. m) (w ++ s) (lit-scans w s) ∙ h

pub maybe-scans :
    {A : Type 0} (w : Bytes) (absent : A) (m : Scan A) (s : Bytes) {a : A} {r : Bytes}
    → m s ≡ some (a, r)
    → maybe w absent m (w ++ s) ≡ some (a, r)
unfolding maybe
maybe-scans w absent m s h = rw (strip_prefix-append w s, maybe) h

pub maybe-absent :
    {A : Type 0} (w : Bytes) (absent : A) (m : Scan A) (s : Bytes)
    → strip_prefix w s ≡ none
    → maybe w absent m s ≡ some (absent, s)
unfolding maybe
maybe-absent w absent m s h = rw (h, maybe) refl

pub scan_timestamp-timestamp :
    (t : Time) (r : Bytes) → t < year_10000 → scan_timestamp (timestamp t r) ≡ some (to_second t, r)
unfolding scan_timestamp timestamp
scan_timestamp-timestamp t r h =
    >>=-scans _ _ _ (lit-scans (34 ∷ []) _)
    ∙ (>>=-scans _ _ _ (scan_time-time_text t _ h) ∙ >>=-scans _ _ _ (lit-scans (34 ∷ []) r))

pub scan_owner-owner :
    (o : Owner) (r : Bytes)
    → IsText 0 o.origin
    → IsText 0 o.repo
    → scan_owner (owner o r) ≡ some (o, r)
unfolding scan_owner owner
scan_owner-owner o r origin repo =
    >>=-scans _ _ _
      (field-scans (first 2 (codes "origin")) _ _ (scan_string-string o.origin _ origin))
    ∙ (>>=-scans _ _ _ (field-scans (next 2 (codes "repo")) _ _ (scan_string-string o.repo _ repo))
        ∙ >>=-scans _ _ _ (lit-scans (close 1) r))

pub record IsReadable (c : Certificate) : Type 0 where
  pub serial : IsText 0 c.serial
  pub fingerprint : IsText 0 c.fingerprint
  pub not_before : c.not_before < year_10000
  pub not_after : c.not_after < year_10000
  pub origin : IsText 0 c.requester.origin
  pub login : IsText 0 c.requester.login
  pub issue_ref : IsText 0 c.issue_ref
  pub status : IsText 0 c.status
  pub revoked_from : (t : Time) → c.revoked_from ≡ some t → t < year_10000
  pub reason : IsText 0 c.reason
  pub actor : IsText 0 c.actor

scan_requester-requester :
    (q : Requester) (r : Bytes)
    → IsText 0 q.origin
    → IsText 0 q.login
    → scan_requester (requester q r) ≡ some (q, r)
unfolding scan_requester requester
scan_requester-requester q r origin login =
    >>=-scans _ _ _
      (field-scans (first 4 (codes "origin")) _ _ (scan_string-string q.origin _ origin))
    ∙ (>>=-scans _ _ _
          (field-scans (next 4 (codes "login")) _ _ (scan_string-string q.login _ login))
        ∙ (>>=-scans _ _ _ (
              field-scans (next 4 (codes "userId")) _ _
                (scan_int-int q.user_id (close 3 ++ r) (unfold close margin in refl)))
            ∙ >>=-scans _ _ _ (lit-scans (close 3) r)))

-- What stands behind an optional field that is left out does not begin with it.
actor_absent : (r : Bytes) → strip_prefix (next 3 (codes "actor")) (close 2 ++ r) ≡ none
unfolding next key close margin codes strip_prefix
actor_absent r = refl

reason_absent :
    (s r : Bytes)
    → strip_prefix (next 3 (codes "reason")) (optional (codes "actor") s (close 2 ++ r)) ≡ none
unfolding optional next key close margin codes strip_prefix
reason_absent [] r = refl
reason_absent (b ∷ s) r = refl

date_absent :
    (s t r : Bytes)
    → strip_prefix
        (next 3 (codes "revokedFrom"))
        (optional (codes "reason") s (optional (codes "actor") t (close 2 ++ r)))
      ≡ none
unfolding optional next key close margin codes strip_prefix
date_absent [] [] r = refl
date_absent [] (c ∷ t) r = refl
date_absent (b ∷ s) t r = refl

maybe-optional :
    (name s r : Bytes)
    → IsText 0 s
    → strip_prefix (next 3 name) r ≡ none
    → maybe (next 3 name) [] scan_string (optional name s r) ≡ some (s, r)
unfolding optional
maybe-optional name [] r text absent = maybe-absent (next 3 name) [] scan_string r absent
maybe-optional name (b ∷ s) r text absent =
    maybe-scans (next 3 name) [] scan_string _ (scan_string-string (b ∷ s) r text)

maybe-revoked_from :
    (o : Option Time) (r : Bytes)
    → ((t : Time) → o ≡ some t → t < year_10000)
    → strip_prefix (next 3 (codes "revokedFrom")) r ≡ none
    → maybe (next 3 (codes "revokedFrom")) none scan_some_time (revoked_from o r)
      ≡ some (Option.map to_second o, r)
unfolding revoked_from scan_some_time
maybe-revoked_from none r early absent = maybe-absent _ none scan_some_time r absent
maybe-revoked_from (some t) r early absent =
    maybe-scans (next 3 (codes "revokedFrom")) none scan_some_time _
      (>>=-scans _ _ _ (scan_timestamp-timestamp t r (early t refl)))

scan_revocation-revocation :
    (c : Certificate) (r : Bytes)
    → IsReadable c
    → scan_revocation (revocation c (close 2 ++ r))
      ≡ some ((Option.map to_second c.revoked_from, c.reason, c.actor), close 2 ++ r)
unfolding scan_revocation revocation
scan_revocation-revocation c r h =
    >>=-scans _ _ _
      (maybe-revoked_from c.revoked_from _ h.revoked_from (date_absent c.reason c.actor r))
    ∙ (>>=-scans _ _ _
          (maybe-optional (codes "reason") c.reason _ h.reason (reason_absent c.actor r))
        ∙ >>=-scans _ _ _ (maybe-optional (codes "actor") c.actor _ h.actor (actor_absent r)))

-- The certificate with its times to the second.
abbrev pub truncated : Certificate → Certificate
truncated c = record c {
  not_before = to_second c.not_before;
  not_after = to_second c.not_after;
  revoked_from = Option.map to_second c.revoked_from;
}

pub scan_certificate-certificate :
    (c : Certificate) (r : Bytes)
    → IsReadable c
    → scan_certificate (certificate c r) ≡ some (truncated c, r)
unfolding scan_certificate certificate
scan_certificate-certificate c r h =
    >>=-scans _ _ _
      (field-scans (first 3 (codes "serial")) _ _ (scan_string-string c.serial _ h.serial))
    ∙ (>>=-scans _ _ _ (
          field-scans (next 3 (codes "fingerprint")) _ _
            (scan_string-string c.fingerprint _ h.fingerprint))
        ∙ (>>=-scans _ _ _ (
              field-scans (next 3 (codes "notBefore")) _ _
                (scan_timestamp-timestamp c.not_before _ h.not_before))
            ∙ (>>=-scans _ _ _ (
                  field-scans (next 3 (codes "notAfter")) _ _
                    (scan_timestamp-timestamp c.not_after _ h.not_after))
                ∙ (>>=-scans _ _ _ (
                      field-scans (next 3 (codes "requester")) _ _
                        (scan_requester-requester c.requester _ h.origin h.login))
                    ∙ (>>=-scans _ _ _ (
                          field-scans (next 3 (codes "issueRef")) _ _
                            (scan_string-string c.issue_ref _ h.issue_ref))
                        ∙ (>>=-scans _ _ _ (
                              field-scans (next 3 (codes "status")) _ _
                                (scan_string-string c.status _ h.status))
                            ∙ (>>=-scans _ _ _ (scan_revocation-revocation c r h)
                                ∙ >>=-scans _ _ _ (lit-scans (close 2) r))))))))
