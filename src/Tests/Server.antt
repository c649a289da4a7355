-- ===== src/Tests/Server.antt =====
-- A small server of files under the REST client.
use developer_certificates.Common.{
  ℕ, ◌+◌, ◌-◌, ◌≡◌, ◌≢◌, refl, sym, ap, ◌∙◌, none, some, Option, inl, inr, [], ◌∷◌, ◌++◌, List,
  Bytes, bytes_eq, bytes_eq_iff, bytes_eq_refl, Bool-cases, if◌then◌else◌, codes, length, take,
  drop, arith, append-nil,
}
use developer_certificates.Effects.{ok, err, errorf}
use developer_certificates.Effects.Keep.{ok_inj}
use developer_certificates.Challenge.{comment_body}
use developer_certificates.Tests.Names.{nonce}
use developer_certificates.GitHub.Fake.{Blob, is_stale}
use developer_certificates.GitHub.Rest.{Client}
use developer_certificates.GitHub.Rest.Transport.{Payload, object, HttpResponse, RawComment, Http}
use developer_certificates.GitHub.Rest.Api.{
  ledger_url, fields, IsContentsApi, Serves, missing, found, Stores, denies, accepts,
}
use developer_certificates.GitHub.Versioned.{View}
use developer_certificates.Text.{remove_byte}

-- Base64 shifts each byte, so that no line break is among them.
abbrev shift : Bytes → Bytes
shift [] = []
shift (b ∷ s) = (b + 11) ∷ shift s

abbrev unshift : Bytes → Bytes
unshift [] = []
unshift (b ∷ s) = (b - 11) ∷ unshift s

unshift-shift : (s : Bytes) → unshift (remove_byte 10 (shift s)) ≡ s
unfolding remove_byte
unshift-shift [] = refl
unshift-shift (b ∷ s) = ground (arith, unshift-shift s)

unshift-shift_bare : (s : Bytes) → unshift (shift s) ≡ s
unshift-shift_bare [] = refl
unshift-shift_bare (b ∷ s) = ground (arith, unshift-shift_bare s)

take-append : (s t : Bytes) → take (length s) (s ++ t) ≡ s
take-append [] t = refl
take-append (b ∷ s) t = ap (λ r. b ∷ r) (take-append s t)

drop-append : (s t : Bytes) → drop (length s) (s ++ t) ≡ t
drop-append [] t = refl
drop-append (b ∷ s) t = drop-append s t

abbrev values : List (Bytes × Bytes) → Bytes
values [] = []
values (f ∷ fs) = f.1 ++ values fs

-- The second field, with its length in front, and the fields behind it.
abbrev json_of : Payload → Bytes
json_of (object (f ∷ g ∷ fs)) = length g.1 ∷ g.1 ++ values fs
json_of p = []

abbrev pub Files : Type 0
Files = Bytes → Option Bytes

abbrev pub file_blob : Option Bytes → Option Blob
file_blob none = none
file_blob (some t) = some (record { content = t; sha = 7 ∷ shift t })

abbrev pub files_view : Files → View
files_view w url = file_blob (w url)

abbrev status_of : ℕ → Bytes → HttpResponse
status_of code body = record { status_code = code; status = []; body = body }

abbrev pub serve : Option Bytes → HttpResponse
serve none = status_of 404 []
serve (some t) = status_of 200 (1 ∷ shift t)

abbrev replace : Files → Bytes → Bytes → Files
replace w url text u = if bytes_eq url u then some text else w u

abbrev receive : Bytes → Option Bytes → Files → HttpResponse × Files
receive url none w = (status_of 400 [], w)
receive url (some []) w = (status_of 400 [], w)
receive url (some (n ∷ rest)) w =
    if is_stale (files_view w url) (drop n rest)
    then (status_of 409 [], w)
    else (status_of 201 [], replace w url (unshift (take n rest)))

-- The bot's own challenge, and a comment of somebody else that looks alike.
abbrev pub asked : RawComment
asked = record { body = comment_body nonce; created_at = 100; login = codes "bot" }

abbrev pub forged : RawComment
forged = record { body = comment_body nonce; created_at = 200; login = codes "dev" }

unfoldable pub server : Http Files
server = record {
  new_request = λ _ _. none;
  send = λ req w.
      if bytes_eq req.method (codes "PUT")
      then (ok (receive req.url req.content w).0, (receive req.url req.content w).1)
      else (ok (serve (w req.url)), w);
  marshal = λ p. ok (json_of p);
  unmarshal_issues = λ _. err (errorf []);
  unmarshal_comments = λ _. ok (asked ∷ forged ∷ []);
  unmarshal_contents = λ s. ok (record { content = drop 1 s; sha = 7 ∷ drop 1 s });
  decode_base64 = λ s. ok (unshift s);
  encode_base64 = shift;
  path_escape = λ s. s;
}

abbrev pub bot : Client
bot = record {
  cfg = record { token = codes "t"; bot_login = codes "bot"; repo = codes "o/r"; api_base = [] };
  base = codes "https://h";
}

fields-json :
    (text sha message : Bytes)
    → json_of (object (fields server bot text sha message))
      ≡ length (shift text) ∷ shift text ++ sha
unfolding server
fields-json text [] message = refl
fields-json text (x ∷ sha) message =
    ap (λ r. length (shift text) ∷ shift text ++ r) (append-nil (x ∷ sha))

serve-Serves : (o : Option Bytes) → Serves server bot (serve o) (file_blob o)
unfolding server
serve-Serves none = missing refl
serve-Serves (some t) =
    found 1 (shift t) (record { content = shift t; sha = 7 ∷ shift t }) (omega arith, omega arith)
      refl refl (ap ok (unshift-shift t)) refl

receive-Stores :
    (url text sha : Bytes) (w : Files)
    → Stores server bot
        (files_view w)
        url
        text
        sha
        (receive url (some (length (shift text) ∷ shift text ++ sha)) w).0
        (files_view (receive url (some (length (shift text) ∷ shift text ++ sha)) w).1)
receive-Stores url text sha w =
    rw (take-append (shift text) sha, drop-append (shift text) sha, unshift-shift_bare text)
      elim (Bool-cases (is_stale (files_view w url) sha)) [
        | inl stale ↦ rw stale (denies (inr (omega arith)) (λ k. refl))
        | inr fresh ↦ rw fresh (
            accepts (record { content = text; sha = 7 ∷ shift text }) (omega arith, omega arith)
              fresh refl (rw (bytes_eq_refl url) refl) (λ k other. apart k other))
      ]
  where
    apart : (k : Bytes) → k ≢ url → file_blob (replace w url text k) ≡ file_blob (w k)
    apart k other = elim (Bool-cases (bytes_eq url k)) [
      | inl same ↦ absurd (other (sym ((bytes_eq_iff url k).0 same)))
      | inr differs ↦ rw differs refl
    ]

pub server-IsContentsApi : IsContentsApi server bot (λ _. Unit) files_view
unfolding server codes bytes_eq
server-IsContentsApi = record {
  well_formed = λ method id _. refl;
  marshals = λ text sha message. (_, refl);
  fetch = λ id req w _ method url.
      (serve (w (ledger_url server bot id)), w, rw (method, url) refl, serve-Serves _, λ k. refl);
  store = λ id text sha message json req w _ encoded method url content.
      let body = length (shift text) ∷ shift text ++ sha in
      let at = ledger_url server bot id in
      let got : req.content ≡ some body =
        content ∙ ap some (sym (ok_inj encoded) ∙ fields-json text sha message) in
      (
        (receive at (some body) w).0,
        (receive at (some body) w).1,
        rw (method, url, got) refl,
        receive-Stores at text sha w,
      );
}
