-- ===== src/Tests/Interleaving.antt =====
-- Two runs of the issuer bot over one ledger: both read before either writes.
use developer_certificates.Common.{
  ℕ, arith, ◌≡◌, ◌≢◌, refl, sym, ap, subst, ◌∙◌, List, false, none, some, Option, inl, inr, [], ◌∷◌,
  Bytes, bytes_eq, bytes_eq_iff, bytes_eq_refl, Bool-cases, if◌then◌else◌, codes, length,
}
use native.Mathlib.Decide.{ℕ_discrete}
use mathlib.Core.Option.{some_inj}
use developer_certificates.AppId.{validate_strict}
use developer_certificates.Effects.{Result, ok, err, fail, pure, errorf, context, ◌>>=◌}
use developer_certificates.Effects.Keep.{ok_inj}
use developer_certificates.GitHub.{GitHub, err_conflict, err_not_found}
use developer_certificates.GitHub.Fake.{Blob, get_blob, is_stale}
use developer_certificates.GitHub.Versioned.{View, Written, refused, stored, IsVersioned}
use developer_certificates.Ledger.{
  Certificate, Ledger, Codec, status_active, parse, check, marshal, origin_github,
}
use developer_certificates.Enroll.Ledgers.{
  extended, new_ledger, loaded, load_ledger as load_to_issue, commit_from, write_extended,
  after_write,
}
use developer_certificates.Bots.{
  Job, issue, next, idle, holding, done, System, move, load_ledger, read, write, refuse, Reach,
  start, later,
}
use developer_certificates.Bots.Growth.{IsLater, IsLater-refl, Lists}
use developer_certificates.Bots.Lossless.{Reach-Lossless}
use developer_certificates.Bots.Landed.{Landed, commit_from-Landed}
use developer_certificates.Bots.Sources.{Holds}
use developer_certificates.Bots.Writes.{IsAddressed, IsHash, Trips}
use developer_certificates.Tests.Data.{app_id, repo, cert}

-- A store whose SHAs are the texts behind a byte.
abbrev pub Texts : Type 0
Texts = Bytes → Option Bytes

abbrev pub hash : Bytes → Bytes
hash s = 7 ∷ s

pub hash-IsHash : IsHash hash
hash-IsHash = record { injective = λ s t e. cc e; nonempty = λ s e. cc e }

abbrev pub blob : Option Bytes → Option Blob
blob none = none
blob (some t) = some (record { content = t; sha = hash t })

abbrev pub texts_view : Texts → View
texts_view w id = blob (w id)

abbrev pub after_put : Texts → Bytes → Bytes → Texts
after_put w id text k = if bytes_eq id k then some text else w k

unfoldable pub texts_gh : GitHub Texts
texts_gh = record {
  list_open_cert_requests = fail (errorf []);
  list_open_revocation_requests = fail (errorf []);
  own_comments = λ _. fail (errorf []);
  post_comment = λ _ _. pure tt;
  set_labels = λ _ _ _. pure tt;
  close_issue = λ _. pure tt;
  get_file = λ _ _. fail (errorf []);
  repo_accessible = λ _. fail (errorf []);
  get_ledger = λ id w. (get_blob (blob (w id)), w);
  put_ledger = λ id text sha message w.
      if is_stale (blob (w id)) sha then (err err_conflict, w) else (ok tt, after_put w id text);
  put_file = λ _ _ _ _ _. fail (errorf []);
}

texts_gh-Written :
    (id text sha message : Bytes) (w : Texts)
    → Written
        (texts_view w)
        id
        text
        sha
        (texts_gh.put_ledger id text sha message w).0
        (texts_view (texts_gh.put_ledger id text sha message w).1)
unfolding texts_gh
texts_gh-Written id text sha message w = elim (Bool-cases (is_stale (blob (w id)) sha)) [
  | inl stale ↦ rw stale (refused err_conflict (λ k. refl))
  | inr fresh ↦ rw fresh (
      stored (record { content = text; sha = hash text }) fresh refl (rw (bytes_eq_refl id) refl)
        (λ k other. apart k other))
]
  where
    apart : (k : Bytes) → k ≢ id → blob (after_put w id text k) ≡ blob (w k)
    apart k other = elim (Bool-cases (bytes_eq id k)) [
      | inl same ↦ absurd (other (sym ((bytes_eq_iff id k).0 same)))
      | inr differs ↦ rw differs refl
    ]

pub texts_gh-IsVersioned : IsVersioned texts_gh (λ _. Unit) texts_view
unfolding texts_gh
texts_gh-IsVersioned = record {
  answers = λ id w _. refl;
  reads = λ id w _ k. refl;
  writes = λ id text sha message w _. texts_gh-Written id text sha message w;
}

pub addressed : (w : Texts) (id : Bytes) → IsAddressed hash (texts_view w id)
addressed w id b e = go (w id) e
  where
    go : (o : Option Bytes) → blob o ≡ some b → b.sha ≡ hash b.content
    go none e = cc e
    go (some t) e = ap (λ x. x.sha) (sym (some_inj.0 e)) ∙ ap (λ x. hash x.content) (some_inj.0 e)

-- What the issuer bot records when the signer of the tests signs.
abbrev pub minted : Certificate
minted = record cert {
  serial = codes "0x1";
  fingerprint = codes "sha256:02";
  not_before = 0;
  not_after = 1000;
}

-- The ledger after the first run, and after both.
abbrev pub one : Ledger
one = record {
  app_id = app_id;
  owner = record { origin = codes "github"; repo = repo };
  claimed_at = 300;
  reserved = false;
  certificates = minted ∷ [];
}

abbrev two : Ledger
two = record one { certificates = minted ∷ minted ∷ [] }

pub Ledger-discrete : Discrete Ledger
Ledger-discrete = hlevel ℕ_discrete

abbrev pick : {l : Ledger} → Dec (l ≡ one) → Dec (l ≡ two) → Result Bytes
pick (yes _) d = ok (1 ∷ [])
pick (no _) (yes _) = ok (2 ∷ [])
pick (no _) (no _) = err (errorf [])

unfoldable pub small_codec : Codec
unfolding bytes_eq
small_codec = record {
  quote = λ s. s;
  decode = λ t.
      if bytes_eq t (1 ∷ [])
      then ok one
      else if bytes_eq t (2 ∷ [])
      then ok two
      else err (errorf []);
  encode = λ l. pick (Ledger-discrete l one) (Ledger-discrete l two);
}

pick-trips :
    (l : Ledger) (d : Dec (l ≡ one)) (d' : Dec (l ≡ two)) (text : Bytes)
    → pick d d' ≡ ok text
    → small_codec.decode text ≡ ok l
unfolding small_codec bytes_eq
pick-trips l (yes p) d' text e = subst (λ t. small_codec.decode t ≡ ok l) (ok_inj e) (ap ok (sym p))
pick-trips l (no _) (yes p) text e =
    subst (λ t. small_codec.decode t ≡ ok l) (ok_inj e) (ap ok (sym p))
pick-trips l (no _) (no _) text e = cc e

pub trips : Trips small_codec
unfolding small_codec
trips l text e = (
  l,
  pick-trips l (Ledger-discrete l one) (Ledger-discrete l two) text e,
  IsLater-refl l.certificates,
)

encode-one : (d : Dec (one ≡ one)) (d' : Dec (one ≡ two)) → pick d d' ≡ ok (1 ∷ [])
encode-one (yes _) d' = refl
encode-one (no n) d' = absurd (n refl)

encode-two : (d : Dec (two ≡ one)) (d' : Dec (two ≡ two)) → pick d d' ≡ ok (2 ∷ [])
encode-two (yes p) d' = absurd (omega (arith, ap (λ l. length l.certificates) p))
encode-two (no _) (yes _) = refl
encode-two (no _) (no n) = absurd (n refl)

pub encoded_one : small_codec.encode one ≡ ok (1 ∷ [])
unfolding small_codec
encoded_one = encode-one (Ledger-discrete one one) (Ledger-discrete one two)

pub encoded_two : small_codec.encode two ≡ ok (2 ∷ [])
unfolding small_codec
encoded_two = encode-two (Ledger-discrete two one) (Ledger-discrete two two)

abbrev jobs : ℕ → Job
jobs i = issue repo minted 300

abbrev pub empty_store : Texts
empty_store k = none

abbrev pub with_one : Texts
with_one = after_put empty_store app_id (1 ∷ [])

abbrev with_two : Texts
with_two = after_put with_one app_id (2 ∷ [])

abbrev begin : System Texts
begin = record { world = empty_store; phase = λ i. idle }

abbrev both_read : System Texts
both_read = move (move begin empty_store 0 (holding none [])) empty_store 1 (holding none [])

abbrev first_done : System Texts
first_done = move both_read with_one 0 (done minted.serial)

abbrev second_refused : System Texts
second_refused = move first_done with_one 1 idle

abbrev second_again : System Texts
second_again = move second_refused with_one 1 (holding (some one) (hash (1 ∷ [])))

abbrev both_done : System Texts
both_done = move second_again with_two 1 (done minted.serial)

raced : Reach small_codec texts_gh texts_view app_id jobs begin first_done
unfolding load_ledger load_to_issue loaded next extended new_ledger texts_gh get_blob err_not_found
    ◌>>=◌ small_codec origin_github is_stale
raced =
    later (later (later start (read 0 refl)) (read 1 refl))
      (write 0 {message = []} refl refl encoded_one refl)

interleaved : Reach small_codec texts_gh texts_view app_id jobs begin both_done
unfolding load_ledger load_to_issue loaded next extended new_ledger texts_gh get_blob err_not_found
    ◌>>=◌ small_codec origin_github is_stale bytes_eq codes parse check validate_strict
    status_active
interleaved =
    later (later (later raced (refuse 1 {message = []} refl refl encoded_one refl)) (read 1 refl))
      (write 1 {message = []} refl refl encoded_two refl)

Reach-Lossless_example :
    (ds : List Certificate) × Holds small_codec (texts_view with_two app_id) ds
    × IsLater [] ds
    × ((i : ℕ) (serial : Bytes) → both_done.phase i ≡ done serial → Lists false serial ds)
Reach-Lossless_example =
    Reach-Lossless small_codec texts_gh texts_view (λ _. Unit) texts_gh-IsVersioned hash hash-IsHash
      app_id tt jobs (λ w. addressed w app_id) trips [] (λ i. refl) (inl (refl, refl)) interleaved

-- The loop of the second run, whose first write is refused: the first run has written.
retried :
    commit_from small_codec texts_gh app_id repo minted 300 2 (errorf []) none [] with_one
    ≡ (ok tt, with_two)
unfolding commit_from write_extended after_write load_to_issue loaded extended new_ledger texts_gh
    get_blob err_not_found err_conflict ◌>>=◌ context origin_github is_stale bytes_eq codes parse
    check validate_strict status_active marshal small_codec
retried = rw (encoded_one, encoded_two) refl

commit_from-Landed_example :
    Landed small_codec texts_gh texts_view
      (λ _. Unit)
      texts_gh-IsVersioned
      hash
      hash-IsHash
      app_id
      tt
      jobs
      (λ w. addressed w app_id)
      trips
      []
      false
      minted.serial
      with_two
commit_from-Landed_example =
    commit_from-Landed small_codec texts_gh texts_view (λ _. Unit) texts_gh-IsVersioned hash
      hash-IsHash app_id tt jobs (λ w. addressed w app_id) trips [] (λ i. refl) (inl (refl, refl))
      raced 1 repo minted 300 refl 2 (errorf []) none [] with_two refl retried
