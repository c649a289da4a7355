-- ===== src/Enroll/Ledgers/Progress.antt =====
-- The loop that writes a ledger comes to an end on the in-memory hub.
use developer_certificates.Common.{
  ℕ, suc, ◌≡◌, refl, ap, sym, ◌∙◌, inl, inr, false, Option, none, some, [], Bytes, codes, ◌++◌,
  bytes_eq_refl, arith,
}
use developer_certificates.Clock.{Time}
use developer_certificates.Effects.{Error, ok, err, errorf, Result-cases, ◌>>=◌}
use developer_certificates.Effects.Keep.{>>=-step, always-step}
use developer_certificates.GitHub.{err_conflict, err_not_found}
use developer_certificates.GitHub.Fake.{
  Blob, Client, client, get_blob, get_ledger, is_stale, put_ledger, check_prev_sha,
}
use developer_certificates.GitHub.Fake.Store.{put_ledger_iff, is_stale_iff, put_ledger-refused}
use developer_certificates.Ledger.{Certificate, Ledger, Codec, parse}
use developer_certificates.Enroll.Ledgers.{
  max_ledger_retries, loaded, load_ledger, extended, commit_from, commit_ledger,
}
use developer_certificates.Enroll.Ledgers.Retry.{write_extended-conflict, write_extended-stored}

pub put_ledger-calm :
    (app_id text sha message : Bytes) (c : Client) (e : Error)
    → (put_ledger app_id text sha message c).0 ≡ err e
    → (put_ledger app_id text sha message c).1.fail_next_put_with_conflict ≡ false
unfolding put_ledger check_prev_sha
put_ledger-calm app_id text sha message c e h = ground arith

module _ (codec : Codec) (app_id : Bytes) where
  -- The stored ledger, if there is one, can be parsed.
  abbrev pub IsReadable : Client → Type 0
  IsReadable c =
      (b : Blob) → c.ledgers app_id ≡ some b → (l : Ledger) × (parse codec b.content ≡ ok l)

  loaded-current :
      (v : Option Blob)
      → ((b : Blob) → v ≡ some b → (l : Ledger) × (parse codec b.content ≡ ok l))
      → (existing : Option Ledger) × (sha : Bytes) × (loaded codec client app_id (get_blob v)
          ≡ ok (existing, sha))
        × (is_stale v sha ≡ false)
  unfolding loaded get_blob is_stale err_not_found
  loaded-current none readable = (none, [], refl, refl)
  loaded-current (some b) readable =
      let (l, parsed) = readable b refl in
      (some l, b.sha, rw (parsed, loaded) refl, rw (bytes_eq_refl b.sha) refl)

  load_ledger-current :
      (c : Client)
      → IsReadable c
      → (existing : Option Ledger) × (sha : Bytes) × (load_ledger codec client app_id c
          ≡ (ok (existing, sha), c))
        × (is_stale (c.ledgers app_id) sha ≡ false)
  unfolding load_ledger client get_ledger ◌>>=◌
  load_ledger-current c readable =
      let (existing, sha, got, current) = loaded-current (c.ledgers app_id) readable in
      (existing, sha, (λ i. (got i, c)), current)

  module _ (repo : Bytes) (entry : Certificate) (now : Time)
      (encodes : (l : Ledger) → (text : Bytes) × (codec.encode l ≡ ok text)) where
    -- The write goes through where the SHA is current and no conflict was asked for.
    commit_from-stored :
        (rounds : ℕ) (last : Error) (existing : Option Ledger) (sha : Bytes) (c : Client)
        → c.fail_next_put_with_conflict ≡ false
        → is_stale (c.ledgers app_id) sha ≡ false
        → (commit_from codec client app_id repo entry now (suc rounds) last existing sha c).0
          ≡ ok tt
    unfolding commit_from client
    commit_from-stored rounds last existing sha c calm current =
        let (text, encoded) = encodes (extended app_id repo now entry existing) in
        let message = codes "ledger: issue cert for " ++ app_id in
        let put =
          (put_ledger_iff app_id text sha message c).1
            (calm, (is_stale_iff (c.ledgers app_id) sha).0 current) in
        ap (λ r. r.0)
          (write_extended-stored codec client app_id sha _ (extended app_id repo now entry existing)
            text c (put_ledger app_id text sha message c).1 encoded
            (λ i. (put i, (put_ledger app_id text sha message c).1)))

    commit_from-lands :
        (rounds : ℕ) (last : Error) (existing : Option Ledger) (sha : Bytes) (c : Client)
        → IsReadable c
        → (commit_from codec client app_id repo entry now (suc (suc rounds)) last existing sha c).0
          ≡ ok tt
    unfolding commit_from client err_conflict
    commit_from-lands rounds last existing sha c readable =
        let (text, encoded) = encodes (extended app_id repo now entry existing) in
        let message = codes "ledger: issue cert for " ++ app_id in
        let left = (put_ledger app_id text sha message c).1 in
        elim (Result-cases (put_ledger app_id text sha message c).0) [
          | inl (_, good) ↦
              ap (λ r. r.0)
                (write_extended-stored codec client app_id sha _
                  (extended app_id repo now entry existing) text c left encoded
                  (λ i. (good i, left)))
          | inr (e, bad) ↦
              let (conflict, same) =
                put_ledger-refused app_id text sha message c (λ good. cc (good, bad)) in
              let (existing', sha', got, current) =
                load_ledger-current left
                  (λ b at. readable b (sym (ap (λ v. v app_id) same) ∙ at)) in
              ap (λ r. r.0)
                (write_extended-conflict codec client app_id sha _
                    (extended app_id repo now entry existing) text err_conflict c left encoded
                    (λ i. (conflict i, left)) refl
                  ∙ >>=-step (load_ledger codec client app_id) _ left left got)
              ∙ commit_from-stored rounds err_conflict existing' sha' left
                  (put_ledger-calm app_id text sha message c e bad) current
        ]

-- The loop commits its entry on the in-memory hub, whatever it was given to start with: if the SHA was
-- stale, or a conflict was asked for, the second attempt goes through. Every ledger can be encoded, the
-- stored one can be parsed, and the clock changes nothing on the hub.
pub commit_ledger-lands :
    (codec : Codec) (clock : Client → Time × Client) (app_id repo : Bytes) (entry : Certificate)
    (existing : Option Ledger) (prev_sha : Bytes) (c : Client)
    → ((l : Ledger) → (text : Bytes) × (codec.encode l ≡ ok text))
    → ((k : Client) → (clock k).1 ≡ k)
    → IsReadable codec app_id c
    → (commit_ledger codec client clock app_id repo entry existing prev_sha c).0 ≡ ok tt
unfolding commit_ledger
commit_ledger-lands codec clock app_id repo entry existing prev_sha c encodes still readable =
    let loop = λ (now : Time).
      commit_from codec client app_id repo entry now max_ledger_retries (errorf []) existing
        prev_sha in
    ap (λ r. r.0) (always-step clock loop c ∙ ap (loop (clock c).0) (still c))
    ∙ commit_from-lands codec app_id repo entry (clock c).0 encodes 3 (errorf []) existing prev_sha
        c readable
