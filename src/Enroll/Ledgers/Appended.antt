-- ===== src/Enroll/Ledgers/Appended.antt =====
-- What becomes of an entry whose ledger was written by another run in between, on the in-memory hub.
use developer_certificates.Common.{
  ℕ, suc, ◌≡◌, ◌≢◌, refl, ap, sym, subst, ◌∙◌, inl, inr, false, Option, some, [], ◌∷◌, Bytes, codes,
  ◌++◌,
}
use developer_certificates.Clock.{Time}
use developer_certificates.Effects.{⊤, Result, Error, ok, errorf, Result-cases, ◌>>=◌}
use developer_certificates.Effects.Keep.{>>=-step, always-step}
use developer_certificates.GitHub.{err_conflict}
use developer_certificates.GitHub.Fake.{
  Blob, Client, client, get_blob, get_ledger, put_ledger, mint_sha,
}
use developer_certificates.GitHub.Fake.Store.{
  IsCurrent, put_ledger_iff, put_ledger-refused, put_ledger-blob,
}
use developer_certificates.Ledger.{Certificate, Ledger, Codec, parse}
use developer_certificates.Enroll.Ledgers.{
  max_ledger_retries, loaded, load_ledger, extended, commit_from, commit_ledger,
}
use developer_certificates.Enroll.Ledgers.Progress.{put_ledger-calm}
use developer_certificates.Enroll.Ledgers.Retry.{write_extended-conflict, write_extended-stored}

module _ (codec : Codec) (app_id repo : Bytes) (entry : Certificate) (b : Blob) (other : Ledger)
    (parsed : parse codec b.content ≡ ok other)
    (encodes : (l : Ledger) → (text : Bytes) × (codec.encode l ≡ ok text)) where
  -- The stored ledger is `other` with the entry behind its certificates.
  pub record IsAppended (out : Result ⊤ × Client) : Type 0 where
    pub succeeds : out.0 ≡ ok tt
    pub text : Bytes
    pub encoded :
        codec.encode (record other { certificates = other.certificates ++ entry ∷ [] }) ≡ ok text
    pub sha : Bytes
    pub stored : out.1.ledgers app_id ≡ some (record { content = text; sha = sha })

  load_ledger-stored :
      (c : Client)
      → c.ledgers app_id ≡ some b
      → load_ledger codec client app_id c ≡ (ok (some other, b.sha), c)
  unfolding load_ledger loaded client get_ledger get_blob ◌>>=◌
  load_ledger-stored c there = rw (there, get_blob, loaded, parsed) refl

  module _ (now : Time) where
    commit_from-IsAppended :
        (rounds : ℕ) (last : Error) (c : Client)
        → c.fail_next_put_with_conflict ≡ false
        → c.ledgers app_id ≡ some b
        → IsAppended
            (commit_from codec client app_id repo entry now (suc rounds) last (some other) b.sha c)
    unfolding commit_from client extended
    commit_from-IsAppended rounds last c calm there =
        let (text, encoded) = encodes (extended app_id repo now entry (some other)) in
        let message = codes "ledger: issue cert for " ++ app_id in
        let put =
          (put_ledger_iff app_id text b.sha message c).1
            (calm, subst (λ v. IsCurrent v b.sha) (sym there) refl) in
        let left = (put_ledger app_id text b.sha message c).1 in
        rw
          (write_extended-stored codec client app_id b.sha _
            (extended app_id repo now entry (some other)) text c left encoded (λ i. (put i, left)))
          record {
            succeeds = refl;
            text = text;
            encoded = encoded;
            sha = (mint_sha c).0;
            stored = put_ledger-blob app_id text b.sha message c put;
          }

    commit_from-stale :
        (rounds : ℕ) (last : Error) (existing : Option Ledger) (sha : Bytes) (c : Client)
        → c.ledgers app_id ≡ some b
        → b.sha ≢ sha
        → IsAppended
            (commit_from codec client app_id repo entry now (suc (suc rounds)) last existing sha c)
    unfolding commit_from client err_conflict
    commit_from-stale rounds last existing sha c there stale =
        let (text, encoded) = encodes (extended app_id repo now entry existing) in
        let message = codes "ledger: issue cert for " ++ app_id in
        let left = (put_ledger app_id text sha message c).1 in
        elim (Result-cases (put_ledger app_id text sha message c).0) [
          | inl (_, good) ↦ absurd (
              stale (
                subst (λ v. IsCurrent v sha) there
                  ((put_ledger_iff app_id text sha message c).0 good).1))
          | inr (e, bad) ↦
              let (conflict, same) =
                put_ledger-refused app_id text sha message c (λ good. cc (good, bad)) in
              let still_there = ap (λ v. v app_id) same ∙ there in
              subst IsAppended
                (sym (
                  write_extended-conflict codec client app_id sha _
                    (extended app_id repo now entry existing) text err_conflict c left encoded
                    (λ i. (conflict i, left)) refl
                  ∙ >>=-step (load_ledger codec client app_id) _ left left
                      (load_ledger-stored left still_there)))
                (commit_from-IsAppended rounds err_conflict left
                  (put_ledger-calm app_id text sha message c e bad) still_there)
        ]

-- A commit that comes too late, with a SHA that is not that of the stored ledger, appends its entry to
-- that ledger on the in-memory hub, whoever owns it and whatever the run had read before: it succeeds,
-- and what is stored then is the ledger of the other run, with its owner, and the entry behind its
-- certificates. Every ledger can be encoded, the stored one can be parsed, and the clock changes
-- nothing on the hub.
pub commit_ledger-IsAppended :
    (codec : Codec) (clock : Client → Time × Client) (app_id repo : Bytes) (entry : Certificate)
    (existing : Option Ledger) (prev_sha : Bytes) (c : Client) (b : Blob) (other : Ledger)
    (parsed : parse codec b.content ≡ ok other)
    (encodes : (l : Ledger) → (text : Bytes) × (codec.encode l ≡ ok text))
    → ((k : Client) → (clock k).1 ≡ k)
    → c.ledgers app_id ≡ some b
    → b.sha ≢ prev_sha
    → IsAppended codec app_id repo entry b other parsed encodes
        (commit_ledger codec client clock app_id repo entry existing prev_sha c)
unfolding commit_ledger
commit_ledger-IsAppended codec clock app_id repo entry existing prev_sha c b other parsed encodes
      still there stale =
    let loop = λ (now : Time).
      commit_from codec client app_id repo entry now max_ledger_retries (errorf []) existing
        prev_sha in
    subst (IsAppended codec app_id repo entry b other parsed encodes)
      (sym (always-step clock loop c ∙ ap (loop (clock c).0) (still c)))
      (commit_from-stale codec app_id repo entry b other parsed encodes (clock c).0 3 (errorf [])
        existing prev_sha c there stale)
