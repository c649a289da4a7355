-- ===== src/Revoke/Apply/Rewritten.antt =====
-- What the loop that revokes a certificate has written when it succeeds.
use developer_certificates.Common.{
  ℕ, zero, suc, ◌≡◌, ◌⊎◌, inl, inr, refl, ap, sym, ◌∙◌, Option, some, [], Bytes, codes, Bool-cases,
  Option-cases,
}
use developer_certificates.Effects.{
  ⊤, Action, Error, Result, ok, err, is_conflict, context, lift, errorf,
}
use developer_certificates.Effects.Keep.{>>=-eq-ok, attempt-step, context-eq-ok, ok_inj}
use developer_certificates.GitHub.{GitHub}
use developer_certificates.Ledger.{Certificate, Ledger, Codec, marshal}
use developer_certificates.Revoke.Apply.{
  Revocation, FindFunc, target, flipped, commit_message, max_ledger_retries, load_ledger,
  after_write, write_flipped, apply_from, apply_revocation,
}

module _ {W : Type 0} (codec : Codec) (gh : GitHub W) where
  after_write-eq-ok :
      (serial : Bytes) (again : Error → Action W Bytes) (r : Result ⊤) (w : W) (s : Bytes)
      (left : W)
      → after_write codec gh serial again r w ≡ (ok s, left)
      → ((r ≡ ok tt) × (left ≡ w) × (s ≡ serial))
        ⊎ ((e : Error) × (r ≡ err e) × (again e w ≡ (ok s, left)))
  unfolding after_write
  after_write-eq-ok serial again (ok _) w s left h =
      inl (refl, sym (ap (λ r. r.1) h), sym (ok_inj (ap (λ r. r.0) h)))
  after_write-eq-ok serial again (err e) w s left h = elim (Bool-cases (is_conflict e)) [
    | inl conflict ↦ inr (e, refl, rw conflict at h)
    | inr other ↦ cc (ap (λ r. r.0) (rw other at h))
  ]

module _ {W : Type 0} (codec : Codec) (gh : GitHub W) (app_id : Bytes) (find : FindFunc)
    (rev : Revocation) where
  -- A turn of the loop that succeeds has written the ledger, or the turns after it succeed.
  pub write_flipped-eq-ok :
      (prev_sha : Bytes) (again : Error → Action W Bytes) (t : Ledger × ℕ × Certificate) (w : W)
      (s : Bytes) (left : W)
      → write_flipped codec gh app_id rev prev_sha again t w ≡ (ok s, left)
      → ((text : Bytes) × (codec.encode (flipped rev t.0 t.1 t.2) ≡ ok text)
          × (gh.put_ledger app_id text prev_sha (commit_message rev t.2 app_id) w ≡ (ok tt, left))
          × (s ≡ t.2.serial))
        ⊎ ((text : Bytes) × (e : Error) × (at : W) × (codec.encode (flipped rev t.0 t.1 t.2)
              ≡ ok text)
            × (gh.put_ledger app_id text prev_sha (commit_message rev t.2 app_id) w ≡ (err e, at))
            × (again e at ≡ (ok s, left)))
  unfolding write_flipped marshal context
  write_flipped-eq-ok prev_sha again t w s left h =
      let next = marshal codec (flipped rev t.0 t.1 t.2) in
      let (text, encoded, runs, _) =
        >>=-eq-ok (context (codes "revoke: marshal ledger") (lift next)) _ w s (ap (λ r. r.0) h) in
      let at = (context (codes "revoke: marshal ledger") (lift next) w).1 in
      let put = gh.put_ledger app_id text prev_sha (commit_message rev t.2 app_id) in
      let step = attempt-step put (after_write codec gh t.2.serial again) at in
      elim (after_write-eq-ok codec gh t.2.serial again (put at).0 (put at).1 s left
        (sym step ∙ (sym runs ∙ h))) [
          | inl (stored, same, serial) ↦ inl (
            text,
            context-eq-ok (codes "revoke: marshal ledger") (lift next) w encoded,
            λ i. (stored i, sym same i),
            serial,
          )
          | inr (e, bad, later) ↦ inr (
            text,
            e,
            (put at).1,
            context-eq-ok (codes "revoke: marshal ledger") (lift next) w encoded,
            (λ i. (bad i, (put at).1)),
            later,
          )
        ]

  -- One write went through, and ended the loop: of the ledger that was given, or of one that was
  -- loaded again, with its target revoked, guarded by the SHA that came with it.
  pub record Rewritten (existing : Option Ledger) (prev_sha : Bytes) (serial : Bytes) (left : W)
      : Type 0 where
    pub base : Option Ledger
    pub sha : Bytes
    pub ledger : Ledger
    pub index : ℕ
    pub cert : Certificate
    pub text : Bytes
    pub at : W
    pub read :
        ((base ≡ existing) × (sha ≡ prev_sha))
        ⊎ ((w : W) × ((load_ledger codec gh app_id w).0 ≡ ok (base, sha)))
    pub found : target find base ≡ some (ledger, index, cert)
    pub named : serial ≡ cert.serial
    pub encoded : codec.encode (flipped rev ledger index cert) ≡ ok text
    pub stored : gh.put_ledger app_id text sha (commit_message rev cert app_id) at ≡ (ok tt, left)

  apply_from-Rewritten :
      (attempts : ℕ) (last : Error) (existing : Option Ledger) (prev_sha : Bytes) (w : W)
      (s : Bytes) (left : W)
      → apply_from codec gh app_id find rev attempts last existing prev_sha w ≡ (ok s, left)
      → Rewritten existing prev_sha s left
  unfolding apply_from
  apply_from-Rewritten zero last existing prev_sha w s left h = cc (ap (λ r. r.0) h)
  apply_from-Rewritten (suc attempts) last existing prev_sha w s left h =
      elim (Option-cases (target find existing)) [
        | inl gone ↦ cc (ap (λ r. r.0) (rw (apply_from, gone) at h))
        | inr (t, found) ↦
            elim (write_flipped-eq-ok prev_sha _ t w s left (rw (apply_from, found) at h)) [
              | inl (text, encoded, stored, serial) ↦ record {
                base = existing;
                sha = prev_sha;
                ledger = t.0;
                index = t.1;
                cert = t.2;
                text = text;
                at = w;
                read = inl (refl, refl);
                found = found;
                named = serial;
                encoded = encoded;
                stored = stored;
              }
              | inr (_, e, at, _, _, later) ↦
                  let load = load_ledger codec gh app_id in
                  let ((base, sha), loaded, runs, _) =
                    >>=-eq-ok load _ at s (ap (λ r. r.0) later) in
                  let rest =
                    apply_from-Rewritten attempts e base sha (load at).1 s left
                      (sym runs ∙ later) in
                  record {
                    base = rest.base;
                    sha = rest.sha;
                    ledger = rest.ledger;
                    index = rest.index;
                    cert = rest.cert;
                    text = rest.text;
                    at = rest.at;
                    read = inr (elim rest.read [
                      | inl (b, c) ↦ (at, loaded ∙ (λ i. ok (sym b i, sym c i)))
                      | inr again ↦ again
                    ]);
                    found = rest.found;
                    named = rest.named;
                    encoded = rest.encoded;
                    stored = rest.stored;
                  }
            ]
      ]

  -- When a revocation is applied, one write of the ledger went through: of the ledger that was given,
  -- or of one that was loaded again after a conflict, with the certificate that the finder names
  -- there revoked, and under the SHA that came with it; the result is that certificate's serial.
  pub apply_revocation-Rewritten :
      (existing : Option Ledger) (prev_sha : Bytes) (w : W) (s : Bytes) (left : W)
      → apply_revocation codec gh app_id find rev existing prev_sha w ≡ (ok s, left)
      → Rewritten existing prev_sha s left
  unfolding apply_revocation
  apply_revocation-Rewritten = apply_from-Rewritten max_ledger_retries (errorf [])
