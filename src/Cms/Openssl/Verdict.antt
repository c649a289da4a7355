-- ===== src/Cms/Openssl/Verdict.antt =====
-- How a verification by openssl may end: verified, refused as invalid, or broken off.
use developer_certificates.Common.{◌≡◌, ◌∙◌, refl, inl, inr, sym, true, [], ◌∷◌, Bytes, codes}
use developer_certificates.Effects.{
  Error, Result, ok, err, wrap, mark, is_invalid_cms, context, lift, Result-cases,
}
use developer_certificates.Effects.Keep.{context->>=-cases}
use developer_certificates.Runtime.{Runtime}
use developer_certificates.Revoke.SelfService.{CmsResult}
use developer_certificates.X509.{Certificate}
use developer_certificates.Cms.Openssl.{
  Os, Exit, success, failure, not_run, binary, arguments, invalid_cms, only_certificate, accept,
  judge, run_verify, with_removal, verify,
}
use developer_certificates.Cms.Openssl.Signers.{Certs, Shrinks, only_certificate_iff}

module _ {W : Type 0} (rt : Runtime) (os : Os W) (request : Bytes) where
  -- openssl was given the request, and the new file `name` for its signer, and ended so.
  pub record Ran (w : W) (name : Bytes) (exit : Exit) (left : W) : Type 0 where
    pub opened : W
    pub created : os.create_temp (codes "cms-signer-*.pem") w ≡ (ok name, opened)
    pub ran : os.run binary (arguments rt os name) request opened ≡ (exit, left)

  -- What a verification returns and the world that it leaves, in which the file, once it was made, is
  -- removed.
  pub data Verdict (w : W) : Result CmsResult × W → Type 0 where
    verified :
        {name stdout pem : Bytes} {signer : Certificate} {at left : W}
        → Ran w name (success stdout) at
        → os.read_file name at ≡ (ok pem, left)
        → Certs rt pem (signer ∷ [])
        → Verdict w (ok (record { signer_cert = signer; content = stdout }), os.remove name left)
    refused :
        {name stderr : Bytes} {e : Error} {left : W}
        → Ran w name (failure stderr) left
        → is_invalid_cms e ≡ true
        → Verdict w (err e, os.remove name left)
    ambiguous :
        {name stdout pem : Bytes} {e : Error} {at left : W}
        → Ran w name (success stdout) at
        → os.read_file name at ≡ (ok pem, left)
        → ((signer : Certificate) → ¬ Certs rt pem (signer ∷ []))
        → is_invalid_cms e ≡ true
        → Verdict w (err e, os.remove name left)
    no_file :
        {e : Error} {left : W}
        → os.create_temp (codes "cms-signer-*.pem") w ≡ (err e, left)
        → Verdict w (err (wrap (codes "openssl: temp file") e), left)
    not_started :
        {name : Bytes} {e : Error} {left : W}
        → Ran w name (not_run e) left
        → Verdict w (err (wrap (codes "openssl: run cms -verify") e), os.remove name left)
    unread :
        {name stdout : Bytes} {e : Error} {at left : W}
        → Ran w name (success stdout) at
        → os.read_file name at ≡ (err e, left)
        → Verdict w (err (wrap (codes "openssl: read signer") e), os.remove name left)

  module _ (shrinks : Shrinks rt) where
    accepted-Verdict :
        (w : W) (name stdout pem : Bytes) (at left : W)
        → Ran w name (success stdout) at
        → os.read_file name at ≡ (ok pem, left)
        → Verdict w (accept rt os stdout (only_certificate rt pem), os.remove name left)
    unfolding accept invalid_cms mark
    accepted-Verdict w name stdout pem at left ran got =
        elim (Result-cases (only_certificate rt pem)) [
          | inl (signer, one) ↦
              rw one (verified ran got ((only_certificate_iff rt pem signer shrinks).0 one))
          | inr (e, bad) ↦ rw bad (
              ambiguous ran got
                (λ signer one. cc (sym bad ∙ (only_certificate_iff rt pem signer shrinks).1 one))
                refl)
        ]

    judged-Verdict :
        (w : W) (name : Bytes) (exit : Exit) (at : W)
        → Ran w name exit at
        → Verdict w ((judge rt os name exit at).0, os.remove name (judge rt os name exit at).1)
    unfolding judge invalid_cms mark context
    judged-Verdict w name (failure stderr) at ran = refused ran refl
    judged-Verdict w name (not_run e) at ran = not_started ran
    judged-Verdict w name (success stdout) at ran =
        let go = λ (pem : Bytes). lift (accept rt os stdout (only_certificate rt pem)) in
        elim (context->>=-cases (codes "openssl: read signer") (os.read_file name) go at) [
          | inl (pem, got, runs) ↦
              rw runs (accepted-Verdict w name stdout pem at (os.read_file name at).1 ran got)
          | inr (e, bad, runs) ↦ rw runs (unread ran bad)
        ]

    -- A verification ends in one of six ways. It returns a certificate and a content only when openssl
    -- accepts the request and the file of the signer holds one certificate, which is the one returned,
    -- with what openssl writes as the content. The error is that of an invalid request when openssl
    -- rejects it, or accepts it and the file does not hold one certificate. When no file can be made,
    -- openssl cannot be run or the file cannot be read, that error is handed on under a prefix. Once it
    -- is made, the file is removed, whatever follows. The PEM decoder returns a rest that is shorter
    -- than the text.
    pub verify-Verdict : (w : W) → Verdict w (verify rt os request w)
    unfolding verify with_removal run_verify
    verify-Verdict w =
        let create = os.create_temp (codes "cms-signer-*.pem") in
        let go = λ (name : Bytes). with_removal rt os name (run_verify rt os request name) in
        elim (context->>=-cases (codes "openssl: temp file") create go w) [
          | inl (name, got, runs) ↦
              let ended = os.run binary (arguments rt os name) request (create w).1 in
              rw runs (
                judged-Verdict w name ended.0 ended.1
                  (record { opened = (create w).1; created = got; ran = refl }))
          | inr (e, bad, runs) ↦ rw runs (no_file bad)
        ]
