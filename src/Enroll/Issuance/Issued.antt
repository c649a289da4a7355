-- ===== src/Enroll/Issuance/Issued.antt =====
-- What a minting that succeeds has done: the leaf, the signature, the ledger and the delivery.
use developer_certificates.Common.{◌≡◌, refl, subst, ◌∙◌, Option, some, Bytes, codes, arith}
use developer_certificates.Challenge.{IsFull}
use developer_certificates.CertTemplate.{Inputs, leaf}
use developer_certificates.CertTemplate.Bounds.{IsLeaf, leaf-IsLeaf}
use developer_certificates.Effects.{⊤, Result, ok, context, lift, always}
use developer_certificates.Effects.Keep.{>>=-eq-ok, context-eq-ok, ok_inj}
use developer_certificates.GitHub.{Issue}
use developer_certificates.Ledger.{Ledger, origin_github}
use developer_certificates.Runtime.{Runtime}
use developer_certificates.X509
use developer_certificates.X509.{PublicKey, Template}
use developer_certificates.Enroll.Form.{Form, owner_of}
use developer_certificates.Enroll.Ledgers.{commit_ledger}
use developer_certificates.Enroll.Ledgers.Written.{Written, commit_ledger-Written}
use developer_certificates.Enroll.Issuance.{Deps, owner, mint, entry, deliver, issue_certificate}

module _ {W : Type 0} (rt : Runtime) (d : Deps W) where
  -- A leaf for the appId and key, under the repository's owner, signed and parsed back.
  pub record Minted (f : Form) (app_id : Bytes) (key : PublicKey) (der : Bytes)
      (cert : X509.Certificate) : Type 0 where
    pub inputs : Inputs
    pub owned : owner_of f.repo ≡ some inputs.owner
    pub for_app : inputs.app_id ≡ app_id
    pub for_key : inputs.public_key ≡ key
    pub issued_by : inputs.issuer ≡ some d.signer.issuer_certificate
    pub tmpl : Template
    pub is_leaf : IsLeaf inputs tmpl
    pub at : W
    pub signed : (d.signer.sign tmpl key at).0 ≡ ok der
    pub parsed : rt.parse_certificate der ≡ ok cert

  owner-eq-ok : (repo o : Bytes) → owner repo ≡ ok o → owner_of repo ≡ some o
  unfolding owner
  owner-eq-ok repo o h = ground arith

  mint-Minted :
      (f : Form) (app_id : Bytes) (key : PublicKey) (w : W) (der : Bytes) (cert : X509.Certificate)
      → IsFull d.rand
      → (mint rt d f app_id key w).0 ≡ ok (der, cert)
      → Minted f app_id key der cert
  unfolding mint
  mint-Minted f app_id key w der cert full h =
      let (now, _, _, h1) = >>=-eq-ok (always d.clock) _ w (der, cert) h in
      let (o, owned, _, h2) = >>=-eq-ok (lift (owner f.repo)) _ (d.clock w).1 (der, cert) h1 in
      let inputs : Inputs = record {
        app_id = app_id;
        owner = o;
        origin = origin_github;
        public_key = key;
        not_before = now;
        issuer = some d.signer.issuer_certificate;
      } in
      let build = leaf rt.codec.quote d.rand d.rounds inputs in
      let (tmpl, built, _, h3) =
        >>=-eq-ok (context (codes "enroll: build leaf template") build) _ (d.clock w).1 (der, cert)
          h2 in
      let (raw, signed, _, h4) =
        >>=-eq-ok (context (codes "enroll: sign leaf") (d.signer.sign tmpl key)) _ _ (der, cert)
          h3 in
      let (c, parsed, _, h5) =
        >>=-eq-ok (context (codes "enroll: parse issued leaf") (lift (rt.parse_certificate raw))) _
          _ (der, cert) h4 in
      let same : (raw, c) ≡ (der, cert) = ok_inj h5 in
      let drawn = context-eq-ok (codes "enroll: build leaf template") build (d.clock w).1 built in
      subst (λ (p : Bytes × X509.Certificate). Minted f app_id key p.0 p.1) same
        record {
          inputs = inputs;
          owned = owner-eq-ok f.repo o owned;
          for_app = refl;
          for_key = refl;
          issued_by = refl;
          tmpl = tmpl;
          is_leaf = leaf-IsLeaf rt.codec.quote d.rand d.rounds inputs (d.clock w).1 tmpl full drawn;
          at = (context (codes "enroll: build leaf template") build (d.clock w).1).1;
          signed = context-eq-ok (codes "enroll: sign leaf") (d.signer.sign tmpl key) _ signed;
          parsed =
              context-eq-ok {W = W} (codes "enroll: parse issued leaf")
                (lift (rt.parse_certificate raw)) _ parsed;
        }

  -- A certificate was minted and recorded in the ledger before it was delivered.
  pub record Issued (issue : Issue) (f : Form) (app_id : Bytes) (key : PublicKey)
      (existing : Option Ledger) (prev_sha : Bytes) (out : Result ⊤ × W) : Type 0 where
    pub der : Bytes
    pub cert : X509.Certificate
    pub minted : Minted f app_id key der cert
    pub committed_from : W
    pub at : W
    pub written :
        Written rt.codec d.gh app_id f.repo
          (entry rt d issue der cert)
          (d.clock committed_from).0
          existing
          prev_sha
          at
    pub delivered : out ≡ deliver rt d issue app_id der at

  -- When the minting succeeds, a leaf for the appId and the request's key, under the owner that the
  -- repository names, has been signed and parsed back; its entry was written to the ledger; and only
  -- then was it delivered. The reader of randomness is one that returns full reads.
  pub issue_certificate-Issued :
      (issue : Issue) (f : Form) (app_id : Bytes) (key : PublicKey) (existing : Option Ledger)
      (prev_sha : Bytes) (w : W)
      → IsFull d.rand
      → (issue_certificate rt d issue f app_id key existing prev_sha w).0 ≡ ok tt
      → Issued issue f app_id key existing prev_sha
          (issue_certificate rt d issue f app_id key existing prev_sha w)
  unfolding issue_certificate
  issue_certificate-Issued issue f app_id key existing prev_sha w full h =
      let ((der, cert), minted, first, h1) = >>=-eq-ok (mint rt d f app_id key) _ w tt h in
      let commit =
        commit_ledger rt.codec d.gh d.clock app_id f.repo (entry rt d issue der cert) existing
          prev_sha in
      let at = (mint rt d f app_id key w).1 in
      let (_, committed, second, h2) =
        >>=-eq-ok commit (λ _. deliver rt d issue app_id der) at tt h1 in
      record {
        der = der;
        cert = cert;
        minted = mint-Minted f app_id key w der cert full minted;
        committed_from = at;
        at = (commit at).1;
        written =
            commit_ledger-Written rt.codec d.gh d.clock app_id f.repo (entry rt d issue der cert)
              existing prev_sha at (commit at).1 (λ i. (committed i, (commit at).1));
        delivered = first ∙ second;
      }
