-- ===== src/Cmd/Config/Selection.antt =====
-- Which key the commands sign with.
use developer_certificates.Common.{
  ◌≡◌, ◌≢◌, ◌⊎◌, inl, inr, refl, ap, sym, subst, true, false, Bool-cases, some, [], ◌∷◌, Bytes,
  codes, arith,
}
use mathlib.Core.Option.{some_inj}
use developer_certificates.Effects.{Action, Error, Result, ok, err, fail, Result-cases}
use developer_certificates.Effects.Keep.{ok_inj}
use developer_certificates.Runtime.{Runtime}
use developer_certificates.Signer.{Signer}
use developer_certificates.Signer.Keys.{Crypto}
use developer_certificates.Signer.Pem
use developer_certificates.Signer.Pem.Matching.{IsMatching, new_iff}
use developer_certificates.Signer.Vault
use developer_certificates.Signer.Vault.{Vault}
use developer_certificates.X509.{Certificate}
use developer_certificates.Cmd.Config.{
  Env, is_set, load_cert, vault_config, pem_config, with_vault, with_pem, configured,
}

module _ {W : Type 0} (rt : Runtime) (env : Env) (cr : Crypto W) (vault : Vault W) where
  -- The address, the token and the key name are those of the environment, which sets all three.
  pub record IsNamed (v : Vault.VaultSigner) : Type 0 where
    pub address : v.cfg.address ≡ env.getenv (codes "VAULT_ADDR")
    pub token : v.cfg.token ≡ env.getenv (codes "VAULT_TOKEN")
    pub key_name : v.cfg.key_name ≡ env.getenv (codes "VAULT_TRANSIT_KEY")
    pub addressed : v.cfg.address ≢ []
    pub authorized : v.cfg.token ≢ []
    pub keyed : v.cfg.key_name ≢ []

  -- The signer of a run: the key in Vault, under the certificate in the file that is named, or, where
  -- no Vault is named, the key in the environment, which is that of the certificate.
  pub data Selected (s : Signer W) : Type 0 where
    in_vault :
        (v : Vault.VaultSigner)
        → is_set (env.getenv (codes "VAULT_ADDR")) ≡ true
        → load_cert rt env (env.getenv (codes "INTERMEDIATE_CERT")) ≡ ok v.issuer
        → IsNamed v
        → s ≡ Vault.vault_signer vault cr v
        → Selected s
    in_memory :
        (p : Pem.PemSigner)
        → is_set (env.getenv (codes "VAULT_ADDR")) ≡ false
        → load_cert rt env (env.getenv (codes "INTERMEDIATE_CERT")) ≡ ok p.issuer
        → IsMatching rt cr
            (record { key_pem = env.getenv (codes "INTERMEDIATE_KEY_PEM"); issuer = some p.issuer })
            p
        → s ≡ Pem.pem_signer rt cr p
        → Selected s

  new-eq-ok :
      (cfg : Vault.Config) (cert : Certificate) (v : Vault.VaultSigner)
      → Vault.new cfg (some cert) ≡ ok v
      → (v ≡ record { cfg = cfg; issuer = cert })
        × (Vault.is_empty cfg.address ≡ false)
        × (Vault.is_empty cfg.token ≡ false)
        × (Vault.is_empty cfg.key_name ≡ false)
  unfolding Vault.new
  new-eq-ok cfg cert v h = ground arith

  ne-nil : (s : Bytes) → Vault.is_empty s ≡ false → s ≢ []
  ne-nil [] h e = cc h
  ne-nil (_ ∷ _) h e = cc e

  new-IsNamed :
      (cert : Certificate) (v : Vault.VaultSigner)
      → Vault.new (vault_config rt env cr vault) (some cert) ≡ ok v
      → (v.issuer ≡ cert) × IsNamed v
  unfolding vault_config
  new-IsNamed cert v h =
      let cfg = vault_config rt env cr vault in
      let (same, addressed, authorized, keyed) = new-eq-ok cfg cert v h in
      subst (λ (u : Vault.VaultSigner). (u.issuer ≡ cert) × IsNamed u) (sym same)
        (
          refl,
          record {
            address = refl;
            token = refl;
            key_name = refl;
            addressed = ne-nil cfg.address addressed;
            authorized = ne-nil cfg.token authorized;
            keyed = ne-nil cfg.key_name keyed;
          },
        )

  with_vault-eq-ok :
      (r : Result Certificate) (s : Signer W)
      → with_vault rt env cr vault r ≡ ok s
      → (v : Vault.VaultSigner) × (r ≡ ok v.issuer)
        × IsNamed v
        × (s ≡ Vault.vault_signer vault cr v)
  unfolding with_vault
  with_vault-eq-ok (err e) s h = cc h
  with_vault-eq-ok (ok cert) s h =
      elim (Result-cases (Vault.new (vault_config rt env cr vault) (some cert))) [
        | inl (v, made) ↦
            let (issued, named) = new-IsNamed cert v made in
            (v, ap ok (sym issued), named, sym (ok_inj (rw (made, with_vault) at h)))
        | inr (e, bad) ↦ cc (rw (bad, with_vault) at h)
      ]

  with_pem-eq-ok :
      (r : Result Certificate) (s : Signer W)
      → with_pem rt env cr vault r ≡ ok s
      → (p : Pem.PemSigner) × (r ≡ ok p.issuer)
        × IsMatching rt cr
            (record { key_pem = env.getenv (codes "INTERMEDIATE_KEY_PEM"); issuer = some p.issuer })
            p
        × (s ≡ Pem.pem_signer rt cr p)
  unfolding with_pem pem_config
  with_pem-eq-ok (err e) s h = cc h
  with_pem-eq-ok (ok cert) s h =
      let config = pem_config rt env cr vault in
      elim (Result-cases (Pem.new rt cr (config cert))) [
        | inl (p, made) ↦
            let m = (new_iff rt cr (config cert) p).0 made in
            let same : cert ≡ p.issuer = some_inj.0 m.issued in
            (
              p,
              ap ok same,
              subst (λ c. IsMatching rt cr (config c) p) same m,
              sym (ok_inj (rw (made, with_pem) at h)),
            )
        | inr (e, bad) ↦ cc (rw (bad, with_pem) at h)
      ]

  -- A signer that was selected, or no key is named at all, and the signer is the command's own.
  pub configured-cases :
      (otherwise : Action W (Signer W)) (w : W) (s : Signer W)
      → (configured rt env cr vault otherwise w).0 ≡ ok s
      → Selected s
        ⊎ ((is_set (env.getenv (codes "VAULT_ADDR")) ≡ false)
            × (is_set (env.getenv (codes "INTERMEDIATE_KEY_PEM")) ≡ false)
            × ((otherwise w).0 ≡ ok s))
  unfolding configured
  configured-cases otherwise w s h = elim (Bool-cases (is_set (env.getenv (codes "VAULT_ADDR")))) [
    | inl named ↦
        let (v, loaded, its, is) =
          with_vault-eq-ok (load_cert rt env (env.getenv (codes "INTERMEDIATE_CERT"))) s
            (rw (named, configured) at h) in
        inl (in_vault v named loaded its is)
    | inr unnamed ↦ elim (Bool-cases (is_set (env.getenv (codes "INTERMEDIATE_KEY_PEM")))) [
      | inl given ↦
          let (p, loaded, matches, is) =
            with_pem-eq-ok (load_cert rt env (env.getenv (codes "INTERMEDIATE_CERT"))) s
              (rw (unnamed, configured, given) at h) in
          inl (in_memory p unnamed loaded matches is)
      | inr lacking ↦ inr (unnamed, lacking, rw (unnamed, configured, lacking) at h)
    ]
  ]

  -- A run without another way to a key, as the issuer's is, signs with the key in Vault when one is
  -- named, at the address, with the token and under the key name that the environment sets, and else
  -- with a P-384 key from the environment that is the key of the configured
  -- certificate; it never begins with another.
  pub configured-Selected :
      (e : Error) (w : W) (s : Signer W)
      → (configured rt env cr vault (fail e) w).0 ≡ ok s
      → Selected s
  configured-Selected e w s h = elim (configured-cases (fail e) w s h) [
    | inl selected ↦ selected
    | inr (_, _, never) ↦ cc never
  ]
