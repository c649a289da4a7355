-- ===== src/Cmd/Crlgen/Complete.antt =====
-- What a run of the list builder that succeeds has signed and delivered.
use developer_certificates.Common.{
  ◌≡◌, sym, subst, ◌∙◌, ◌+◌, ◌*◌, inl, inr, false, Bool-cases, List, Bytes, codes, bytes_eq,
  bytes_eq_iff,
}
use mathlib.Core.List.{Mem, Perm}
use developer_certificates.Clock.{Time, day, unix}
use developer_certificates.Crl.{build, entries}
use developer_certificates.Crl.Entries.{AreEntriesOf, revoked, Ordered, build_lem}
use developer_certificates.Crl.Load.{Files, load_all}
use developer_certificates.Crl.Load.Complete.{Loaded, Loaded-Mem, load_all_iff}
use developer_certificates.Effects.{⊤, Result, ok, context, lift, always}
use developer_certificates.Effects.Keep.{>>=-eq-ok, context-eq-ok, ok_inj}
use developer_certificates.GitHub.Rest.Transport.{Http}
use developer_certificates.Ledger.{Ledger, load}
use developer_certificates.Runtime.{Runtime}
use developer_certificates.Signer.{Signer}
use developer_certificates.Signer.Keys.{Crypto}
use developer_certificates.Signer.Local
use developer_certificates.Signer.Local.{LocalSigner}
use developer_certificates.Signer.Vault.{Vault}
use developer_certificates.X509.{RevocationList, RevocationListEntry}
use developer_certificates.Cmd.Config.{Env, is_set}
use developer_certificates.Cmd.Config.Selection.{Selected, configured-cases}
use developer_certificates.Cmd.Crlgen.{
  Disk, ledger_dir, local_signer, without_key, new_signer, deliver, run,
}

module _ {W : Type 0} (rt : Runtime) (env : Env) (cr : Crypto W) (vault : Vault W) (http : Http W)
    (clock : W → Time × W) (fs : Files) (disk : Disk W)
    (sort : List RevocationListEntry → List RevocationListEntry) where
  -- The configured signer or, where no key is named, a new one that the environment allows.
  pub data IsAllowed (now : Time) (s : Signer W) : Type 0 where
    selected : Selected rt env cr vault s → IsAllowed now s
    throwaway :
        is_set (env.getenv (codes "VAULT_ADDR")) ≡ false
        → is_set (env.getenv (codes "INTERMEDIATE_KEY_PEM")) ≡ false
        → env.getenv (codes "CRLGEN_ALLOW_LOCAL") ≡ codes "1"
        → (at : W) (made : LocalSigner) → (Local.new rt cr now at).0 ≡ ok made
        → s ≡ Local.local_signer rt cr made
        → IsAllowed now s

  -- The list that a run has signed and handed on.
  pub record Regenerated (now : Time) (out : Result ⊤ × W) : Type 0 where
    pub signer : Signer W
    pub allowed : IsAllowed now signer
    pub paths : List Bytes
    pub found : fs.glob (fs.join ledger_dir (codes "*.json")) ≡ ok paths
    pub ledgers : List Ledger
    pub loaded : Loaded rt.codec fs (fs.sort paths) ledgers
    pub complete :
        (path : Bytes)
        → Mem path paths
        → (l : Ledger) × Mem l ledgers × (load rt.codec fs.read_file path ≡ ok l)
    pub es : List RevocationListEntry
    pub of_revoked : AreEntriesOf rt.codec.quote (revoked ledgers) es
    pub tmpl : RevocationList
    pub listed : Perm es tmpl.revoked_certificate_entries
    pub ordered : Ordered tmpl.revoked_certificate_entries
    pub number : tmpl.number ≡ unix now
    pub this_update : tmpl.this_update ≡ now
    pub next_update : tmpl.next_update ≡ now + 7 * day
    pub at : W
    pub der : Bytes
    pub signed : (signer.sign_crl tmpl at).0 ≡ ok der
    pub delivered :
        out ≡ deliver rt env cr vault http clock fs disk sort der (signer.sign_crl tmpl at).1

  local_signer-eq-ok :
      (now : Time) (w : W) (s : Signer W)
      → (local_signer rt env cr vault http clock fs disk sort now w).0 ≡ ok s
      → (made : LocalSigner) × ((Local.new rt cr now w).0 ≡ ok made)
        × (s ≡ Local.local_signer rt cr made)
  unfolding local_signer
  local_signer-eq-ok now w s h =
      let (made, new, _, same) = >>=-eq-ok (Local.new rt cr now) _ w s h in
      (made, new, sym (ok_inj same))

  without_key-IsAllowed :
      (now : Time) (w : W) (s : Signer W)
      → is_set (env.getenv (codes "VAULT_ADDR")) ≡ false
      → is_set (env.getenv (codes "INTERMEDIATE_KEY_PEM")) ≡ false
      → (without_key rt env cr vault http clock fs disk sort now w).0 ≡ ok s
      → IsAllowed now s
  unfolding without_key
  without_key-IsAllowed now w s vaultless keyless h =
      elim (Bool-cases (bytes_eq (env.getenv (codes "CRLGEN_ALLOW_LOCAL")) (codes "1"))) [
        | inl allows ↦
            let (made, new, same) = local_signer-eq-ok now w s (rw (allows, without_key) at h) in
            throwaway vaultless keyless
              ((bytes_eq_iff (env.getenv (codes "CRLGEN_ALLOW_LOCAL")) (codes "1")).0 allows) w made
              new same
        | inr denied ↦ cc (rw (denied, without_key) at h)
      ]

  new_signer-IsAllowed :
      (now : Time) (w : W) (s : Signer W)
      → (new_signer rt env cr vault http clock fs disk sort now w).0 ≡ ok s
      → IsAllowed now s
  unfolding new_signer
  new_signer-IsAllowed now w s h =
      elim (configured-cases rt env cr vault
        (without_key rt env cr vault http clock fs disk sort now) w s h) [
          | inl s ↦ selected s
          | inr (vaultless, keyless, made) ↦ without_key-IsAllowed now w s vaultless keyless made
        ]

  -- When a run succeeds, every file that the search of the ledger directory finds was loaded as a
  -- ledger that passes the checks, and its ledger is among those that the list is made from; a list that
  -- has the entries of their revoked certificates and no other, by increasing serial, that is numbered by
  -- the second of the run and valid for seven days from it, was signed by the configured signer (or,
  -- where no key is named and the environment allows it, by one that was newly made in memory); and the
  -- result of the run is that of the delivery of what was signed. The sort of the paths keeps them all,
  -- and that of the entries does sort those that are collected.
  pub run-Regenerated :
      (w : W)
      → ((paths : List Bytes) → Perm paths (fs.sort paths))
      → ((ls : List Ledger) (es : List RevocationListEntry)
          → load_all rt.codec fs ledger_dir ≡ ok ls
          → entries rt.codec.quote ls ≡ ok es
          → Perm es (sort es) × Ordered (sort es))
      → (run rt env cr vault http clock fs disk sort w).0 ≡ ok tt
      → Regenerated (clock w).0 (run rt env cr vault http clock fs disk sort w)
  unfolding run context
  run-Regenerated w permutes sorts h =
      let (now, clocked, r0, h0) = >>=-eq-ok (always clock) _ w tt h in
      let (s, made, r1, h1) =
        >>=-eq-ok (new_signer rt env cr vault http clock fs disk sort now) _ _ tt h0 in
      let (ls, all, r2, h2) = >>=-eq-ok (lift (load_all rt.codec fs ledger_dir)) _ _ tt h1 in
      let (tmpl, built, r3, h3) = >>=-eq-ok (lift (build rt.codec.quote sort ls now)) _ _ tt h2 in
      let (der, signed, r4, _) =
        >>=-eq-ok (context (codes "sign crl") (s.sign_crl tmpl)) _ _ tt h3 in
      let (_, (paths, found, loaded)) = (load_all_iff rt.codec fs ledger_dir ls).0 all in
      let (es, of_revoked, listed, ordered, number, this, next) =
        build_lem rt.codec.quote sort ls now tmpl (λ es p. sorts ls es all p) built in
      subst (λ t. Regenerated t (run rt env cr vault http clock fs disk sort w))
        (ok_inj (sym clocked))
        record {
          signer = s;
          allowed = new_signer-IsAllowed now (clock w).1 s made;
          paths = paths;
          found = found;
          ledgers = ls;
          loaded = loaded;
          complete = Loaded-Mem rt.codec fs paths (fs.sort paths) ls (permutes paths) loaded;
          es = es;
          of_revoked = of_revoked;
          tmpl = tmpl;
          listed = listed;
          ordered = ordered;
          number = number;
          this_update = this;
          next_update = next;
          at = (new_signer rt env cr vault http clock fs disk sort now (clock w).1).1;
          der = der;
          signed = context-eq-ok (codes "sign crl") (s.sign_crl tmpl) _ signed;
          delivered = r0 ∙ (r1 ∙ (r2 ∙ (r3 ∙ r4)));
        }
