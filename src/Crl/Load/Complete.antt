-- ===== src/Crl/Load/Complete.antt =====
-- No ledger file is left out.
use developer_certificates.Common.{
  ◌≡◌, ◌↔◌, refl, ap, sym, subst, ◌∙◌, inl, inr, true, Bool-cases, List, [], ◌∷◌, Bytes, codes,
}
use mathlib.Core.HLevel.{⊥_prop}
use mathlib.Core.Logic.{∥∥₁_map, ∥∥₁_elim}
use mathlib.Core.List.{Mem, Memᴰ, Perm}
use mathlib.Core.List.Memᴰ.{head, tail, not-nil}
use mathlib.Core.List.Perm
use developer_certificates.Effects.{ok, Result-cases}
use developer_certificates.Effects.Keep.{ok_inj}
use developer_certificates.Ledger.{Ledger, Codec, load}
use developer_certificates.Crl.Load.{Files, load_paths, load_globbed, load_dir, load_all}

module _ (codec : Codec) (fs : Files) where
  -- Each path with the ledger of its file.
  pub data Loaded : List Bytes → List Ledger → Type 0 where
    nil : Loaded [] []
    cons :
        {p : Bytes} {l : Ledger} {paths : List Bytes} {ls : List Ledger}
        → load codec fs.read_file p ≡ ok l
        → Loaded paths ls
        → Loaded (p ∷ paths) (l ∷ ls)

  load_paths-eq-ok :
      (paths : List Bytes) (ls : List Ledger) → load_paths codec fs paths ≡ ok ls → Loaded paths ls
  unfolding load_paths
  load_paths-eq-ok [] ls h = subst (Loaded []) (ok_inj h) nil
  load_paths-eq-ok (p ∷ paths) ls h = elim (Result-cases (load codec fs.read_file p)) [
    | inr (e, bad) ↦ cc (rw (bad, load_paths) at h)
    | inl (l, good) ↦ elim (Result-cases (load_paths codec fs paths)) [
      | inr (e, bad) ↦ cc (rw (good, load_paths, bad) at h)
      | inl (rest, more) ↦
          subst (Loaded (p ∷ paths)) (ok_inj (rw (good, load_paths, more) at h))
            (cons good (load_paths-eq-ok paths rest more))
    ]
  ]

  Loaded-load_paths :
      (paths : List Bytes) (ls : List Ledger) → Loaded paths ls → load_paths codec fs paths ≡ ok ls
  unfolding load_paths
  Loaded-load_paths [] _ nil = refl
  Loaded-load_paths (p ∷ paths) _ (cons {ls = ls} good rest) =
      rw (good, load_paths, Loaded-load_paths paths ls rest) refl

  Loaded-has :
      {paths : List Bytes} {ls : List Ledger}
      → Loaded paths ls
      → (p : Bytes) → Memᴰ p paths
      → (l : Ledger) × Memᴰ l ls × (load codec fs.read_file p ≡ ok l)
  Loaded-has nil p at = absurd (not-nil at)
  Loaded-has (cons {l = l} good rest) p (head same) =
      (l, head refl, ap (load codec fs.read_file) same ∙ good)
  Loaded-has (cons good rest) p (tail at) =
      let (l, there, loads) = Loaded-has rest p at in (l, tail there, loads)

  -- Each file that is found has its ledger among those that are loaded, in whatever order.
  pub Loaded-Mem :
      (found paths : List Bytes) (ls : List Ledger)
      → Perm found paths
      → Loaded paths ls
      → (p : Bytes) → Mem p found
      → (l : Ledger) × Mem l ls × (load codec fs.read_file p ≡ ok l)
  Loaded-Mem found paths ls perm all p at =
      let there = (Perm.mem_iff perm).0 at in
      elim (Result-cases (load codec fs.read_file p)) [
        | inl (l, loads) ↦ (
          l,
          ∥∥₁_map there (λ m.
              let (k, held, same) = Loaded-has all p m in
              subst (λ x. Memᴰ x ls) (ok_inj (sym same ∙ loads)) held),
          loads,
        )
        | inr (e, bad) ↦ absurd (
            ∥∥₁_elim there ⊥_prop
              (λ m. let (k, held, same) = Loaded-has all p m in cc (sym same ∙ bad)))
      ]

  -- A directory is loaded exactly when it is one and can be searched, and every file that the search
  -- finds is a well-formed ledger: the ledgers are those of all the files, in the order of their
  -- sorted paths. So no file's revocations are left out.
  pub load_all_iff :
      (dir : Bytes) (ls : List Ledger)
      → (load_all codec fs dir ≡ ok ls) ↔ (
          (fs.stat_is_dir dir ≡ ok true)
          × ((paths : List Bytes) × (fs.glob (fs.join dir (codes "*.json")) ≡ ok paths)
              × Loaded (fs.sort paths) ls))
  unfolding load_all load_dir load_globbed
  load_all_iff dir ls = (
    forth,
    λ (is_dir, (paths, found, all)).
        rw (is_dir, load_all, load_dir, found, load_globbed)
          (Loaded-load_paths (fs.sort paths) ls all),
  )
    where
      forth :
          load_all codec fs dir ≡ ok ls
          → (fs.stat_is_dir dir ≡ ok true)
            × ((paths : List Bytes) × (fs.glob (fs.join dir (codes "*.json")) ≡ ok paths)
                × Loaded (fs.sort paths) ls)
      forth h = elim (Result-cases (fs.stat_is_dir dir)) [
        | inr (e, bad) ↦ cc (rw (bad, load_all, load_dir) at h)
        | inl (is_dir, stated) ↦ elim (Bool-cases is_dir) [
          | inr file ↦ cc (rw (stated, load_all, load_dir, file) at h)
          | inl good ↦ elim (Result-cases (fs.glob (fs.join dir (codes "*.json")))) [
            | inr (e, bad) ↦ cc (rw (stated, load_all, load_dir, good, bad, load_globbed) at h)
            | inl (paths, found) ↦ (
              stated ∙ ap ok good,
              (
                paths,
                found,
                load_paths-eq-ok (fs.sort paths) ls
                    (rw (stated, load_all, load_dir, good, found, load_globbed) at h),
              ),
            )
          ]
        ]
      ]
