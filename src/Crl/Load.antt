-- ===== src/Crl/Load.antt =====
-- internal/crl/store: every ledger file of a directory.
pub mod Complete
use developer_certificates.Common.{
  Bool, true, false, Option, none, some, List, [], ◌∷◌, ◌++◌, Bytes, codes, if◌then◌else◌,
}
use developer_certificates.Effects.{Error, Result, ok, err, errorf, wrap}
use developer_certificates.Ledger.{Ledger, Codec, load}

-- os.Stat, with IsDir of its answer, filepath.Glob and Join, sort.Strings, and os.ReadFile.
pub record Files : Type 0 where
  pub stat_is_dir : Bytes → Result Bool
  pub glob : Bytes → Result (List Bytes)
  pub join : Bytes → Bytes → Bytes
  pub sort : List Bytes → List Bytes
  pub read_file : Bytes → Result Bytes

module _ (codec : Codec) (fs : Files) where
  -- The loop over the paths; the first file that fails ends it.
  unfoldable pub load_paths : List Bytes → Result (List Ledger)
  load_paths [] = ok []
  load_paths (p ∷ paths) =
      let rest = load_paths paths in
      elim (load codec fs.read_file p) [
        | err e ↦ err (wrap (codes "store: load " ++ p) e)
        | ok l ↦ elim rest [ err e ↦ err e | ok ls ↦ ok (l ∷ ls) ]
      ]

  unfoldable pub load_globbed : Bytes → Result (List Bytes) → Result (List Ledger)
  load_globbed dir (err e) = err (wrap (codes "store: glob " ++ dir) e)
  load_globbed dir (ok paths) = load_paths (fs.sort paths)

  unfoldable pub load_dir : Bytes → Result Bool → Result (List Ledger)
  load_dir dir (err e) = err (wrap (codes "store: ledger dir " ++ dir) e)
  load_dir dir (ok is_dir) =
      if is_dir
      then load_globbed dir (fs.glob (fs.join dir (codes "*.json")))
      else err (errorf (codes "store: " ++ (dir ++ codes " is not a directory")))

  unfoldable pub load_all : Bytes → Result (List Ledger)
  load_all dir = load_dir dir (fs.stat_is_dir dir)
