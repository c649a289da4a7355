-- ===== src/Enroll/Ledgers/Retry.antt =====
-- What a turn of the loop does after a conflict, and after a write.
use developer_certificates.Common.{◌≡◌, refl, true, Bytes, codes, ◌++◌}
use developer_certificates.Effects.{⊤, Action, Error, ok, err, is_conflict, context, ◌>>=◌}
use developer_certificates.GitHub.{GitHub}
use developer_certificates.Ledger.{Ledger, Codec, marshal}
use developer_certificates.Enroll.Ledgers.{after_write, write_extended}

module _ {W : Type 0} (codec : Codec) (gh : GitHub W) (app_id : Bytes) where
  -- A turn of the loop whose write is refused as a conflict goes on with the rest of the loop.
  pub write_extended-conflict :
      (prev_sha : Bytes) (again : Error → Action W ⊤) (next : Ledger) (text : Bytes) (e : Error)
      (w w' : W)
      → codec.encode next ≡ ok text
      → gh.put_ledger app_id text prev_sha (codes "ledger: issue cert for " ++ app_id) w
        ≡ (err e, w')
      → is_conflict e ≡ true
      → write_extended codec gh app_id prev_sha again next w ≡ again e w'
  unfolding write_extended after_write marshal context ◌>>=◌
  write_extended-conflict prev_sha again next text e w w' encoded refused conflict =
      rw (encoded, refused, conflict) refl

  pub write_extended-stored :
      (prev_sha : Bytes) (again : Error → Action W ⊤) (next : Ledger) (text : Bytes) (w w' : W)
      → codec.encode next ≡ ok text
      → gh.put_ledger app_id text prev_sha (codes "ledger: issue cert for " ++ app_id) w
        ≡ (ok tt, w')
      → write_extended codec gh app_id prev_sha again next w ≡ (ok tt, w')
  unfolding write_extended after_write marshal context ◌>>=◌
  write_extended-stored prev_sha again next text w w' encoded stored = rw (encoded, stored) refl
