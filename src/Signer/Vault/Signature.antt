-- ===== src/Signer/Vault/Signature.antt =====
-- The signature in the answer of the Transit engine.
use developer_certificates.Common.{ℕ, ◌≡◌, refl, true, false, [], ◌∷◌, ◌++◌, Bytes, arith}
use developer_certificates.Effects.{ok}
use developer_certificates.Signer.Vault.{
  Vault, is_empty, decode_signature, decode_transit_signature,
}
use developer_certificates.Text.{after_last, contains_byte}

contains_byte-append : (x : ℕ) (s t : Bytes) → contains_byte x (s ++ x ∷ t) ≡ true
unfolding contains_byte
contains_byte-append x [] t = ground arith
contains_byte-append x (b ∷ s) t = ground (arith, contains_byte-append x s t)

after_last-append :
    (x : ℕ) (s t : Bytes) → contains_byte x t ≡ false → after_last x (s ++ x ∷ t) ≡ t
unfolding after_last
after_last-append x [] t bare = ground arith
after_last-append x (b ∷ s) t bare = rw (contains_byte-append x s t) (after_last-append x s t bare)

after_last_bare : (x : ℕ) (t : Bytes) → contains_byte x t ≡ false → after_last x t ≡ t
unfolding after_last contains_byte
after_last_bare x [] bare = refl
after_last_bare x (b ∷ t) bare = ground arith

is_empty-append : (s : Bytes) (x : ℕ) (t : Bytes) → is_empty (s ++ x ∷ t) ≡ false
is_empty-append [] x t = refl
is_empty-append (b ∷ s) x t = refl

-- A signature behind any version prefix, "vault:v1:" or another that ends in a colon, is decoded as
-- the base64 text that follows the prefix, when that text holds no colon.
pub decode_transit_signature_lem :
    {W : Type 0} (vault : Vault W) (body prefix text raw : Bytes)
    → vault.unmarshal_signature body ≡ ok (prefix ++ b':' ∷ text)
    → contains_byte b':' text ≡ false
    → vault.decode_base64 text ≡ ok raw
    → decode_transit_signature vault body ≡ ok raw
unfolding decode_transit_signature decode_signature
decode_transit_signature_lem vault body prefix text raw sent bare decoded =
    rw
      (
        sent,
        decode_transit_signature,
        decode_signature,
        is_empty-append prefix b':' text,
        after_last-append b':' prefix text bare,
        decoded,
      )
      refl
