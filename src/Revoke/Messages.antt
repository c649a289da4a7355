-- ===== src/Revoke/Messages.antt =====
-- The labels of the revocation bot and the comments that it posts with them; `quote` is %q.
use developer_certificates.Common.{◌++◌, Bytes, codes}
use developer_certificates.Effects.{Error}

unfoldable pub label_invalid : Bytes
unfolding codes
label_invalid = codes "invalid"

unfoldable pub label_revoked : Bytes
unfolding codes
label_revoked = codes "revoked"

unfoldable pub unreadable : Error → Bytes
unreadable e =
    codes "Could not read a CMS revocation request from this issue: " ++ (e.text ++ codes ".")

unfoldable pub unverified : Bytes
unverified =
    codes
      "The CMS revocation request could not be verified. Ensure it was produced by `openssl cms -sign` with your certificate's private key."

unfoldable pub bad_common_name : (Bytes → Bytes) → Bytes → Bytes
bad_common_name quote cn =
    codes "The certificate CommonName "
    ++ (quote cn ++ codes " is not a valid appId; it cannot be one of our issued certificates.")

unfoldable pub not_ours : Bytes → Bytes → Bytes
not_ours fp app_id =
    codes "No matching issued certificate ("
    ++ (fp ++ (codes ") was found in the ledger for `" ++ (app_id ++ codes "`.")))

unfoldable pub already_revoked : Bytes
already_revoked = codes "This certificate is already revoked; nothing to do."

-- `date` is the date in the ledger's layout.
unfoldable pub revoked_now : Bytes → Bytes → Bytes → Bytes
revoked_now serial app_id date =
    codes "Certificate `"
    ++ (serial
        ++ (codes "` for `"
            ++ (app_id ++ (codes "` has been revoked, effective " ++ (date ++ codes ".")))))
