-- ===== src/Enroll/Messages.antt =====
-- The labels of the issuer bot and the comments that it posts with them.
use developer_certificates.Common.{[], ◌∷◌, ◌++◌, Bytes, codes}
use developer_certificates.AppId.{pattern_text}
use developer_certificates.Effects.{Error}

unfoldable pub label_invalid : Bytes
unfolding codes
label_invalid = codes "invalid"

unfoldable pub label_needs_changes : Bytes
unfolding codes
label_needs_changes = codes "needs-changes"

unfoldable pub label_awaiting_challenge : Bytes
unfolding codes
label_awaiting_challenge = codes "awaiting-challenge"

unfoldable pub label_expired : Bytes
unfolding codes
label_expired = codes "expired"

unfoldable pub label_rejected : Bytes
unfolding codes
label_rejected = codes "rejected"

unfoldable pub label_issued : Bytes
unfolding codes
label_issued = codes "issued"

-- The text of a comment, one function to a call of fmt.Sprintf; `quote` is %q.
unfoldable pub unreadable : Error → Bytes
unreadable e = codes "Could not process this request: " ++ (e.text ++ codes ".")

unfoldable pub csr_rejected : Error → Bytes
csr_rejected e = codes "CSR rejected: " ++ (e.text ++ codes ".")

unfoldable pub bad_common_name : (Bytes → Bytes) → Bytes → Bytes
bad_common_name quote cn =
    codes "The CSR CommonName "
    ++ (quote cn ++ (codes " is not a valid appId (" ++ (pattern_text ++ codes ").")))

unfoldable pub no_access : Bytes → Bytes
no_access repo =
    codes "The issuer bot cannot access `"
    ++ (repo
        ++ codes
            "`. If it is a private repository, install the `owncloud-codesign-bot` GitHub App on it (or grant it access) so the bot can read `appinfo/info.xml` and verify the challenge.")

unfoldable pub no_info_xml : Bytes → Bytes
no_info_xml repo =
    codes "Could not find `appinfo/info.xml` on the default branch of `" ++ (repo ++ codes "`.")

unfoldable pub no_usable_id : Bytes → Error → Bytes
no_usable_id repo e =
    codes "`appinfo/info.xml` in `"
    ++ (repo ++ (codes "` has no usable `<id>` (" ++ (e.text ++ codes ").")))

unfoldable pub bad_info_id : (Bytes → Bytes) → Bytes → Bytes
bad_info_id quote raw_id =
    codes "The `info.xml` id "
    ++ (quote raw_id ++ (codes " is not a valid appId (" ++ (pattern_text ++ codes ").")))

unfoldable pub ids_differ : (Bytes → Bytes) → Bytes → Bytes → Bytes
ids_differ quote csr_app_id info_app_id =
    codes "The CSR CommonName ("
    ++ (quote csr_app_id
        ++ (codes ") does not match your `info.xml` id ("
            ++ (quote info_app_id ++ codes "). They must be the same appId.")))

unfoldable pub challenge_expired : Bytes
challenge_expired =
    codes "The repository-control challenge expired (72h). Open a new request to try again."

unfoldable pub is_reserved : Bytes → Bytes
is_reserved app_id =
    codes "`" ++ (app_id ++ codes "` is a reserved first-party appId and cannot be claimed.")

unfoldable pub owned_by_other : Bytes → Bytes
owned_by_other app_id =
    codes "The appId `"
    ++ (app_id
        ++ codes "` is already owned by a different repository. Contact us for genuine disputes.")

-- U+2014 in UTF-8.
abbrev dash : Bytes
dash = 0xe2 ∷ 0x80 ∷ 0x94 ∷ []

unfoldable pub certificate_issued : Bytes → Bytes → Bytes
certificate_issued app_id chain =
    codes "Certificate issued for `"
    ++ (app_id
        ++ (codes "`. Your leaf certificate and the intermediate (chain) follow "
            ++ (dash ++ (codes " save both.\n\n```\n" ++ (chain ++ codes "```\n")))))
