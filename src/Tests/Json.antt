-- ===== src/Tests/Json.antt =====
-- A ledger of the repository, ledger/announcementcenter.json, as a text.
use developer_certificates.Common.{
  ◌*◌, ◌≡◌, refl, false, none, some, [], ◌∷◌, ◌++◌, List, Bytes, codes, arith,
}
use Prim.Native.String.{String}
use developer_certificates.Common.Int.{pos}
use developer_certificates.Clock.{Time, second}
use developer_certificates.Ledger.{Certificate, Ledger}
use developer_certificates.Clock.Calendar.{year_day, month_day, month_lengths, is_leap}
use developer_certificates.Clock.Layout.{time_text, day_text, clock_text, year_text}
use developer_certificates.Decimal.{decimal_from}
use developer_certificates.Ledger.Json.{
  marshal_text, ledger, first, next, key, margin, close, timestamp, owner, reserved, certificates,
  others, certificate, requester, revocation, revoked_from, optional,
}
use developer_certificates.Ledger.Json.Read.{scan_ledger}
use developer_certificates.Ledger.Json.Trip.{IsReadableLedger, truncated_ledger}
use developer_certificates.Ledger.Json.Canonical.{scan_ledger-marshal_text}
use developer_certificates.Text.Json.{string, escape, escape_first, escape_ascii, int}
use developer_certificates.Text.Json.RoundTrip.{IsText-of_ascii}
use developer_certificates.Text.Scan.{two}

abbrev lines : List String → Bytes
lines [] = []
lines (l ∷ ls) = codes l ++ 10 ∷ lines ls

abbrev claimed : Time
claimed = 63_920_181_894 * second

abbrev issued : Certificate
issued = record {
  serial = codes "0xe4f7286794cc3edc765972a7ab0d1eb6";
  fingerprint = codes "sha256:61c8620f41368f971b43c75b3981bfdec75dc9d9162c5de447092f4bbd5a52c5";
  not_before = claimed;
  not_after = 63_983_253_894 * second;
  requester = record {
    origin = codes "github";
    login = codes "DeepDiver1975";
    user_id = pos 1005065;
  };
  issue_ref = codes "#27";
  status = codes "active";
  revoked_from = none;
  reason = [];
  actor = [];
}

abbrev announcementcenter : Ledger
announcementcenter = record {
  app_id = codes "announcementcenter";
  owner = record { origin = codes "github"; repo = codes "owncloud/announcementcenter" };
  claimed_at = claimed;
  reserved = false;
  certificates = issued ∷ [];
}

abbrev text : Bytes
text = lines (
    "{" ∷ "  \"appId\": \"announcementcenter\"," ∷ "  \"owner\": {" ∷ "    \"origin\": \"github\","
    ∷ "    \"repo\": \"owncloud/announcementcenter\"" ∷ "  },"
    ∷ "  \"claimedAt\": \"2026-07-20T22:04:54Z\"," ∷ "  \"certificates\": [" ∷ "    {"
    ∷ "      \"serial\": \"0xe4f7286794cc3edc765972a7ab0d1eb6\","
    ∷ "      \"fingerprint\": \"sha256:61c8620f41368f971b43c75b3981bfdec75dc9d9162c5de447092f4bbd5a52c5\","
    ∷ "      \"notBefore\": \"2026-07-20T22:04:54Z\","
    ∷ "      \"notAfter\": \"2028-07-19T22:04:54Z\"," ∷ "      \"requester\": {"
    ∷ "        \"origin\": \"github\"," ∷ "        \"login\": \"DeepDiver1975\","
    ∷ "        \"userId\": 1005065" ∷ "      }," ∷ "      \"issueRef\": \"#27\","
    ∷ "      \"status\": \"active\"" ∷ "    }" ∷ "  ]" ∷ "}" ∷ [])

-- Marshal writes the file.
written : marshal_text announcementcenter ≡ text
unfolding marshal_text ledger first next key margin close codes string escape escape_first
    escape_ascii int timestamp time_text day_text clock_text year_text two year_day month_day
    month_lengths is_leap owner reserved certificates others certificate requester revocation
    revoked_from optional decimal_from
written = refl

readable : IsReadableLedger announcementcenter
unfolding codes
readable = record {
  app_id = IsText-of_ascii announcementcenter.app_id (omega arith);
  origin = IsText-of_ascii announcementcenter.owner.origin (omega arith);
  repo = IsText-of_ascii announcementcenter.owner.repo (omega arith);
  claimed_at = omega arith;
  certificates = (
    record {
      serial = IsText-of_ascii issued.serial (omega arith);
      fingerprint = IsText-of_ascii issued.fingerprint (omega arith);
      not_before = omega arith;
      not_after = omega arith;
      origin = IsText-of_ascii issued.requester.origin (omega arith);
      login = IsText-of_ascii issued.requester.login (omega arith);
      issue_ref = IsText-of_ascii issued.issue_ref (omega arith);
      status = IsText-of_ascii issued.status (omega arith);
      revoked_from = λ t e. cc e;
      reason = refl;
      actor = refl;
    },
    tt,
  );
}

scan_ledger-marshal_text_example :
    (scan_ledger 2 (marshal_text announcementcenter)
      ≡ some (truncated_ledger announcementcenter, 10 ∷ []))
    × (marshal_text (truncated_ledger announcementcenter) ≡ marshal_text announcementcenter)
scan_ledger-marshal_text_example =
    scan_ledger-marshal_text 2 announcementcenter (omega arith) readable
