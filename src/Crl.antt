-- ===== src/Crl.antt =====
-- internal/crl: the revocation list of the leaves, from the ledgers.
pub mod Entries
pub mod Listed
pub mod Load
use developer_certificates.Common.{
  ℕ, zero, suc, ◌+◌, ◌-◌, ◌*◌, Bool, true, false, ◌&&◌, ◌||◌, not, Option, none, some, List, [],
  ◌∷◌, ◌++◌, Bytes, codes, bytes_eq, strip_prefix, leb, ltb, ◌==◌, if◌then◌else◌,
}
use developer_certificates.Common.Int.{ℤ, pos, negsuc, ltb_ℤ}
use developer_certificates.Clock.{Time, day, add_time, unix}
use developer_certificates.Effects.{Error, errorf, wrap, Result, ok, err}
use developer_certificates.Ledger.{Certificate, Ledger, status_revoked}
use developer_certificates.X509.{RevocationList, RevocationListEntry}

-- 7 * 24 * time.Hour
unfoldable pub crl_validity : ℕ
crl_validity = 7 * day

-- The value of a hexadecimal digit of either case.
unfoldable pub digit_value : ℕ → Option ℕ
digit_value c =
    if leb b'0' c && leb c b'9'
    then some (c - 48)
    else if leb b'a' c && leb c b'f'
    then some (c - 87)
    else if leb b'A' c && leb c b'F'
    then some (c - 55)
    else none

unfoldable pub digits_value : ℕ → Bytes → Option ℕ
unfolding digit_value
digits_value acc [] = some acc
digits_value acc (c ∷ s) = elim (digit_value c) [
  | none ↦ none
  | some d ↦ digits_value (acc * 16 + d) s
]

abbrev magnitude : Bytes → Option ℕ
unfolding digits_value
magnitude [] = none
magnitude (c ∷ s) = digits_value 0 (c ∷ s)

-- -n
abbrev negated : ℕ → ℤ
negated zero = pos 0
negated (suc n) = negsuc n

-- big.Int.SetString(s, 16): an optional sign and at least one digit.
unfoldable pub set_string : Bytes → Option ℤ
unfolding digits_value
set_string [] = none
set_string (c ∷ s) =
    if c == b'-'
    then elim (magnitude s) [ none ↦ none | some n ↦ some (negated n) ]
    else if c == b'+'
    then elim (magnitude s) [ none ↦ none | some n ↦ some (pos n) ]
    else elim (digits_value 0 (c ∷ s)) [ none ↦ none | some n ↦ some (pos n) ]

abbrev is_empty : Bytes → Bool
is_empty [] = true
is_empty (_ ∷ _) = false

-- `quote` is %q.
module _ (quote : Bytes → Bytes) where
  unfoldable pub not_prefixed : Bytes → Error
  unfolding errorf codes
  not_prefixed s = errorf (codes "serial " ++ (quote s ++ codes " is not 0x-prefixed hex"))

  -- len(s) < 3 || s[:2] != "0x", and then the digits behind the prefix.
  unfoldable pub parse_serial : Bytes → Result ℤ
  unfolding strip_prefix not_prefixed set_string codes errorf
  parse_serial s = elim (strip_prefix (codes "0x") s) [
    | none ↦ err (not_prefixed s)
    | some digits ↦ if is_empty digits then err (not_prefixed s) else elim (set_string digits) [
      | none ↦ err (errorf (codes "serial " ++ (quote s ++ codes " is not valid hex")))
      | some n ↦ ok n
    ]
  ]

  -- The entry of a revoked certificate.
  unfoldable pub entry : Bytes → Certificate → Result RevocationListEntry
  unfolding parse_serial wrap errorf codes
  entry app_id c = elim (parse_serial c.serial) [
    | err e ↦ err (wrap (codes "crl: ledger " ++ (app_id ++ (codes " cert " ++ quote c.serial))) e)
    | ok serial ↦ elim c.revoked_from [
      | none ↦ err (
          errorf (
            codes "crl: ledger "
            ++ (app_id
                ++ (codes " cert "
                    ++ (quote c.serial ++ codes " is revoked but has no revokedFrom")))))
      | some t ↦ ok (record { serial_number = serial; revocation_time = t })
    ]
  ]

  abbrev prepend :
      Result RevocationListEntry
      → Result (List RevocationListEntry)
      → Result (List RevocationListEntry)
  prepend (err e) r = err e
  prepend (ok x) (err e) = err e
  prepend (ok x) (ok xs) = ok (x ∷ xs)

  -- The inner loop, over the certificates of one ledger.
  unfoldable pub entries_of : Bytes → List Certificate → Result (List RevocationListEntry)
  unfolding entry
  entries_of app_id [] = ok []
  entries_of app_id (c ∷ cs) =
      let rest = entries_of app_id cs in
      if bytes_eq c.status status_revoked then prepend (entry app_id c) rest else rest

  abbrev join_results :
      Result (List RevocationListEntry)
      → Result (List RevocationListEntry)
      → Result (List RevocationListEntry)
  join_results (err e) r = err e
  join_results (ok xs) (err e) = err e
  join_results (ok xs) (ok ys) = ok (xs ++ ys)

  -- The outer loop.
  unfoldable pub entries : List Ledger → Result (List RevocationListEntry)
  unfolding entries_of
  entries [] = ok []
  entries (l ∷ ls) = join_results (entries_of l.app_id l.certificates) (entries ls)

  -- entries[i].SerialNumber.Cmp(entries[j].SerialNumber) < 0
  abbrev pub less : RevocationListEntry → RevocationListEntry → Bool
  less x y = ltb_ℤ x.serial_number y.serial_number

  -- `sort` is sort.Slice by `less`, which need not be stable.
  unfoldable pub build :
      (List RevocationListEntry → List RevocationListEntry)
      → List Ledger
      → Time
      → Result RevocationList
  unfolding entries crl_validity
  build sort ledgers now = elim (entries ledgers) [
    | err e ↦ err e
    | ok es ↦ ok (record {
      number = unix now;
      this_update = now;
      next_update = add_time now crl_validity;
      revoked_certificate_entries = sort es;
    })
  ]
