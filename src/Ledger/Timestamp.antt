-- ===== src/Ledger/Timestamp.antt =====
-- internal/ledger: the timestamps of a ledger file, in UTC and to the second. encoding/json on a
-- string, and time.Parse with the layout RFC3339, are parameters.
use developer_certificates.Common.{◌≡◌, refl, ap, ◌∙◌, [], Bytes, codes, ◌++◌, ◌-◌, ◌%◌, ◌<◌}
use developer_certificates.Clock.{Time, second}
use developer_certificates.Clock.Layout.{year_10000, format_time}
use developer_certificates.Effects.{Result, ok, err, wrap}
use developer_certificates.Ledger.Json.Canonical.{time_text-to_second}

-- json.Marshal and json.Unmarshal at type string, strconv.Quote, and Parse with time.RFC3339.
pub record Texts : Type 0 where
  pub json_string : Bytes → Result Bytes
  pub json_text : Bytes → Result Bytes
  pub quote : Bytes → Bytes
  pub parse : Bytes → Result Time

module _ (texts : Texts) where
  unfoldable pub marshal_json : Time → Result Bytes
  marshal_json t = texts.json_string (format_time t)

  -- A time that was parsed, or the error with the text that was not one.
  unfoldable pub parsed : Bytes → Result Time
  unfolding codes
  parsed s = elim (texts.parse s) [
    | err e ↦ err (wrap (codes "ledger: invalid timestamp " ++ texts.quote s) e)
    | ok t ↦ ok t
  ]

  unfoldable pub unmarshal_json : Bytes → Result Time
  unmarshal_json text = elim (texts.json_text text) [ err e ↦ err e | ok s ↦ parsed s ]

  -- What encoding/json and package time document: a string that was written is read back, and the
  -- text of a time whose year has four digits is parsed as the second of that time.
  pub record IsFaithful : Type 0 where
    pub strings : (s text : Bytes) → texts.json_string s ≡ ok text → texts.json_text text ≡ ok s
    pub times : (t : Time) → t < year_10000 → texts.parse (format_time t) ≡ ok (t - t % second)

  -- A timestamp before the year 10000 that was written is read back as its second, and what is
  -- read back is written as the same bytes.
  pub unmarshal_json-marshal_json :
      IsFaithful
      → (t : Time) (text : Bytes) → t < year_10000
      → marshal_json t ≡ ok text
      → (unmarshal_json text ≡ ok (t - t % second)) × (marshal_json (t - t % second) ≡ ok text)
  unfolding marshal_json unmarshal_json parsed format_time
  unmarshal_json-marshal_json faithful t text early h = (
    rw (unmarshal_json, faithful.strings (format_time t) text h, parsed, faithful.times t early)
        refl,
    ap texts.json_string (time_text-to_second t []) ∙ h,
  )
