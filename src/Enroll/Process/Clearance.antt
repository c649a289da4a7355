-- ===== src/Enroll/Process/Clearance.antt =====
-- A poll of the issuer bot keeps what the quiet calls keep, or has cleared the request.
use developer_certificates.Common.{
  ◌≡◌, ◌⊎◌, inl, inr, refl, ap, sym, Bytes, bytes_eq, bytes_eq_iff, Bool-cases, false,
}
use developer_certificates.AppId.{validate_strict, canonicalize}
use developer_certificates.AppInfo.{extract_id}
use developer_certificates.Csr
use developer_certificates.Effects.{⊤, Result, ok, err, Result-cases, is_not_found}
use developer_certificates.Effects.Keep.{attempt-step}
use developer_certificates.GitHub.{Issue}
use developer_certificates.Runtime.{Runtime}
use developer_certificates.X509.{CertificateRequest}
use developer_certificates.Enroll.Form.{Form, parse_form}
use developer_certificates.Enroll.Issuance.{Deps}
use developer_certificates.Enroll.Messages.{label_issued}
use developer_certificates.Enroll.Process.{
  compare_ids, check_id, judge_info, info_path, fetch_info, check_name, check_csr, check_form,
  process, has_label,
}
use developer_certificates.Enroll.Process.Cleared.{Proven, Cleared}
use developer_certificates.Enroll.Process.Quiet.{
  IsQuiet, IsRead, terminal-Keeps, explain_missing-Keeps,
}
use developer_certificates.Enroll.Process.Stages.{check_challenge-cases}

module _ {W : Type 0} (rt : Runtime) (d : Deps W) (issue : Issue) (I J : W → Type 0)
    (q : IsQuiet d I) (reads : IsRead d J) where
  -- What the stages before the challenge add to its evidence.
  record SameId (f : Form) (req : CertificateRequest) (app_id : Bytes) (out : Result ⊤ × W)
      : Type 0 where
    info : Bytes × Bytes
    raw_id : Bytes
    asked : W
    read_at : J asked
    informed : (d.gh.get_file f.repo info_path asked).0 ≡ ok info
    extracted : extract_id rt info.0 ≡ ok raw_id
    same_id : canonicalize raw_id ≡ ok app_id
    proven : Proven rt d issue I J f req app_id out

  compare_ids-cases :
      (f : Form) (req : CertificateRequest) (app_id raw_id : Bytes) (r : Result Bytes) (w : W)
      → I w
      → J w
      → I (compare_ids rt d issue f req app_id raw_id r w).1
        ⊎ ((r ≡ ok app_id)
            × Proven rt d issue I J f req app_id (compare_ids rt d issue f req app_id raw_id r w))
  unfolding compare_ids
  compare_ids-cases f req app_id raw_id (err e) w i j = inl (terminal-Keeps rt d issue I q _ _ w i)
  compare_ids-cases f req app_id raw_id (ok id) w i j = elim (Bool-cases (bytes_eq app_id id)) [
    | inl same ↦ rw same elim (check_challenge-cases rt d issue I J q reads f req app_id w i j) [
      | inl kept ↦ inl kept
      | inr c ↦ inr (ap ok (sym ((bytes_eq_iff app_id id).0 same)), c)
    ]
    | inr other ↦ inl (rw other (terminal-Keeps rt d issue I q _ _ w i))
  ]

  check_id-cases :
      (f : Form) (req : CertificateRequest) (app_id : Bytes) (r : Result Bytes) (w : W)
      → I w
      → J w
      → I (check_id rt d issue f req app_id r w).1
        ⊎ ((raw_id : Bytes) × (r ≡ ok raw_id)
            × (canonicalize raw_id ≡ ok app_id)
            × Proven rt d issue I J f req app_id (check_id rt d issue f req app_id r w))
  unfolding check_id
  check_id-cases f req app_id (err e) w i j = inl (terminal-Keeps rt d issue I q _ _ w i)
  check_id-cases f req app_id (ok raw_id) w i j =
      elim (compare_ids-cases f req app_id raw_id (canonicalize raw_id) w i j) [
        | inl kept ↦ inl kept
        | inr (same, c) ↦ inr (raw_id, refl, same, c)
      ]

  judge_info-cases :
      (f : Form) (req : CertificateRequest) (app_id : Bytes) (r : Result (Bytes × Bytes)) (w : W)
      → I w
      → J w
      → I (judge_info rt d issue f req app_id r w).1
        ⊎ ((info : Bytes × Bytes) × (raw_id : Bytes) × (r ≡ ok info)
            × (extract_id rt info.0 ≡ ok raw_id)
            × (canonicalize raw_id ≡ ok app_id)
            × Proven rt d issue I J f req app_id (judge_info rt d issue f req app_id r w))
  unfolding judge_info
  judge_info-cases f req app_id (err e) w i j = elim (Bool-cases (is_not_found e)) [
    | inl absent ↦ inl (rw absent (explain_missing-Keeps rt d issue I q f w i))
    | inr other ↦ inl (rw other i)
  ]
  judge_info-cases f req app_id (ok info) w i j =
      elim (check_id-cases f req app_id (extract_id rt info.0) w i j) [
        | inl kept ↦ inl kept
        | inr (raw_id, got, same, c) ↦ inr (info, raw_id, refl, got, same, c)
      ]

  fetch_info-cases :
      (f : Form) (req : CertificateRequest) (app_id : Bytes) (w : W)
      → I w
      → J w
      → I (fetch_info rt d issue f req app_id w).1
        ⊎ SameId f req app_id (fetch_info rt d issue f req app_id w)
  unfolding fetch_info
  fetch_info-cases f req app_id w i j =
      let get = d.gh.get_file f.repo info_path in
      rw (attempt-step get (judge_info rt d issue f req app_id) w)
        elim (judge_info-cases f req app_id (get w).0 (get w).1 (q.get_file f.repo info_path w i)
          (reads.get_file f.repo info_path w j)) [
            | inl kept ↦ inl kept
            | inr (info, raw_id, got, id, same, c) ↦ inr record {
              info = info;
              raw_id = raw_id;
              asked = w;
              read_at = j;
              informed = got;
              extracted = id;
              same_id = same;
              proven = c;
            }
          ]

  check_form-cases :
      (r : Result Form) (w : W)
      → (has_label issue.labels label_issued ≡ false)
      → (r ≡ parse_form rt.codec.quote issue.body)
      → I w
      → J w
      → I (check_form rt d issue r w).1 ⊎ Cleared rt d issue I J (check_form rt d issue r w)
  unfolding check_form check_csr check_name
  check_form-cases (err e) w fresh from i j = inl (terminal-Keeps rt d issue I q _ _ w i)
  check_form-cases (ok f) w fresh from i j = elim (Result-cases (Csr.parse rt f.csr)) [
    | inr (e, bad) ↦ inl (rw bad (terminal-Keeps rt d issue I q _ _ w i))
    | inl (req, good) ↦ rw good elim (Result-cases (validate_strict req.common_name)) [
      | inr (e, bad) ↦ inl (rw bad (terminal-Keeps rt d issue I q _ _ w i))
      | inl (app_id, named) ↦ rw named elim (fetch_info-cases f req app_id w i j) [
        | inl kept ↦ inl kept
        | inr c ↦ inr record {
          form = f;
          req = req;
          app_id = app_id;
          info = c.info;
          raw_id = c.raw_id;
          asked = c.asked;
          read_at = c.read_at;
          fresh = fresh;
          formed = sym from;
          accepted = good;
          named = named;
          informed = c.informed;
          extracted = c.extracted;
          same_id = c.same_id;
          proven = c.proven;
        }
      ]
    ]
  ]

  -- For any property `I` of the world that the quiet calls keep, and any `J` that the reads and the
  -- clock keep, a poll from a world where both hold either leaves a world where `I` holds, or it is the
  -- minting of a certificate for an issue that is not labelled as issued yet and a request that has
  -- passed every stage: `Cleared` says which answers of
  -- the hub it read, in worlds where `J` holds, and what they hold.
  pub process-cases :
      (w : W)
      → I w
      → J w
      → I (process rt d issue w).1 ⊎ Cleared rt d issue I J (process rt d issue w)
  unfolding process
  process-cases w i j = elim (Bool-cases (has_label issue.labels label_issued)) [
    | inl done ↦ inl (rw done i)
    | inr fresh ↦ rw fresh (check_form-cases _ w fresh refl i j)
  ]
