-- ===== src/Enroll/Form/Slug.antt =====
-- The repository that a form names.
use developer_certificates.Common.{
  ◌≤◌, ◌≡◌, refl, ap, sym, subst, ◌∙◌, true, some, List, [], ◌∷◌, ◌++◌, Bytes, All, length, take,
  arith, bytes_eq, Bool-cases, inl, inr, append-nil, strip_prefix,
}
use developer_certificates.Effects.{ok}
use developer_certificates.Effects.Keep.{ok_inj}
use developer_certificates.Regex.{Matches, flatten, matches_start, find_string}
use developer_certificates.Regex.Sound.{matches_start_sound}
use developer_certificates.Text.{index, trim_space}
use developer_certificates.Enroll.Form.{
  Form, is_slug, repo_re, repo_heading, csr_block_re, section_body, strip_fences, check_fields,
  parse_form, owner_of,
}

-- An owner and a name without blanks or slashes, neither of them empty, with a slash between them.
pub record IsSlug (repo : Bytes) : Type 0 where
  pub owner : Bytes
  pub name : Bytes
  pub spells : repo ≡ owner ++ b'/' ∷ name
  pub owner_slug : All (λ c. is_slug c ≡ true) owner
  pub name_slug : All (λ c. is_slug c ≡ true) name
  pub owner_size : 1 ≤ length owner
  pub name_size : 1 ≤ length name

Matches-IsSlug : (ms : List Bytes) (r : Bytes) → Matches repo_re ms r → IsSlug (flatten ms ++ r)
unfolding repo_re flatten
Matches-IsSlug [] r h = absurd h
Matches-IsSlug (o ∷ []) r (_, _, h) = absurd h
Matches-IsSlug (o ∷ s ∷ []) r (_, _, (_, _, h)) = absurd h
Matches-IsSlug (o ∷ s ∷ n ∷ []) r (_, _, (_, _, (_, _, h))) = absurd h
Matches-IsSlug (o ∷ s ∷ n ∷ e ∷ f ∷ ms) r (_, _, (_, _, (_, _, (_, _, h)))) = absurd h
Matches-IsSlug (o ∷ s ∷ n ∷ e ∷ []) r
      ((good, low, _), _, (slash, _, ((good', low', _), _, (empty, last, _)))) =
    record {
      owner = o;
      name = n;
      spells = rw (slash, empty, last, append-nil, append-nil) refl;
      owner_slug = good;
      name_slug = good';
      owner_size = low;
      name_size = low';
    }

-- The slash that is found is the one behind the owner.
index_slash :
    (o n : Bytes)
    → All (λ c. is_slug c ≡ true) o
    → index (b'/' ∷ []) (o ++ b'/' ∷ n) ≡ some (length o)
unfolding index strip_prefix is_slug
index_slash [] n h = refl
index_slash (c ∷ o) n (here, rest) = ground (arith, index_slash o n rest)

take-length : (o n : Bytes) → take (length o) (o ++ n) ≡ o
take-length [] n = refl
take-length (c ∷ o) n = ap (λ s. c ∷ s) (take-length o n)

matches_start-IsSlug : (repo : Bytes) → matches_start repo_re repo ≡ true → IsSlug repo
matches_start-IsSlug repo h =
    let (ms, r, spells, fits) = matches_start_sound repo_re repo h in
    subst IsSlug (sym spells) (Matches-IsSlug ms r fits)

owner_of-append : (o n : Bytes) → All (λ c. is_slug c ≡ true) o → owner_of (o ++ b'/' ∷ n) ≡ some o
unfolding owner_of
owner_of-append o n good = rw (owner_of, index_slash o n good) (ap some (take-length o (b'/' ∷ n)))

owner_of-IsSlug : (repo : Bytes) (s : IsSlug repo) → owner_of repo ≡ some s.owner
owner_of-IsSlug repo s = ap owner_of s.spells ∙ owner_of-append s.owner s.name s.owner_slug

check_fields-matches :
    (quote : Bytes → Bytes) (csr repo : Bytes) (f : Form)
    → check_fields quote csr repo ≡ ok f
    → matches_start repo_re f.repo ≡ true
unfolding check_fields
check_fields-matches quote csr repo f h = elim (Bool-cases (bytes_eq csr [])) [
  | inl missing ↦ cc (rw (missing, check_fields) at h)
  | inr csr_there ↦ elim (Bool-cases (bytes_eq repo [])) [
    | inl missing ↦ cc (rw (csr_there, missing, check_fields) at h)
    | inr repo_there ↦ elim (Bool-cases (matches_start repo_re repo)) [
      | inr bad ↦ cc (rw (csr_there, repo_there, bad, check_fields) at h)
      | inl good ↦
          let same = ok_inj (rw (csr_there, repo_there, good, check_fields) at h) in
          subst (λ (g : Form). matches_start repo_re g.repo ≡ true) same good
    ]
  ]
]

-- The repository of a form that is read is an owner and a name with a slash between them, and the
-- owner that the certificate is issued to is what stands before the slash, so it can be cut off.
pub parse_form-IsSlug :
    (quote : Bytes → Bytes) (body : Bytes) (f : Form)
    → parse_form quote body ≡ ok f
    → (s : IsSlug f.repo) × (owner_of f.repo ≡ some s.owner)
unfolding parse_form
parse_form-IsSlug quote body f h =
    let s = matches_start-IsSlug f.repo (
      check_fields-matches quote (find_string csr_block_re body)
        (trim_space (strip_fences (section_body body repo_heading))) f h) in
    (s, owner_of-IsSlug f.repo s)
