-- ===== src/Enroll/Form.antt =====
-- internal/enroll/form.go: the request form in the body of an issue.
pub mod Slug
use developer_certificates.Common.{
  ℕ, ◌+◌, not, ◌||◌, Bool, true, Option, none, some, List, [], ◌∷◌, ◌++◌, Bytes, codes, bytes_eq,
  length, take, drop, ◌==◌, if◌then◌else◌,
}
use developer_certificates.Effects.{errorf, Result, ok, err}
use developer_certificates.Regex.{Piece, lit, greedy, lazy, finish, find_string, matches_start}
use developer_certificates.Text.{trim_space, index, has_prefix, split, join}

-- (?s)-----BEGIN CERTIFICATE REQUEST-----.*?-----END CERTIFICATE REQUEST-----
unfoldable pub csr_block_re : List Piece
unfolding codes
csr_block_re =
    lit (codes "-----BEGIN CERTIFICATE REQUEST-----")
    ∷ lazy (λ _. true)
    ∷ lit (codes "-----END CERTIFICATE REQUEST-----")
    ∷ []

unfoldable pub repo_heading : Bytes
unfolding codes
repo_heading = codes "App repository (owner/name)"

-- [^\s/], where \s is a tab, a newline, a form feed, a carriage return or a space.
unfoldable pub is_slug : ℕ → Bool
is_slug c = not (c == 9 || c == 10 || c == 12 || c == 13 || c == 32 || c == b'/')

-- ^[^\s/]+/[^\s/]+$
unfoldable pub repo_re : List Piece
unfolding is_slug
repo_re = greedy is_slug 1 none ∷ lit (b'/' ∷ []) ∷ greedy is_slug 1 none ∷ finish ∷ []

pub record Form : Type 0 where
  pub csr : Bytes
  pub repo : Bytes

-- rest[:j] at the next heading, or the whole of it.
unfoldable pub until_heading : Bytes → Bytes
unfolding index codes
until_heading rest = elim (index (codes "\n### ") rest) [ none ↦ rest | some j ↦ take j rest ]

unfoldable pub section_body : Bytes → Bytes → Bytes
unfolding index until_heading codes
section_body body heading =
    let marker = codes "### " ++ heading in
    elim (index marker body) [ none ↦ [] | some i ↦ until_heading (drop (i + length marker) body) ]

unfoldable pub fence : Bytes
unfolding codes
fence = codes "```"

-- The lines less a closing fence line, if the last one is that.
unfoldable pub drop_closing : List Bytes → List Bytes
unfolding fence trim_space bytes_eq
drop_closing [] = []
drop_closing (l ∷ []) = if bytes_eq (trim_space l) fence then [] else l ∷ []
drop_closing (l ∷ m ∷ ls) = l ∷ drop_closing (m ∷ ls)

abbrev rest_of : List Bytes → List Bytes
rest_of [] = []
rest_of (_ ∷ ls) = ls

unfoldable pub strip_fences : Bytes → Bytes
unfolding drop_closing has_prefix split join fence
strip_fences raw =
    let s = trim_space raw in
    if has_prefix s fence
    then trim_space (join b'\n' (drop_closing (rest_of (split b'\n' s))))
    else s

-- What `parseForm` does with the two fields; `quote` is %q.
unfoldable pub check_fields : (Bytes → Bytes) → Bytes → Bytes → Result Form
unfolding repo_heading repo_re matches_start
check_fields quote csr repo =
    if bytes_eq csr []
    then err (errorf (codes "no PEM CERTIFICATE REQUEST block found"))
    else if bytes_eq repo []
    then err (errorf (codes "missing " ++ (quote repo_heading ++ codes " field")))
    else if matches_start repo_re repo
    then ok (record { csr = csr; repo = repo })
    else err
        (errorf (codes "target repo " ++ (quote repo ++ codes " is not a valid owner/name slug")))

unfoldable pub parse_form : (Bytes → Bytes) → Bytes → Result Form
unfolding csr_block_re find_string section_body strip_fences repo_heading check_fields
parse_form quote body =
    check_fields quote (find_string csr_block_re body)
      (trim_space (strip_fences (section_body body repo_heading)))

-- repo[:i] for the index of the slash; `none` is the panic of a slice that ends at -1.
unfoldable pub owner_of : Bytes → Option Bytes
unfolding index
owner_of repo = elim (index (b'/' ∷ []) repo) [ none ↦ none | some i ↦ some (take i repo) ]
