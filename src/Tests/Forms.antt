-- ===== src/Tests/Forms.antt =====
-- A form at a concrete body.
use developer_certificates.Common.{◌≡◌, refl, some, codes, ◌++◌, Bytes}
use developer_certificates.Effects.{ok}
use developer_certificates.Enroll.Form.{Form, parse_form, owner_of}
use developer_certificates.Enroll.Form.Slug.{IsSlug, parse_form-IsSlug}
use developer_certificates.Tests.Data.{repo}

abbrev csr : Bytes
csr = codes "-----BEGIN CERTIFICATE REQUEST-----x-----END CERTIFICATE REQUEST-----"

abbrev body : Bytes
body = codes "### CSR\n" ++ (csr ++ codes "\n### App repository (owner/name)\n\no/files\n")

abbrev read : Form
read = record { csr = csr; repo = repo }

parsed : parse_form (λ s. s) body ≡ ok read
unfolding parse_form codes
parsed = refl

parse_form-IsSlug_example : (s : IsSlug repo) × (owner_of repo ≡ some s.owner)
parse_form-IsSlug_example = parse_form-IsSlug (λ s. s) body read parsed
