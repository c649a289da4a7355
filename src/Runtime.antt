-- ===== src/Runtime.antt =====
-- The libraries that the program calls and that the model takes as a parameter: encoding/json with
-- strconv.Quote (the codec), encoding/pem, encoding/xml, crypto/x509 and crypto/sha256.
use developer_certificates.Common.{Option, Bytes}
use developer_certificates.Effects.{Error, Result}
use developer_certificates.Ledger.{Codec}
use developer_certificates.X509.{Block, Certificate, CertificateRequest}

-- `pem_decode` returns the next block and the rest; `check_signature` is nil for a request whose
-- self-signature verifies; `xml_info_id` unmarshals <info> and returns the text of its <id>.
pub record Runtime : Type 0 where
  pub codec : Codec
  pub pem_decode : Bytes → Option (Block × Bytes)
  pub pem_encode : Block → Bytes
  pub parse_certificate_request : Bytes → Result CertificateRequest
  pub check_signature : CertificateRequest → Option Error
  pub parse_certificate : Bytes → Result Certificate
  pub xml_info_id : Bytes → Result Bytes
  pub sha256 : Bytes → Bytes
