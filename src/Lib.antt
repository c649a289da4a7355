-- ===== src/Lib.antt =====
-- The issuer and the revocation bot of the ownCloud developer certificates: a developer opens an
-- issue with a signing request; the issuer bot checks it, proves that the developer controls the
-- named repository, mints a code-signing certificate and records it in the ledger of the appId. The
-- revocation bot, and a privileged command, mark a certificate of a ledger as revoked; the list
-- builder turns all ledgers into a revocation list.
--
-- The parts, by file, with the code that each models:
--   AppId           internal/appid: the grammar of appIds; Fold, Valid, ValidateStrict, Canonicalize.
--   Challenge       internal/challenge: the nonce, the comment that carries it, its 72 hours.
--   Ledger          internal/ledger: the records, Decide, the checks of Parse; timestamps.
--   Ledger.Json     The text that Marshal writes, and a reader of such texts; Text.Json has the strings
--                   and numbers of encoding/json, Clock.Calendar and Clock.Layout the text of a time.
--   Csr             internal/csr: the key allowlist and Parse.
--   CertTemplate    internal/certtmpl: Leaf, with its serial and its validity.
--   Signer          internal/signer: the interface of the CA key; serials and fingerprints as texts.
--   Signer.Keys, Signer.Pem, Signer.Vault, Signer.Local
--                   internal/signer/pem, vault and local: the three that implement the interface.
--   Crl             internal/crl: Build and the reading of serials; Crl.Load is internal/crl/store.
--   AppInfo         internal/appinfo: ExtractID.
--   GitHub          internal/ghclient: the calls of the hub as a record over the state behind them.
--   GitHub.Fake     internal/ghclient/fake: the in-memory hub, with its guard on stale writes.
--   GitHub.Rest     internal/ghclient/rest: the same interface over the REST API; Transport is what it
--                   takes from net/http and the encodings, Api what the hub documents of its contents.
--   GitHub.Versioned  What both promise of the ledgers: a store guarded by SHAs.
--   Enroll          internal/enroll: Form (form.go), Messages (the texts), Ledgers and Issuance
--                   (steps.go), Process (enroll.go, one function for each stage of Process).
--   Revoke          internal/revoke: Find and Apply (steps.go), SelfService (revoke.go, form.go and
--                   the result type of internal/cms), Privileged (privileged.go), Messages.
--   Cms             internal/cms/openssl and internal/cms/fake: the two verifiers.
--   Cmd             cmd: Config (environment and signer), Batch (the loop over the issues), and a
--                   module for each command: Issuer, Revoker, Privrevoke, Crlgen, Seedcrl.
--   Bots            Runs of the bots over one ledger, interleaved: one step for a read, a write or a
--                   refused write of commitLedger or applyRevocation. Bots.History has runs of the
--                   commands one after another, and the ledgers as a log that is only extended.
--   Common, Decimal, Text, Regex, Clock, Effects, X509, Runtime
--                   What the program takes from Go: byte strings, the functions of strings, strconv
--                   and encoding/hex, the regular expressions that occur, times, errors, and the
--                   types of crypto/x509.
--   Tests           Concrete inputs and the theorems applied to them.
--
-- How the code is read. A Go string or []byte is the list of its bytes. A function with collaborators
-- is an action: it takes the state of the world and returns a result with the state it leaves; an
-- error carries the sentinel that errors.Is finds, and its text. A stage of a Process function is a
-- function of its own, which ends in the call of the next. A nil pointer is none. A time is the
-- number of nanoseconds since the year 1; comparisons and sums are those of package time, and the
-- saturation of Sub is kept. The panic that the slice of ownerOf would raise on a
-- text without a slash is an error value.
--
-- Parameters. encoding/json with strconv.Quote (the codec), encoding/pem, encoding/xml,
-- crypto/x509, and crypto/sha256 are the fields of Runtime; the hub, the signer, the CMS verifier,
-- the clock and the reader of randomness are arguments of the bots; sort.Slice is one of the list
-- builder; package os, net/http, encoding/base64 and the calls that sign are arguments of the parts
-- that use them. Where ledgers are followed from one run to the next, the codec is assumed to give
-- back the certificates of every ledger, as encoding/json does for one whose texts are in UTF-8 and
-- whose times are before the year 10000. A reader of randomness is only assumed to fill the buffer
-- with bytes when it reports no error.
--
-- Bounds. The loops that write a ledger have the five attempts of the source. The redraw of a serial
-- that is 0 has no bound in the source and a number of rounds here; more rounds than there are draws
-- of 0 are enough. The digits and bits of a number are counted in at most as many rounds as the
-- number itself, and one, which is more than enough.
--
-- The blocks of a PEM text are counted in at most as many rounds as the text has bytes, and one.
--
-- Not modelled: main of the commands, their flags and what they write to the log; timeouts and
-- contexts; the errors of io.ReadAll and of closing a body, which the source drops. A default HTTP
-- client and one that is configured are one parameter. The bots take encoding/json as the codec;
-- Ledger.Json is what it writes for a ledger, and what its decoder accepts beside that is left open.
-- Bots sees the hub between whole calls: what happens inside a call is the hub's. The revocation bot's
-- loop in cmd/revoker and loadCert in cmd/crlgen repeat the code of cmd/issuer, and are one definition.
pub mod Common
pub mod Clock
pub mod Decimal
pub mod Effects
pub mod Regex
pub mod Text
pub mod AppId
pub mod Challenge
pub mod Ledger
pub mod GitHub
pub mod X509
pub mod CertTemplate
pub mod Runtime
pub mod Signer
pub mod Csr
pub mod AppInfo
pub mod Enroll
pub mod Revoke
pub mod Crl
pub mod Bots
pub mod Cms
pub mod Cmd
mod Tests
