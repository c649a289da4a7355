-- ===== src/Bots/History/Service.antt =====
-- The service as a whole: the commands run one after another over one hub, in any order and with
-- whatever outcome, and only add to the log.
use developer_certificates.Common.{ℕ, Bool, List, [], ◌∷◌, Bytes}
use developer_certificates.Challenge.{Reader}
use developer_certificates.Clock.{Time}
use developer_certificates.Effects.{⊤, Action}
use developer_certificates.Effects.Keep.{Keeps}
use developer_certificates.GitHub.{GitHub, Issue}
use developer_certificates.GitHub.Versioned.{View, IsSame}
use developer_certificates.Ledger.{Certificate}
use developer_certificates.Runtime.{Runtime}
use developer_certificates.Signer.{Signer}
use developer_certificates.Cmd.Batch.{poll, run_all}
use developer_certificates.Enroll.Issuance
use developer_certificates.Enroll.Process
use developer_certificates.Revoke.SelfService
use developer_certificates.Revoke.SelfService.{CmsResult}
use developer_certificates.Revoke.Privileged.{PrivilegedRequest, privileged_process}
use developer_certificates.Bots.Writes.{Trips}
use developer_certificates.Bots.History.{
  IsLedgerStore, History, Listed, IsSame-History, Listed-Keeps,
}
use developer_certificates.Bots.History.Issuer.{IsOutlived, process-History}
use developer_certificates.Bots.History.Revoker.{revoke_process-History, privileged_process-History}
use developer_certificates.Revoke.SelfService.Authorized.{IsQuiet}

-- A poll over the open issues keeps what the processing of each keeps.
poll-Keeps :
    {W : Type 0} (I : W → Type 0) (process : Issue → Action W ⊤)
    → ((issue : Issue) → Keeps I (process issue))
    → (issues : List Issue) → Keeps I (run_all process issues)
unfolding run_all poll
poll-Keeps I process keeps [] = λ w i. i
poll-Keeps I process keeps (issue ∷ issues) =
    λ w i. poll-Keeps I process keeps issues (process issue w).1 (keeps issue w i)

-- The collaborators of the commands, over one hub.
pub record Parts (W : Type 0) : Type 0 where
  pub gh : GitHub W
  pub signer : Signer W
  pub clock : W → Time × W
  pub rand : Reader W
  pub rounds : ℕ
  pub verify : Bytes → Action W CmsResult

abbrev pub issuing : {W : Type 0} → Parts W → Issuance.Deps W
issuing p = record {
  gh = p.gh;
  signer = p.signer;
  clock = p.clock;
  rand = p.rand;
  rounds = p.rounds;
}

abbrev pub revoking : {W : Type 0} → Parts W → SelfService.Deps W
revoking p = record { gh = p.gh; verify = p.verify }

module _ {W : Type 0} (rt : Runtime) (p : Parts W) (view : W → View) where
  -- One run of a command, from the world that it finds to the one that it leaves, or anything else
  -- that writes to no ledger.
  pub data Command (w : W) : W → Type 0 where
    issuer : (issues : List Issue) → Command w (run_all (Process.process rt (issuing p)) issues w).1
    revoker :
        (issues : List Issue) → Command w (run_all (SelfService.process rt (revoking p)) issues w).1
    privrevoke : (req : PrivilegedRequest) → Command w (privileged_process rt p.gh req w).1
    elsewhere : {w' : W} → IsSame (view w) (view w') → Command w w'

  pub data Commands (w : W) : W → Type 0 where
    start : Commands w w
    later : {u v : W} → Commands w u → Command u v → Commands w v

  module _ (store : IsLedgerStore rt.codec p.gh view) (trips : Trips rt.codec)
      (issues_quietly : (base : Bytes → List Certificate)
        → IsOutlived (issuing p) (History rt.codec view base))
      (revokes_quietly : (base : Bytes → List Certificate)
        → IsQuiet (revoking p) (History rt.codec view base)) where
    Command-History :
        (base : Bytes → List Certificate) {w v : W}
        → Command w v
        → History rt.codec view base w
        → History rt.codec view base v
    Command-History base {w} (issuer issues) log =
        poll-Keeps (History rt.codec view base) (Process.process rt (issuing p))
          (λ issue. process-History rt (issuing p) view store trips issue issues_quietly base)
          issues w log
    Command-History base {w} (revoker issues) log =
        poll-Keeps (History rt.codec view base) (SelfService.process rt (revoking p))
          (λ issue.
            revoke_process-History rt (revoking p) view store trips issue revokes_quietly base)
          issues w log
    Command-History base {w} (privrevoke req) log =
        privileged_process-History rt p.gh view store trips req base w log
    Command-History base {w} (elsewhere {w'} same) log =
        IsSame-History rt.codec view base w w' same log

    Commands-History :
        (base : Bytes → List Certificate) {w v : W}
        → Commands w v
        → History rt.codec view base w
        → History rt.codec view base v
    Commands-History base start log = log
    Commands-History base (later before last) log =
        Command-History base last (Commands-History base before log)

    -- Runs of the commands, whatever their issues and requests and however each of them ends, take
    -- nothing out of the ledgers: where at the beginning every ledger can be decoded and lists the
    -- certificates of `base` for its appId, it lists them at the end, each in its place and revoked
    -- where it was revoked; and a serial that a ledger listed at the beginning, or listed as revoked,
    -- is listed so at the end. The hub serves a store of ledgers under SHAs that guard the writes, the
    -- SHA of a ledger is a hash of its text that no two texts share, and every ledger that is encoded is
    -- decoded to one that lists the same certificates, though perhaps with their times to the second.
    -- The other calls of the hub, the signer, the clock, the reader of randomness and the verifier of
    -- requests take nothing out of the ledgers.
    pub Commands-Lossless :
        (base : Bytes → List Certificate) {w v : W}
        → Commands w v
        → History rt.codec view base w
        → History rt.codec view base v
          × ((app_id : Bytes) (must : Bool) (serial : Bytes)
              → Listed rt.codec view app_id must serial w
              → Listed rt.codec view app_id must serial v)
    Commands-Lossless base {w} {v} runs log = (
      Commands-History base runs log,
      λ app_id must serial listed.
          Listed-Keeps rt.codec view app_id must serial base w v log
            (λ now. Commands-History now runs) listed,
    )
