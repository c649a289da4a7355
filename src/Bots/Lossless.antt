-- ===== src/Bots/Lossless.antt =====
-- Interleaved runs of the bots lose nothing that the ledger lists.
use developer_certificates.Common.{
  ℕ, ◌≡◌, inl, inr, sym, subst, Bool, List, Bytes, ◌==◌, ==_iff, Bool-cases,
}
use developer_certificates.GitHub.{GitHub}
use developer_certificates.GitHub.Versioned.{View, Written, Written-err, IsVersioned}
use developer_certificates.Ledger.{Certificate, Codec}
use developer_certificates.Bots.{
  Job, is_revocation, Phase, idle, holding, done, System, move, Step, read, write, refuse,
  elsewhere, Reach, start, later,
}
use developer_certificates.Bots.Growth.{IsLater, IsLater-refl, IsLater-trans, Lists, IsLater-Lists}
use developer_certificates.Bots.Sources.{Source, Holds}
use developer_certificates.Bots.Writes.{IsAddressed, IsHash, Trips, load-eq-ok, write-IsLater}

module _ {W : Type 0} (codec : Codec) (gh : GitHub W) (view : W → View) (Named : Bytes → Type 0)
    (hub : IsVersioned gh Named view) (hash : Bytes → Bytes) (h : IsHash hash) (app_id : Bytes)
    (named : Named app_id) (job : ℕ → Job) (addressed : (w : W) → IsAddressed hash (view w app_id))
    (trips : Trips codec) where
  -- What a run holds was stored once, and what it has reported is listed.
  abbrev pub Sound : List Certificate → Bool → Phase → Type 0
  Sound cs must idle = Unit
  Sound cs must (holding existing sha) = (w : W) × Source codec (view w app_id) existing sha
  Sound cs must (done serial) = Lists must serial cs

  -- What is stored is `cs`.
  pub record Inv (s : System W) (cs : List Certificate) : Type 0 where
    pub holds : Holds codec (view s.world app_id) cs
    pub sound : (i : ℕ) → Sound cs (is_revocation (job i)) (s.phase i)

  Sound-IsLater :
      (cs ds : List Certificate) (must : Bool) (p : Phase)
      → IsLater cs ds
      → Sound cs must p
      → Sound ds must p
  Sound-IsLater cs ds must idle grown p = p
  Sound-IsLater cs ds must (holding existing sha) grown p = p
  Sound-IsLater cs ds must (done serial) grown p = IsLater-Lists grown p

  -- A step of one run to a store that lists no less.
  Inv-move :
      (s : System W) (cs ds : List Certificate) (w : W) (i : ℕ) (p : Phase)
      → Inv s cs
      → IsLater cs ds
      → Holds codec (view w app_id) ds
      → Sound ds (is_revocation (job i)) p
      → Inv (move s w i p) ds
  Inv-move s cs ds w i p inv grown holds new = record {
    holds = holds;
    sound = λ j. elim (Bool-cases (i == j)) [
      | inl same ↦
          rw same (subst (λ k. Sound ds (is_revocation (job k)) p) ((==_iff i j).0 same) new)
      | inr other ↦
          rw other (Sound-IsLater cs ds (is_revocation (job j)) (s.phase j) grown (inv.sound j))
    ];
  }

  Step-Inv :
      {s t : System W} (cs : List Certificate)
      → Inv s cs
      → Step codec gh view app_id job s t
      → (ds : List Certificate) × Inv t ds × IsLater cs ds
  Step-Inv {s} cs inv (read i {existing} {sha} {w} got) =
      let (source, same) =
        load-eq-ok codec gh view Named hub hash h app_id named job addressed trips (job i) s.world w
          existing sha got in
      (
        cs,
        Inv-move s cs cs w i (holding existing sha) inv (IsLater-refl cs)
            (subst (λ v. Holds codec v cs) (sym same) inv.holds) (s.world, source),
        IsLater-refl cs,
      )
  Step-Inv {s} cs inv
        (write i {existing} {l} {sha} {serial} {text} {message} {w} at wants encoded put) =
      let (past, source) = subst (Sound cs (is_revocation (job i))) at (inv.sound i) in
      let (ds, holds, grown, lists) =
        write-IsLater codec gh view Named hub hash h app_id named job addressed trips cs (job i)
          existing l sha serial text message past s.world w inv.holds source wants encoded put in
      (ds, Inv-move s cs ds w i (done serial) inv grown holds lists, grown)
  Step-Inv {s} cs inv
        (refuse i {existing} {l} {sha} {serial} {text} {message} {e} {w} at wants encoded put) =
      let same =
        Written-err
          (subst (λ r. Written (view s.world) app_id text sha r.0 (view r.1)) put
            (hub.writes app_id text sha message s.world named))
          app_id in
      (
        cs,
        Inv-move s cs cs w i idle inv (IsLater-refl cs)
            (subst (λ v. Holds codec v cs) (sym same) inv.holds) tt,
        IsLater-refl cs,
      )
  Step-Inv {s} cs inv (elsewhere {w} same) = (
    cs,
    record { holds = subst (λ v. Holds codec v cs) (sym same) inv.holds; sound = inv.sound },
    IsLater-refl cs,
  )

  Reach-Inv :
      {s t : System W} (cs : List Certificate)
      → Inv s cs
      → Reach codec gh view app_id job s t
      → (ds : List Certificate) × Inv t ds × IsLater cs ds
  Reach-Inv cs inv start = (cs, inv, IsLater-refl cs)
  Reach-Inv cs inv (later r step) =
      let (ds, mid, grown) = Reach-Inv cs inv r in
      let (es, last, further) = Step-Inv ds mid step in (es, last, IsLater-trans grown further)

  -- Runs of the issuer and of the revocation bots over one store of ledgers, interleaved in any
  -- order, lose nothing: from a start where no run holds or has reported anything, the stored ledger
  -- lists, in its place, every certificate that it listed, revoked where it was revoked, and it lists
  -- every certificate that a run has reported, revoked if it was the run of a revocation. The SHA of a
  -- ledger is a hash of its text that no two texts share, and a ledger that is encoded is decoded to
  -- one that lists the same certificates, though perhaps with their times to the second.
  pub Reach-Lossless :
      {s t : System W} (cs : List Certificate)
      → ((i : ℕ) → s.phase i ≡ idle)
      → Holds codec (view s.world app_id) cs
      → Reach codec gh view app_id job s t
      → (ds : List Certificate) × Holds codec (view t.world app_id) ds
        × IsLater cs ds
        × ((i : ℕ) (serial : Bytes)
            → t.phase i ≡ done serial
            → Lists (is_revocation (job i)) serial ds)
  Reach-Lossless cs fresh holds r =
      let (ds, inv, grown) =
        Reach-Inv cs
          (record {
            holds = holds;
            sound = λ i. subst (Sound cs (is_revocation (job i))) (sym (fresh i)) tt;
          })
          r in
      (
        ds,
        inv.holds,
        grown,
        λ i serial at. subst (Sound ds (is_revocation (job i))) at (inv.sound i),
      )
