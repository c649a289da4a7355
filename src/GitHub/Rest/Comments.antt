-- ===== src/GitHub/Rest/Comments.antt =====
-- Whose comments the bot reads.
use developer_certificates.Common.{
  ◌≡◌, ◌⊎◌, inl, inr, refl, ap, sym, subst, ◌∙◌, none, some, Option, List, [], ◌∷◌, ◌++◌, ℕ, Bytes,
  codes, bytes_eq, bytes_eq_iff, Bool-cases, Option-cases,
}
use mathlib.Core.List.{Memᴰ}
use mathlib.Core.List.Memᴰ.{head, tail, not-nil, cases_cons}
use mathlib.Core.Option.{some_inj}
use developer_certificates.Clock.{Time}
use developer_certificates.Challenge.{parse_nonce}
use developer_certificates.Effects.{ok, pure, Result}
use developer_certificates.Effects.Keep.{>>=-eq-ok, ok_inj}
use developer_certificates.GitHub.{Issue, Comment}
use developer_certificates.GitHub.Rest.{Client, call, own_of, own_comments, issue_path, client}
use developer_certificates.GitHub.Rest.Transport.{Http, RawComment, no_content}
use developer_certificates.Runtime.{Runtime}
use developer_certificates.Enroll.Issuance.{Deps}
use developer_certificates.Enroll.Process.{latest, prior_challenge}
use developer_certificates.Enroll.Process.Stages.{prior_challenge-eq-ok}

module _ {W : Type 0} (http : Http W) (c : Client) where
  -- A comment of the bot, among those that the hub returned.
  abbrev pub IsOwn : List RawComment → Comment → Type 0
  IsOwn raw comment =
      (r : RawComment) × Memᴰ r raw
      × (r.login ≡ c.cfg.bot_login)
      × (comment.body ≡ r.body)
      × (comment.created_at ≡ r.created_at)

  IsOwn-cons :
      {r : RawComment} {raw : List RawComment} {m : Comment} → IsOwn raw m → IsOwn (r ∷ raw) m
  IsOwn-cons (x, at, own, body, time) = (x, tail at, own, body, time)

  own_of-IsOwn : (raw : List RawComment) (m : Comment) → Memᴰ m (own_of http c raw) → IsOwn raw m
  unfolding own_of
  own_of-IsOwn [] m h = absurd (not-nil h)
  own_of-IsOwn (r ∷ raw) m h = elim (Bool-cases (bytes_eq r.login c.cfg.bot_login)) [
    | inl own ↦ elim (cases_cons (rw own at h)) [
      | inl same ↦ (
        r,
        head refl,
        (bytes_eq_iff r.login c.cfg.bot_login).0 own,
        ap (λ k. k.body) same,
        ap (λ k. k.created_at) same,
      )
      | inr later ↦ IsOwn-cons (own_of-IsOwn raw m later)
    ]
    | inr foreign ↦ IsOwn-cons (own_of-IsOwn raw m (rw foreign at h))
  ]

  -- The comments that the API returned for the issue.
  unfoldable pub page : ℕ → W → Result (List RawComment)
  page issue w =
      (call http c (codes "GET") (issue_path http c issue ++ codes "/comments?per_page=100")
        no_content (record { initial = []; decoder = some http.unmarshal_comments }) w).0

  own_comments-IsOwn :
      (issue : ℕ) (w : W) (cs : List Comment)
      → (own_comments http c issue w).0 ≡ ok cs
      → (raw : List RawComment) × (page issue w ≡ ok raw)
        × ((m : Comment) → Memᴰ m cs → IsOwn raw m)
  unfolding own_comments page
  own_comments-IsOwn issue w cs h =
      let (raw, read, _, rest) = >>=-eq-ok _ (λ raw. pure (own_of http c raw)) w cs h in
      (raw, read, λ m at. own_of-IsOwn raw m (subst (λ l. Memᴰ m l) (sym (ok_inj rest)) at))

-- The nonce stems from one of the comments, or was found before them.
latest-Memᴰ :
    (found : Option (Bytes × Time)) (cs : List Comment) (prior : Bytes × Time)
    → latest found cs ≡ some prior
    → (found ≡ some prior)
      ⊎ ((m : Comment) × Memᴰ m cs × (parse_nonce m.body ≡ some prior.0) × (m.created_at ≡ prior.1))
unfolding latest
latest-Memᴰ found [] prior h = inl h
latest-Memᴰ found (m ∷ cs) prior h = elim (Option-cases (parse_nonce m.body)) [
  | inl bare ↦ elim (latest-Memᴰ found cs prior (rw bare at h)) [
    | inl before ↦ inl before
    | inr (k, at, nonce, time) ↦ inr (k, tail at, nonce, time)
  ]
  | inr (n, has) ↦ elim (latest-Memᴰ (some (n, m.created_at)) cs prior (rw has at h)) [
    | inl now ↦
        inr
          (m, head refl, has ∙ ap (λ p. some p.0) (some_inj.0 now), ap (λ p. p.1) (some_inj.0 now))
    | inr (k, at, nonce, time) ↦ inr (k, tail at, nonce, time)
  ]
]

module _ {W : Type 0} (http : Http W) (c : Client) (rt : Runtime) (d : Deps W) (issue : Issue) where
  -- Over the REST client, the challenge that the issuer bot goes by, its nonce and its time, stands in
  -- a comment that the API returned for the issue and whose author is the bot.
  pub prior_challenge-own :
      (w : W) (prior : Bytes × Time)
      → (prior_challenge rt (record d { gh = client http c }) issue w).0 ≡ ok (some prior)
      → (raw : List RawComment) × (r : RawComment) × (page http c issue.number w ≡ ok raw)
        × Memᴰ r raw
        × (r.login ≡ c.cfg.bot_login)
        × (parse_nonce r.body ≡ some prior.0)
        × (r.created_at ≡ prior.1)
  unfolding client
  prior_challenge-own w prior h =
      let (cs, read, last) =
        prior_challenge-eq-ok rt (record d { gh = client http c }) issue w (some prior) h in
      let (raw, answer, own) = own_comments-IsOwn http c issue.number w cs read in
      elim (latest-Memᴰ none cs prior last) [
        | inl bad ↦ cc bad
        | inr (m, at, nonce, time) ↦
            let (r, in_raw, login, body, created) = own m at in
            (raw, r, answer, in_raw, login, ap parse_nonce (sym body) ∙ nonce, sym created ∙ time)
      ]
