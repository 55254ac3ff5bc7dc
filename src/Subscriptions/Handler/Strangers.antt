-- ===== src/Subscriptions/Handler/Strangers.antt =====
-- internal/subscriptions/handler.go: requests of users outside the application's team.
use apisix_developer_portal.Common.{
  ℕ, Bool, true, false, ◌&&◌, Option, none, some, Memᴰ, ◌≡◌, ◌≢◌, ◌⊎◌, inl, inr, refl, sym, subst,
  ◌==◌, ==_iff, &&-true, any, any-mem, join, join-mem, Bool-cases,
}
use apisix_developer_portal.Db.{ApplicationRow, MemberRow}
use apisix_developer_portal.Effects.{Result, ok, err, State, Run}
use apisix_developer_portal.Effects.Triple.{
  Post, Triple, Triple-bind, Triple-pure, Triple-query, Triple-try_total, Triple-answers,
}
use apisix_developer_portal.Httpx.Respond.{Reply, refusal}
use apisix_developer_portal.Httpx.Guards.{Stopped, guarded-Stopped}
use apisix_developer_portal.Teams.{is_member_of_app}
use apisix_developer_portal.Subscriptions.Handler.Answers.{Handler, Body}
use apisix_developer_portal.Subscriptions.Handler.Requests.{
  check_owner, authorize, Request, respond, serve,
}

-- The user is in no team that owns an application of the id.
unfoldable pub IsStranger : ℕ → Option ℕ → State → Type 0
IsStranger uid none s = Unit {0}
IsStranger uid (some app_id) s =
    (a : ApplicationRow)
    → Memᴰ a s.db.applications
    → a.id ≡ app_id
    → (m : MemberRow) → Memᴰ m s.db.members
    → m.team_id ≡ a.team_id
    → m.user_id ≢ uid

-- The answers of `authorize`.
abbrev pub IsDenied : Reply Body → Type 0
IsDenied reply =
    (reply ≡ refusal 400 "subscribe.badAppID")
    ⊎ (reply ≡ refusal 403 "subscribe.notYourApplication")
    ⊎ (reply ≡ refusal 500 "subscribe.ownershipCheckFailed")

abbrev of_app : ℕ → ℕ → ApplicationRow × MemberRow → Bool
of_app uid app_id r = r.0.id == app_id && r.1.user_id == uid

abbrev in_team : ApplicationRow → MemberRow → Bool
in_team a m = m.team_id == a.team_id

outside :
    (uid app_id : ℕ) (s : State)
    → IsStranger uid (some app_id) s
    → any (of_app uid app_id) (join in_team s.db.applications s.db.members) ≡ false
unfolding IsStranger
outside uid app_id s stranger =
    elim (Bool-cases (any (of_app uid app_id) (join in_team s.db.applications s.db.members))) [
      | inr f ↦ f
      | inl t ↦
          let ((a, m), there, both) =
            any-mem (of_app uid app_id) (join in_team s.db.applications s.db.members) t in
          let (ma, mm, team) = join-mem in_team (a, m) s.db.applications s.db.members there in
          let (same_app, same_user) = &&-true (a.id == app_id) (m.user_id == uid) both in
          absurd (
            stranger a ma ((==_iff a.id app_id).0 same_app) m mm
              ((==_iff m.team_id a.team_id).0 team) ((==_iff m.user_id uid).0 same_user))
    ]

refused_owner : (app_id : ℕ) (b : Bool) → b ≡ false → Stopped IsDenied (check_owner app_id (ok b))
unfolding check_owner
refused_owner app_id true e = absurd (cc)
refused_owner app_id false e = inr (inl refl)

module _ (uid : ℕ) (s0 : State) where
  judged :
      (app_id : ℕ) (owned : Result Bool) (s : State)
      → IsStranger uid (some app_id) s0
      → Post
          (λ b s.
            (s ≡ s0)
            × (ok (any (of_app uid app_id) (join in_team s.db.applications s.db.members)) ≡ ok b))
          (λ s. s ≡ s0)
          owned
          s
      → (s ≡ s0) × Stopped IsDenied (check_owner app_id owned)
  unfolding check_owner
  judged app_id (err e) s stranger here = (here, inr (inr refl))
  judged app_id (ok b) s stranger (here, is) =
      let none_there =
        outside uid app_id s (subst (IsStranger uid (some app_id)) (sym here) stranger) in
      (here, refused_owner app_id b (cc))

  stopped :
      (app_id : Option ℕ)
      → IsStranger uid app_id s0
      → Triple (λ s. s ≡ s0) (authorize uid app_id) (λ g s. (s ≡ s0) × Stopped IsDenied g) (λ _. ⊥)
  unfolding authorize is_member_of_app
  stopped none stranger = Triple-pure _ (λ s p. (p, inl refl))
  stopped (some app_id) stranger =
      Triple-bind _ _ (Triple-try_total _ (Triple-query (λ s. s ≡ s0) (λ s. s ≡ s0) _ (λ s p. p)))
        (λ owned. Triple-pure _ (λ s p. judged app_id owned s stranger p))

  denied :
      (h : Handler) (app_id : Option ℕ) (request : Request)
      → IsStranger uid app_id s0
      → Triple
          (λ s. s ≡ s0)
          (serve h uid app_id request)
          (λ reply s. (s ≡ s0) × IsDenied reply)
          (λ _. ⊥)
  unfolding serve
  denied h app_id request stranger =
      Triple-bind _ _ (stopped app_id stranger)
        (λ g. guarded-Stopped (λ s. s ≡ s0) IsDenied (λ id. respond h id request) g)

-- Whatever calls fail, a request for an application by a user who is in none of its teams changes
-- nothing, and is answered as the check of the owner answers, whatever was requested.
pub stranger_changes_nothing :
    (h : Handler) (uid : ℕ) (app_id : Option ℕ) (request : Request) (r : Run)
    → IsStranger uid app_id r.state
    → ((serve h uid app_id request r).1.state ≡ r.state)
      × ((reply : Reply Body) × ((serve h uid app_id request r).0 ≡ ok reply) × IsDenied reply)
stranger_changes_nothing h uid app_id request r stranger =
    let (reply, answer, kept) =
      Triple-answers _ (denied uid r.state h app_id request stranger) r refl in
    (kept.0, (reply, answer, kept.1))
