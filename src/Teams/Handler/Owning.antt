-- ===== src/Teams/Handler/Owning.antt =====
-- internal/teams/handler.go: requests of users who are not owners of the team.
use apisix_developer_portal.Common.{
  ℕ, String, Option, none, some, Memᴰ, ◌≡◌, ◌≢◌, ◌⊎◌, inl, inr, refl, subst, ◌∙◌, str_eq, eq_iff,
  ◌==◌, ==_iff, &&-true, find, find-mem, Option-cases, Bool-cases,
}
use apisix_developer_portal.Db.{MemberRow}
use apisix_developer_portal.Effects.{Result, ok, err, State, Run}
use apisix_developer_portal.Effects.Triple.{
  Post, Triple, Triple-bind, Triple-pure, Triple-query, Triple-try_total, Triple-answers,
}
use apisix_developer_portal.Httpx.Respond.{Reply, refusal}
use apisix_developer_portal.Httpx.Guards.{Stopped, guarded-Stopped}
use apisix_developer_portal.Teams.{is_member, role}
use apisix_developer_portal.Teams.Handler.{
  Body, check_owner_role, require_owner, Request, respond, serve,
}

-- The user is no owner of the team.
abbrev pub IsOutsider : ℕ → Option ℕ → State → Type 0
IsOutsider uid none s = Unit {0}
IsOutsider uid (some team_id) s =
    (m : MemberRow) → Memᴰ m s.db.members → m.team_id ≡ team_id → m.user_id ≡ uid → m.role ≢ "owner"

-- The answers of `requireOwner`.
abbrev pub IsDenied : Reply Body → Type 0
IsDenied reply =
    (reply ≡ refusal 400 "teams.badTeamID")
    ⊎ (reply ≡ refusal 403 "teams.ownerOnly")
    ⊎ (reply ≡ refusal 500 "teams.membershipCheckFailed")

abbrev role_of : Option MemberRow → Option String
role_of none = none
role_of (some m) = some m.role

unowned :
    (team_id : ℕ) (r : String)
    → r ≢ "owner"
    → Stopped IsDenied (check_owner_role team_id (ok (some r)))
unfolding check_owner_role
unowned team_id r other = elim (Bool-cases (str_eq r "owner")) [
  | inl t ↦ absurd (other ((eq_iff r "owner").0 t))
  | inr f ↦ rw f (inr (inl refl))
]

module _ (uid : ℕ) (s0 : State) where
  judged :
      (team_id : ℕ) (found : Result (Option String)) (s : State)
      → IsOutsider uid (some team_id) s0
      → Post
          (λ r s.
            (s ≡ s0)
            × ((elim (find (is_member team_id uid) s.db.members) as (λ _. Result (Option String)) [
              | none ↦ ok none
              | some m ↦ ok (some m.role)
            ])
                ≡ ok r))
          (λ s. s ≡ s0)
          found
          s
      → (s ≡ s0) × Stopped IsDenied (check_owner_role team_id found)
  unfolding check_owner_role
  judged team_id (err e) s outsider here = (here, inr (inr refl))
  judged team_id (ok none) s outsider (here, is) = (here, inr (inl refl))
  judged team_id (ok (some r)) s outsider (here, is) = (
    here,
    unowned team_id r (elim (Option-cases (find (is_member team_id uid) s.db.members)) [
      | inl gone ↦
          let k : ◌≡◌ {A = Result (Option String)} (ok none) (ok (some r)) = rw gone at is in
          absurd (cc)
      | inr (m, there) ↦
          let k : ◌≡◌ {A = Result (Option String)} (ok (some m.role)) (ok (some r)) =
            rw there at is in
          let same : m.role ≡ r = cc in
          let (stored, both) = find-mem (is_member team_id uid) s.db.members there in
          let (in_team, is_user) = &&-true (m.team_id == team_id) (m.user_id == uid) both in
          λ owner.
            outsider m (subst (λ x. Memᴰ m x.db.members) here stored)
              ((==_iff m.team_id team_id).0 in_team) ((==_iff m.user_id uid).0 is_user)
              (same ∙ owner)
    ]),
  )

  stopped :
      (team_id : Option ℕ)
      → IsOutsider uid team_id s0
      → Triple
          (λ s. s ≡ s0)
          (require_owner uid team_id)
          (λ g s. (s ≡ s0) × Stopped IsDenied g)
          (λ _. ⊥)
  unfolding require_owner role
  stopped none outsider = Triple-pure _ (λ s p. (p, inl refl))
  stopped (some team_id) outsider =
      Triple-bind _ _ (Triple-try_total _ (Triple-query (λ s. s ≡ s0) (λ s. s ≡ s0) _ (λ s p. p)))
        (λ found. Triple-pure _ (λ s p. judged team_id found s outsider p))

  denied :
      (team_id : Option ℕ) (request : Request)
      → IsOutsider uid team_id s0
      → Triple
          (λ s. s ≡ s0)
          (serve uid team_id request)
          (λ reply s. (s ≡ s0) × IsDenied reply)
          (λ _. ⊥)
  unfolding serve
  denied team_id request outsider =
      Triple-bind _ _ (stopped team_id outsider)
        (λ g. guarded-Stopped (λ s. s ≡ s0) IsDenied (λ id. respond id request) g)

-- Whatever calls fail, a request to change a team by a user who is not one of its owners changes nothing,
-- and is answered as the check of the owner answers, whatever was requested.
pub outsider_changes_nothing :
    (uid : ℕ) (team_id : Option ℕ) (request : Request) (r : Run)
    → IsOutsider uid team_id r.state
    → ((serve uid team_id request r).1.state ≡ r.state)
      × ((reply : Reply Body) × ((serve uid team_id request r).0 ≡ ok reply) × IsDenied reply)
outsider_changes_nothing uid team_id request r outsider =
    let (reply, answer, kept) =
      Triple-answers _ (denied uid r.state team_id request outsider) r refl in
    (kept.0, (reply, answer, kept.1))
