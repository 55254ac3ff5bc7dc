-- ===== src/Applications/Housing.antt =====
-- internal/applications/handler.go, `create`: in whose teams the applications are.
use mathlib.Core.List.Memᴰ.{head, tail}
use apisix_developer_portal.Common.{
  ℕ, String, Bool, ◌&&◌, Option, none, some, List, ◌∷◌, Memᴰ, ◌≡◌, ◌⊎◌, inl, inr, sym, subst, ◌==◌,
  find, any, select, join, order_by, first_row, ltb, Bool-cases, Option-cases,
}
use apisix_developer_portal.Db.{ApplicationRow, TeamRow, MemberRow, UserRow}
use apisix_developer_portal.Effects.{team_not_found, Result, ok, err, State, Run, M}
use apisix_developer_portal.Effects.Triple.{
  Post, Triple, Triple-bind, Triple-pure, Triple-if, Triple-call, Triple-query, Triple-weaken,
  Triple-try_total, Triple-always,
}
use apisix_developer_portal.Effects.Preserves.{
  Preserves, Preserves-pure, Preserves-bind, Preserves-call, Preserves-try, Preserves-if,
  Triple-Preserves,
}
use apisix_developer_portal.Httpx.Respond.{Reply}
use apisix_developer_portal.Httpx.Guards.{Guard, stop, pass, guarded}
use apisix_developer_portal.Subscriptions.Service.{log}
use apisix_developer_portal.Teams.{is_member, role}
use apisix_developer_portal.Teams.Handler.{body_text}
use apisix_developer_portal.Applications.Membership.{IsIn, first-IsIn, found-IsIn}
use apisix_developer_portal.Applications.{
  Application, create_application, personal_team_id, Body, default_team, chosen_team, team_of,
  logged, create_in, CreateBody, create_named, create,
}

-- The foreign keys of a new application.
abbrev keys_hold : ℕ → ℕ → State → Bool
keys_hold uid team_id s =
    any (λ (u : UserRow). u.id == uid) s.db.users
    && any (λ (t : TeamRow). t.id == team_id) s.db.teams

module _ (uid : ℕ) (before : List ApplicationRow) where
  -- Every application was there before, or is in a team of the user.
  abbrev pub IsHoused : State → Type 0
  IsHoused s =
      (a : ApplicationRow)
      → Memᴰ a s.db.applications
      → Memᴰ a before ⊎ IsIn uid a.team_id s.db.members

  abbrev Within : Guard Body → State → Type 0
  Within (stop reply) s = Unit {0}
  Within (pass team_id) s = IsIn uid team_id s.db.members

  added-Housed :
      (s : State) (row : ApplicationRow)
      → IsHoused s
      → IsIn uid row.team_id s.db.members
      → (a : ApplicationRow) → Memᴰ a (row ∷ s.db.applications)
      → Memᴰ a before ⊎ IsIn uid a.team_id s.db.members
  added-Housed s row h in_team a there = elim there [
    | head same ↦
        inr (subst (λ (x : ApplicationRow). IsIn uid x.team_id s.db.members) (sym same) in_team)
    | tail older ↦ h a older
  ]

  created-Housed :
      (team_id : ℕ) (name description : String)
      → Triple
          (λ s. IsHoused s × IsIn uid team_id s.db.members)
          (create_application uid team_id name description)
          (λ _. IsHoused)
          IsHoused
  unfolding create_application
  created-Housed team_id name description =
      Triple-call _ (λ s p. p.0)
        (λ s p. elim (Bool-cases (keys_hold uid team_id s)) [
          | inl found ↦ rw found (added-Housed s _ p.0 p.1)
          | inr missing ↦ rw missing p.0
        ])
        (λ s p. elim (Bool-cases (keys_hold uid team_id s)) [
          | inl found ↦ rw found (added-Housed s _ p.0 p.1)
          | inr missing ↦ rw missing p.0
        ])

  logged-Housed : (events : Bool) (x : Result Application) → Preserves IsHoused (logged events x)
  unfolding logged log
  logged-Housed events (err e) = Preserves-pure _
  logged-Housed events (ok a) =
      Preserves-if events _ _
        (Preserves-bind _ _
          (Preserves-try _ (
            Preserves-call _ (λ s h.
              elim (Bool-cases (any (λ (x : ApplicationRow). x.id == a.id) s.db.applications)) [
                | inl known ↦ rw known h
                | inr unknown ↦ rw unknown h
              ])))
          (λ _. Preserves-pure _))
        (Preserves-pure _)

  either : (x : Result Application) (s : State) → Post (λ _. IsHoused) IsHoused x s → IsHoused s
  either (ok a) s h = h
  either (err e) s h = h

  create_in-Housed :
      (events : Bool) (name description : String) (team_id : ℕ)
      → Triple
          (λ s. IsHoused s × IsIn uid team_id s.db.members)
          (create_in events uid name description team_id)
          (λ _. IsHoused)
          IsHoused
  unfolding create_in
  create_in-Housed events name description team_id =
      Triple-bind _ _ (Triple-try_total _ (created-Housed team_id name description)) (λ x.
        Triple-weaken _ (Triple-Preserves _ (logged-Housed events x)) (λ s h. either x s h)
          (λ a s h. h) (λ s h. h))

  found-Within :
      (team_id : ℕ) (found : Result (Option String)) (s : State)
      → Post
          (λ r s.
            IsHoused s
            × ((elim (find (is_member team_id uid) s.db.members) as (λ _. Result (Option String)) [
              | none ↦ ok none
              | some m ↦ ok (some m.role)
            ])
                ≡ ok r))
          IsHoused
          found
          s
      → IsHoused s × Within (chosen_team team_id found) s
  unfolding chosen_team
  found-Within team_id (err e) s h = (h, tt)
  found-Within team_id (ok none) s (h, is) = (h, tt)
  found-Within team_id (ok (some r)) s (h, is) = (
    h,
    elim (Option-cases (find (is_member team_id uid) s.db.members)) [
      | inl gone ↦
          let k : ◌≡◌ {A = Result (Option String)} (ok none) (ok (some r)) = rw gone at is in
          absurd (cc)
      | inr (m, there) ↦ found-IsIn uid team_id s.db.members m there
    ],
  )

  own-Within :
      (found : Result ℕ) (s : State)
      → Post
          (λ r s.
            IsHoused s
            × ((elim (first_row (
                    order_by
                      (λ (x y : TeamRow × MemberRow). ltb x.0.id y.0.id)
                      (select
                        (λ (r : TeamRow × MemberRow). r.0.personal && r.1.user_id == uid)
                        (join
                          (λ (t : TeamRow) (m : MemberRow). m.team_id == t.id)
                          s.db.teams
                          s.db.members))))
                  as (λ _. Result ℕ) [ none ↦ err team_not_found | some r ↦ ok r.0.id ])
                ≡ ok r))
          IsHoused
          found
          s
      → IsHoused s × Within (default_team found) s
  unfolding default_team
  own-Within (err e) s h = (h, tt)
  own-Within (ok team_id) s (h, is) =
      elim (Option-cases (
        first_row (
          order_by (λ (x y : TeamRow × MemberRow). ltb x.0.id y.0.id)
            (select (λ (r : TeamRow × MemberRow). r.0.personal && r.1.user_id == uid)
              (join (λ (t : TeamRow) (m : MemberRow). m.team_id == t.id) s.db.teams
                s.db.members))))) [
                  | inl gone ↦
                      let k : ◌≡◌ {A = Result ℕ} (err team_not_found) (ok team_id) =
                        rw gone at is in
                      absurd (cc)
                  | inr (r, first) ↦
                      let k : ◌≡◌ {A = Result ℕ} (ok r.0.id) (ok team_id) = rw first at is in
                      let same : r.0.id ≡ team_id = cc in
                      (
                        h,
                        subst (λ x. IsIn uid x s.db.members) same
                            (first-IsIn uid s.db.members s.db.teams r first),
                      )
                ]

  team_of-Within :
      (team_id : ℕ)
      → Triple IsHoused (team_of uid team_id) (λ g s. IsHoused s × Within g s) IsHoused
  unfolding team_of role personal_team_id order_by
  team_of-Within team_id =
      Triple-if (team_id == 0) _ _
        (λ own.
          Triple-bind _ _ (Triple-try_total _ (Triple-query IsHoused IsHoused _ (λ s p. p)))
            (λ found. Triple-pure _ (λ s p. own-Within found s p)))
        (λ named.
          Triple-bind _ _ (Triple-try_total _ (Triple-query IsHoused IsHoused _ (λ s p. p)))
            (λ found. Triple-pure _ (λ s p. found-Within team_id found s p)))

  guarded-Housed :
      (f : ℕ → M (Reply Body))
      → ((id : ℕ)
          → Triple (λ s. IsHoused s × IsIn uid id s.db.members) (f id) (λ _. IsHoused) IsHoused)
      → (g : Guard Body)
      → Triple (λ s. IsHoused s × Within g s) (guarded g f) (λ _. IsHoused) IsHoused
  unfolding guarded
  guarded-Housed f h (stop reply) = Triple-pure _ (λ s p. p.0)
  guarded-Housed f h (pass id) = h id

  named-Housed :
      (events : Bool) (body : CreateBody) (name : Option String)
      → Triple IsHoused (create_named events uid body name) (λ _. IsHoused) IsHoused
  unfolding create_named
  named-Housed events body none = Triple-pure _ (λ s h. h)
  named-Housed events body (some name) =
      Triple-bind _ _ (team_of-Within body.team_id)
        (guarded-Housed _ (create_in-Housed events name body.description))

  create-Housed :
      (events : Bool) (body : Option CreateBody)
      → Triple IsHoused (create events uid body) (λ _. IsHoused) IsHoused
  unfolding create
  create-Housed events none = Triple-pure _ (λ s h. h)
  create-Housed events (some body) = named-Housed events body (body_text (some body.name))

-- Whatever calls fail, every application there is after a request to create one was there before it or
-- is in a team that the user of the request is a member of.
pub create-IsIn :
    (events : Bool) (uid : ℕ) (body : Option CreateBody) (r : Run) (a : ApplicationRow)
    → Memᴰ a (create events uid body r).1.state.db.applications
    → Memᴰ a r.state.db.applications
      ⊎ IsIn uid a.team_id (create events uid body r).1.state.db.members
create-IsIn events uid body r =
    Triple-always _ (create-Housed uid r.state.db.applications events body) r (λ a old. inl old)
