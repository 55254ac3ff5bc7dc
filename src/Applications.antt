-- ===== src/Applications.antt =====
-- internal/applications: the applications of a user's teams (repo.go), and the requests that create
-- and list them (handler.go). The body of a request is what encoding/json decodes it to.
pub mod Membership
pub mod Housing
use apisix_developer_portal.Common.{
  ℕ, ◌+◌, String, Bool, true, false, ◌&&◌, Option, none, some, List, [], ◌∷◌, str_eq, ◌==◌,
  if◌then◌else◌, ltb, length, select, any, join, map, order_by, first_row,
}
use apisix_developer_portal.Common.Slices.{take, drop}
use apisix_developer_portal.Db.{ApplicationRow, TeamRow, MemberRow, UserRow, SubscriptionRow, Db}
use apisix_developer_portal.Effects.{
  team_not_found, failure, Result, ok, err, M, pure, try, query, exec, ◌>>=◌, ◌>>◌,
}
use apisix_developer_portal.Httpx.Respond.{Reply, refusal, json}
use apisix_developer_portal.Httpx.Guards.{Guard, stop, pass, guarded}
use apisix_developer_portal.Paging.{Params, Number, nonneg, negative, offset, limit}
use apisix_developer_portal.Subscriptions.Service.{log}
use apisix_developer_portal.Teams.{role}
use apisix_developer_portal.Teams.Handler.{body_text}

pub record Application : Type 0 where
  pub id : ℕ
  pub owner_id : ℕ
  pub team_id : ℕ
  pub team_name : String
  pub name : String
  pub description : String
  pub created_at : ℕ
  pub subscription_count : ℕ

-- What `Create` returns of a row.
abbrev pub created_view : ApplicationRow → Application
created_view a = record {
  id = a.id;
  owner_id = a.owner_id;
  team_id = a.team_id;
  team_name = "";
  name = a.name;
  description = a.description;
  created_at = a.created_at;
  subscription_count = 0;
}

-- `Create`; the owner and the team are foreign keys.
unfoldable pub create_application : ℕ → ℕ → String → String → M Application
create_application owner_id team_id name description = exec λ d.
    if any (λ (u : UserRow). u.id == owner_id) d.users
      && any (λ (t : TeamRow). t.id == team_id) d.teams
    then (let row : ApplicationRow = record {
      id = d.next_application;
      owner_id = owner_id;
      name = name;
      description = description;
      created_at = d.now;
      team_id = team_id;
      oidc_client_id = "";
    } in
        (
          ok (created_view row),
          record d {
            applications = row ∷ d.applications;
            next_application = d.next_application + 1;
          },
        ))
    else (err failure, d)

-- The applications of the teams of a user, each with its team.
abbrev pub of_user : Db → ℕ → List (ApplicationRow × TeamRow)
of_user d user_id =
    join (λ (a : ApplicationRow) (t : TeamRow). t.id == a.team_id)
      (select
        (λ (a : ApplicationRow).
          any (λ (m : MemberRow). m.team_id == a.team_id && m.user_id == user_id) d.members)
        d.applications)
      d.teams

abbrev pub listed_view : Db → ApplicationRow × TeamRow → Application
listed_view d r = record (created_view r.0) {
  team_name = r.1.name;
  subscription_count =
      length (select (λ (s : SubscriptionRow). s.application_id == r.0.id) d.subscriptions);
}

-- `LIMIT … OFFSET …`; PostgreSQL refuses a negative offset.
abbrev pub page_of : {A : Type 0} → Params → Number → List A → Result (List A)
page_of p (nonneg n) rows = ok (take (limit p) (drop n rows))
page_of p (negative n) rows = if ltb 0 n then err failure else ok (take (limit p) rows)

-- `ListForUser`, its two queries.
unfoldable pub list_for_user : ℕ → Params → M (List Application × ℕ)
unfolding order_by take drop
list_for_user user_id p = do
  total ← query λ d. ok (
      length (
        select
          (λ (a : ApplicationRow).
            any (λ (m : MemberRow). m.team_id == a.team_id && m.user_id == user_id) d.members)
          d.applications))
  apps ← query λ d. page_of p (offset p) (
      map (listed_view d) (
        order_by (λ (x y : ApplicationRow × TeamRow). ltb y.0.created_at x.0.created_at)
          (of_user d user_id)))
  pure (apps, total)

-- `PersonalTeamID` of internal/teams.
unfoldable pub personal_team_id : ℕ → M ℕ
unfolding order_by
personal_team_id user_id = query λ d.
    elim (first_row (
      order_by (λ (x y : TeamRow × MemberRow). ltb x.0.id y.0.id)
        (select (λ (r : TeamRow × MemberRow). r.0.personal && r.1.user_id == user_id)
          (join (λ (t : TeamRow) (m : MemberRow). m.team_id == t.id) d.teams d.members)))) [
            | none ↦ err team_not_found
            | some r ↦ ok r.0.id
          ]

pub data Body : Type 0 where
  application : Application → Body
  page : List Application → ℕ → Params → Body

-- The team of a new application.
unfoldable pub default_team : Result ℕ → Guard Body
default_team (ok team_id) = pass team_id
default_team (err e) = stop (refusal 500 "app.create.noPersonalTeam")

unfoldable pub chosen_team : ℕ → Result (Option String) → Guard Body
chosen_team team_id (err e) = stop (refusal 500 "app.create.membershipCheckFailed")
chosen_team team_id (ok none) = stop (refusal 403 "app.create.notMember")
chosen_team team_id (ok (some r)) = pass team_id

unfoldable pub team_of : ℕ → ℕ → M (Guard Body)
team_of uid team_id =
    if team_id == 0
    then (do found ← try (personal_team_id uid); pure (default_team found))
    else (do found ← try (role team_id uid); pure (chosen_team team_id found))

-- `create` from the answer of the store on; an error of the log is dropped.
unfoldable pub logged : Bool → Result Application → M (Reply Body)
logged events (err e) = pure (refusal 500 "app.create.failed")
logged events (ok a) =
    if events
    then (do
      try (
          log (record {
            application_id = a.id;
            kind = "app_created";
            product_id = none;
            plan_id = none;
          }))
      pure (json 201 (application a)))
    else pure (json 201 (application a))

unfoldable pub create_in : Bool → ℕ → String → String → ℕ → M (Reply Body)
create_in events uid name description team_id = do
  answer ← try (create_application uid team_id name description)
  logged events answer

pub record CreateBody : Type 0 where
  pub name : String
  pub description : String
  pub team_id : ℕ

unfoldable pub create_named : Bool → ℕ → CreateBody → Option String → M (Reply Body)
create_named events uid body none = pure (refusal 400 "common.nameRequired")
create_named events uid body (some name) = do
  guard ← team_of uid body.team_id
  guarded guard (create_in events uid name body.description)

-- `create`, with or without a log of events, for the user of a session.
unfoldable pub create : Bool → ℕ → Option CreateBody → M (Reply Body)
create events uid none = pure (refusal 400 "common.nameRequired")
create events uid (some body) = create_named events uid body (body_text (some body.name))

unfoldable pub answer_page : Params → Result (List Application × ℕ) → Reply Body
answer_page p (ok (apps, total)) = json 200 (page apps total p)
answer_page p (err e) = refusal 500 "app.list.failed"

unfoldable pub list : ℕ → Params → M (Reply Body)
list uid p = do answer ← try (list_for_user uid p); pure (answer_page p answer)
