-- ===== src/Teams/Handler.antt =====
-- internal/teams/handler.go: the requests of the page of teams. The id in a path is what ParseInt
-- reads of it, if anything; a body is the text that encoding/json decodes it to.
pub mod Owning
use apisix_developer_portal.Common.{
  ℕ, String, Bool, true, false, ◌&&◌, ◌||◌, not, Option, none, some, List, [], ◌∷◌, str_eq, ◌==◌,
  if◌then◌else◌, find, select, join, map, length, order_by,
}
use apisix_developer_portal.Common.Texts.{trim}
use apisix_developer_portal.Admin.Plans.Forms.{is_space}
use apisix_developer_portal.Db.{TeamRow, MemberRow, UserRow}
use apisix_developer_portal.Effects.{
  Error, user_not_found, already_member, personal_team, last_owner, team_has_apps, Result, ok, err,
  M, pure, try, query, ◌>>=◌,
}
use apisix_developer_portal.Httpx.Respond.{Reply, refusal, json, header}
use apisix_developer_portal.Httpx.Guards.{Guard, stop, pass, guarded}
use apisix_developer_portal.Teams.{
  create_team, role, add_member_by_email, remove_member, rename, delete_team,
}

pub record TeamSummary : Type 0 where
  pub id : ℕ
  pub name : String
  pub personal : Bool
  pub role : String
  pub member_count : ℕ

pub record Member : Type 0 where
  pub user_id : ℕ
  pub email : String
  pub name : String
  pub role : String

pub data Body : Type 0 where
  team : TeamRow → Body
  summaries : List TeamSummary → Body
  roster : List Member → Body

-- `ORDER BY t.personal DESC, t.name`, where `collate` is the strict order of texts in the database.
abbrev pub summary_before : (String → String → Bool) → TeamSummary → TeamSummary → Bool
summary_before collate x y =
    if x.personal
    then (if y.personal then collate x.name y.name else true)
    else (if y.personal then false else collate x.name y.name)

-- `ListForUser`
unfoldable pub list_for_user : (String → String → Bool) → ℕ → M (List TeamSummary)
unfolding order_by
list_for_user collate user_id = query λ d. ok (
    order_by (summary_before collate) (
      map
        (λ (r : TeamRow × MemberRow). record {
          id = r.0.id;
          name = r.0.name;
          personal = r.0.personal;
          role = r.1.role;
          member_count = length (select (λ (m : MemberRow). m.team_id == r.0.id) d.members);
        })
        (join (λ (t : TeamRow) (m : MemberRow). m.team_id == t.id && m.user_id == user_id) d.teams
          d.members)))

-- `ORDER BY tm.role, u.email`
abbrev pub member_before : (String → String → Bool) → Member → Member → Bool
member_before collate x y = collate x.role y.role || str_eq x.role y.role && collate x.email y.email

-- `Members`
unfoldable pub members : (String → String → Bool) → ℕ → M (List Member)
unfolding order_by
members collate team_id = query λ d. ok (
    order_by (member_before collate) (
      map
        (λ (r : MemberRow × UserRow). record {
          user_id = r.1.id;
          email = r.1.email;
          name = r.1.name;
          role = r.0.role;
        })
        (join (λ (m : MemberRow) (u : UserRow). u.id == m.user_id)
          (select (λ (m : MemberRow). m.team_id == team_id) d.members) d.users)))

-- The ends of `requireMember` and `requireOwner`.
unfoldable pub check_member : ℕ → Result (Option String) → Guard Body
check_member team_id (err e) = stop (refusal 500 "teams.membershipCheckFailed")
check_member team_id (ok none) = stop (refusal 403 "teams.notMember")
check_member team_id (ok (some r)) = pass team_id

unfoldable pub check_owner_role : ℕ → Result (Option String) → Guard Body
check_owner_role team_id (err e) = stop (refusal 500 "teams.membershipCheckFailed")
check_owner_role team_id (ok none) = stop (refusal 403 "teams.ownerOnly")
check_owner_role team_id (ok (some r)) =
    if str_eq r "owner" then pass team_id else stop (refusal 403 "teams.ownerOnly")

unfoldable pub require_member : ℕ → Option ℕ → M (Guard Body)
require_member uid none = pure (stop (refusal 400 "teams.badTeamID"))
require_member uid (some team_id) = do
  found ← try (role team_id uid)
  pure (check_member team_id found)

unfoldable pub require_owner : ℕ → Option ℕ → M (Guard Body)
require_owner uid none = pure (stop (refusal 400 "teams.badTeamID"))
require_owner uid (some team_id) = do
  found ← try (role team_id uid)
  pure (check_owner_role team_id found)

-- The answers to the results of the store.
unfoldable pub added : Result (Unit {0}) → Reply Body
added (ok _) = header 204
added (err user_not_found) = refusal 404 "teams.userNotFound"
added (err already_member) = refusal 409 "teams.alreadyMember"
added (err personal_team) = refusal 409 "teams.personalTeamNoAddMember"
added (err e) = refusal 500 "teams.addMemberFailed"

unfoldable pub removed : Result (Unit {0}) → Reply Body
removed (ok _) = header 204
removed (err last_owner) = refusal 409 "teams.lastOwner"
removed (err personal_team) = refusal 409 "teams.personalTeamNoModify"
removed (err e) = refusal 500 "teams.removeMemberFailed"

unfoldable pub renamed : Result (Unit {0}) → Reply Body
renamed (ok _) = header 204
renamed (err personal_team) = refusal 409 "teams.personalTeamNoRename"
renamed (err e) = refusal 500 "teams.renameFailed"

unfoldable pub dissolved : Result (Unit {0}) → Reply Body
dissolved (ok _) = header 204
dissolved (err team_has_apps) = refusal 409 "teams.hasApplications"
dissolved (err personal_team) = refusal 409 "teams.personalTeamNoDelete"
dissolved (err e) = refusal 500 "teams.deleteFailed"

unfoldable pub created : Result TeamRow → Reply Body
created (ok t) = json 201 (team t)
created (err e) = refusal 500 "teams.createFailed"

unfoldable pub listed : Result (List TeamSummary) → Reply Body
listed (ok ts) = json 200 (summaries ts)
listed (err e) = refusal 500 "teams.listFailed"

unfoldable pub listed_members : Result (List Member) → Reply Body
listed_members (ok ms) = json 200 (roster ms)
listed_members (err e) = refusal 500 "teams.membersListFailed"

-- The requests that change a team, behind `requireOwner`.
pub data Request : Type 0 where
  adding : Option String → Request
  removing : Option ℕ → Request
  renaming : Option String → Request
  deleting : Request

-- The text of a body without the spaces around it, if anything is left.
abbrev pub trimmed : String → Option String
trimmed s = let t = trim is_space s in if str_eq t "" then none else some t

abbrev pub body_text : Option String → Option String
body_text none = none
body_text (some s) = trimmed s

unfoldable pub add : ℕ → Option String → M (Reply Body)
add team_id none = pure (refusal 400 "teams.emailRequired")
add team_id (some email) = do answer ← try (add_member_by_email team_id email); pure (added answer)

unfoldable pub rename_to : ℕ → Option String → M (Reply Body)
rename_to team_id none = pure (refusal 400 "common.nameRequired")
rename_to team_id (some name) = do answer ← try (rename team_id name); pure (renamed answer)

unfoldable pub respond : ℕ → Request → M (Reply Body)
respond team_id (adding body) = add team_id (body_text body)
respond team_id (renaming body) = rename_to team_id (body_text body)
respond team_id (removing none) = pure (refusal 400 "teams.badUserID")
respond team_id (removing (some user_id)) = do
  answer ← try (remove_member team_id user_id)
  pure (removed answer)
respond team_id deleting = do answer ← try (delete_team team_id); pure (dissolved answer)

-- A request that changes a team, for the user of a session.
unfoldable pub serve : ℕ → Option ℕ → Request → M (Reply Body)
serve uid team_id request = do
  guard ← require_owner uid team_id
  guarded guard (λ id. respond id request)

-- The requests of `create`, `list` and `members`.
unfoldable pub create_named : ℕ → Option String → M (Reply Body)
create_named uid none = pure (refusal 400 "common.nameRequired")
create_named uid (some name) = do answer ← try (create_team name uid); pure (created answer)

abbrev pub create : ℕ → Option String → M (Reply Body)
create uid body = create_named uid (body_text body)

unfoldable pub list : (String → String → Bool) → ℕ → M (Reply Body)
list collate uid = do answer ← try (list_for_user collate uid); pure (listed answer)

unfoldable pub list_members : (String → String → Bool) → ℕ → Option ℕ → M (Reply Body)
list_members collate uid team_id = do
  guard ← require_member uid team_id
  guarded guard (λ id. try (members collate id) >>= λ answer. pure (listed_members answer))
