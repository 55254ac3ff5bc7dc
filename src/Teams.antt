-- ===== src/Teams.antt =====
-- internal/teams/repo.go: teams, their members, and who may leave.
pub mod Counts
pub mod Owners
pub mod Keeping
pub mod Handler
use apisix_developer_portal.Common.{
  ℕ, ◌+◌, String, Bool, false, ◌&&◌, Option, none, some, List, [], ◌∷◌, str_eq, ◌==◌, if◌then◌else◌,
  leb, ltb, length, select, find, any, join, update_where, delete_where,
}
use apisix_developer_portal.Db.{
  ApplicationRow, AccountRow, InvoiceRow, TeamRow, MemberRow, UserRow, Db,
}
use apisix_developer_portal.Effects.{
  team_not_found, personal_team, user_not_found, already_member, last_owner, team_has_apps, failure,
  Result, ok, err, M, pure, raise, query, exec, ◌>>=◌, ◌>>◌,
}

abbrev pub is_team : ℕ → TeamRow → Bool
is_team id t = t.id == id

abbrev pub is_member : ℕ → ℕ → MemberRow → Bool
is_member team_id user_id m = m.team_id == team_id && m.user_id == user_id

abbrev pub owns : ℕ → MemberRow → Bool
owns team_id m = m.team_id == team_id && str_eq m.role "owner"

-- `Create`, one transaction: the team and its owner.
unfoldable pub create_team : String → ℕ → M TeamRow
create_team name owner_id = exec λ d.
    if any (λ (u : UserRow). u.id == owner_id) d.users
    then (let team : TeamRow = record { id = d.next_team; name = name; personal = false } in
        (
          ok team,
          record d {
            teams = team ∷ d.teams;
            members =
                record { team_id = d.next_team; user_id = owner_id; role = "owner" } ∷ d.members;
            next_team = d.next_team + 1;
          },
        ))
    else (err failure, d)

unfoldable pub is_personal : ℕ → M Bool
is_personal team_id = query λ d. elim (find (is_team team_id) d.teams) [
  | none ↦ err team_not_found
  | some t ↦ ok t.personal
]

-- `if personal { return ErrPersonalTeam }`
unfoldable pub check_shared : ℕ → M (Unit {0})
check_shared team_id = do
  personal ← is_personal team_id
  if personal then raise personal_team else pure tt

-- `Role`
unfoldable pub role : ℕ → ℕ → M (Option String)
role team_id user_id = query λ d. elim (find (is_member team_id user_id) d.members) [
  | none ↦ ok none
  | some m ↦ ok (some m.role)
]

-- `IsMemberOfApp`
unfoldable pub is_member_of_app : ℕ → ℕ → M Bool
is_member_of_app user_id app_id = query λ d. ok (
    any (λ (r : ApplicationRow × MemberRow). r.0.id == app_id && r.1.user_id == user_id)
      (join (λ (a : ApplicationRow) (m : MemberRow). m.team_id == a.team_id) d.applications
        d.members))

abbrev pub find_user : Db → String → Result ℕ
find_user d email = elim (find (λ (u : UserRow). str_eq u.email email) d.users) [
  | none ↦ err user_not_found
  | some u ↦ ok u.id
]

-- The pair of team and user is the key of team_members, and the team is a foreign key.
unfoldable pub insert_member : ℕ → ℕ → M (Unit {0})
insert_member team_id user_id = exec λ d.
    if any (is_member team_id user_id) d.members
    then (err already_member, d)
    else if any (is_team team_id) d.teams
    then (
      ok tt,
      record d {
        members = record { team_id = team_id; user_id = user_id; role = "member" } ∷ d.members;
      },
    )
    else (err failure, d)

-- `AddMemberByEmail`
unfoldable pub add_member_by_email : ℕ → String → M (Unit {0})
add_member_by_email team_id email = do
  check_shared team_id
  user_id ← query (λ d. find_user d email)
  insert_member team_id user_id

unfoldable pub count_owners : ℕ → M ℕ
count_owners team_id = query (λ d. ok (length (select (owns team_id) d.members)))

unfoldable pub delete_member : ℕ → ℕ → M (Unit {0})
delete_member team_id user_id =
    exec (λ d. (ok tt, record d { members = delete_where (is_member team_id user_id) d.members }))

-- The tail of `RemoveMember` for a member with a role.
unfoldable pub remove_role : ℕ → ℕ → String → M (Unit {0})
remove_role team_id user_id r =
    if str_eq r "owner"
    then (do
      owners ← count_owners team_id
      if leb owners 1 then raise last_owner else delete_member team_id user_id)
    else delete_member team_id user_id

-- `RemoveMember`
unfoldable pub remove_member : ℕ → ℕ → M (Unit {0})
remove_member team_id user_id = do
  check_shared team_id
  found ← role team_id user_id
  elim found [ none ↦ pure tt | some r ↦ remove_role team_id user_id r ]

-- `Rename`
unfoldable pub rename : ℕ → String → M (Unit {0})
rename team_id name = do
  check_shared team_id
  exec (λ d. (
    ok tt,
    record d {
      teams = update_where (is_team team_id) (λ (t : TeamRow). record t { name = name }) d.teams;
    },
  ))

-- The members and the billing of the team go with it (`ON DELETE CASCADE`); an application keeps it.
unfoldable pub delete_team_row : ℕ → M (Unit {0})
delete_team_row team_id = exec λ d.
    if any (λ (a : ApplicationRow). a.team_id == team_id) d.applications
    then (err failure, d)
    else (
      ok tt,
      record d {
        teams = delete_where (is_team team_id) d.teams;
        members = delete_where (λ (m : MemberRow). m.team_id == team_id) d.members;
        accounts = delete_where (λ (a : AccountRow). a.team_id == team_id) d.accounts;
        invoices =
            delete_where
              (λ (i : InvoiceRow).
                any (λ (a : AccountRow). a.id == i.billing_account_id && a.team_id == team_id)
                  d.accounts)
              d.invoices;
      },
    )

-- `Delete`
unfoldable pub delete_team : ℕ → M (Unit {0})
delete_team team_id = do
  check_shared team_id
  apps ←
      query
        (λ d. ok (length (select (λ (a : ApplicationRow). a.team_id == team_id) d.applications)))
  if ltb 0 apps then raise team_has_apps else delete_team_row team_id
