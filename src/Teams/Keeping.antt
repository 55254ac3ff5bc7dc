-- ===== src/Teams/Keeping.antt =====
-- internal/teams/repo.go: the operations of the teams, and their owners.
use apisix_developer_portal.Common.{
  ℕ, ◌<◌, String, true, false, Option, none, some, ◌≡◌, inl, inr, refl, subst, str_eq, ◌==◌, ==_iff,
  &&-true, length, select, find, any, any-mem, leb, delete_where, Bool-cases, Option-cases, arith,
}
use apisix_developer_portal.Db.{MemberRow, UserRow, ApplicationRow}
use apisix_developer_portal.Effects.{Result, ok, State, Run, M, pure, ◌>>=◌}
use apisix_developer_portal.Effects.Triple.{
  Triple, Triple-bind, Triple-call, Triple-if, Triple-query, Triple-pure, Triple-raise,
  Triple-weaken,
}
use apisix_developer_portal.Effects.Preserves.{
  Preserves, Preserves-call, Preserves-triple, Preserves-bind, Preserves-pure, preserves_rules,
}
use apisix_developer_portal.Teams.Counts.{only_one}
use apisix_developer_portal.Teams.Owners.{
  IsOwned, Owned, removed-IsOwned, added-IsOwned, created-IsOwned, renamed-IsOwned,
  dissolved-IsOwned,
}
use apisix_developer_portal.Teams.{
  is_team, is_member, owns, create_team, is_personal, check_shared, role, insert_member,
  add_member_by_email, count_owners, delete_member, remove_role, remove_member, rename,
  delete_team_row, delete_team,
}

create_team-Owned : (name : String) (owner_id : ℕ) → Preserves Owned (create_team name owner_id)
unfolding create_team
create_team-Owned name owner_id = Preserves-call _ λ s h.
    elim (Bool-cases (any (λ (u : UserRow). u.id == owner_id) s.db.users)) [
      | inl t ↦ rw t (created-IsOwned _ owner_id s.db.teams s.db.members s.db.next_team refl h)
      | inr t ↦ rw t h
    ]

check_shared-Owned : (team_id : ℕ) → Preserves Owned (check_shared team_id)
unfolding check_shared is_personal
check_shared-Owned team_id = search preserves_rules depth 7

insert_member-Owned : (team_id user_id : ℕ) → Preserves Owned (insert_member team_id user_id)
unfolding insert_member
insert_member-Owned team_id user_id = Preserves-call _ λ s h.
    elim (Bool-cases (any (is_member team_id user_id) s.db.members)) [
      | inl t ↦ rw t h
      | inr t ↦ elim (Bool-cases (any (is_team team_id) s.db.teams)) [
        | inr u ↦ rw (t, u) h
        | inl u ↦
            let (team, there, e) = any-mem (is_team team_id) s.db.teams u in
            let known : team_id < s.db.next_team =
              subst (λ n. n < s.db.next_team) ((==_iff team.id team_id).0 e)
                (h.numbered team there) in
            rw (t, u) (added-IsOwned _ s.db.teams s.db.members s.db.next_team h known t)
      ]
    ]

add_member-Owned :
    (team_id : ℕ) (email : String) → Preserves Owned (add_member_by_email team_id email)
unfolding add_member_by_email
add_member-Owned team_id email =
    search (preserves_rules, check_shared-Owned, insert_member-Owned) depth 9

module _ (team_id user_id : ℕ) where
  -- The pair is stored with the role.
  abbrev HasRole : String → State → Type 0
  HasRole r s =
      Owned s
      × (m : MemberRow) × (find (is_member team_id user_id) s.db.members ≡ some m)
      × (m.role ≡ r)

  delete_owner :
      (r : String) (owners : ℕ)
      → leb owners 1 ≡ false
      → Triple
          (λ s. HasRole r s × (ok (length (select (owns team_id) s.db.members)) ≡ ok owners))
          (delete_member team_id user_id)
          (λ _. Owned)
          Owned
  unfolding delete_member
  delete_owner r owners more = Triple-call _ (λ s p. p.0.0) removed removed
    where
      removed :
          (s : State)
          → HasRole r s × (ok (length (select (owns team_id) s.db.members)) ≡ ok owners)
          → IsOwned s.db.teams
              (delete_where (is_member team_id user_id) s.db.members)
              s.db.next_team
      removed s (p, e) =
          let count : length (select (owns team_id) s.db.members) ≡ owners = cc in
          removed-IsOwned team_id user_id s.db.teams s.db.members s.db.next_team p.0
            (inr (ground arith))

  delete_other :
      (r : String)
      → str_eq r "owner" ≡ false
      → Triple (HasRole r) (delete_member team_id user_id) (λ _. Owned) Owned
  unfolding delete_member
  delete_other r plain = Triple-call _ (λ s p. p.0) removed removed
    where
      removed :
          (s : State)
          → HasRole r s
          → IsOwned s.db.teams
              (delete_where (is_member team_id user_id) s.db.members)
              s.db.next_team
      removed s (h, m, found, e) =
          removed-IsOwned team_id user_id s.db.teams s.db.members s.db.next_team h (
            inl λ x there t.
              let same =
                only_one (is_member team_id user_id) m x s.db.members (h.keyed team_id user_id)
                  found there t in
              let k : str_eq x.role "owner" ≡ false = rw (same, e) plain in
              let here : (x.team_id == team_id) ≡ true = (&&-true _ _ t).0 in rw (here, k) refl)

  remove_role-Owned :
      (r : String) → Triple (HasRole r) (remove_role team_id user_id r) (λ _. Owned) Owned
  unfolding remove_role count_owners
  remove_role-Owned r =
      Triple-if (str_eq r "owner") _ _
        (λ _.
          Triple-bind _ _
            (Triple-query (HasRole r) Owned (λ d. ok (length (select (owns team_id) d.members)))
              (λ s p. p.0))
            λ owners.
              Triple-if (leb owners 1) _ _ (λ _. Triple-raise _ (λ s p. p.0.0))
                (λ more. delete_owner r owners more))
        (λ plain. delete_other r plain)

  remove_member-Owned : Preserves Owned (remove_member team_id user_id)
  unfolding remove_member role
  remove_member-Owned = Preserves-bind _ _ (check_shared-Owned team_id) λ _. Preserves-triple _ (
      Triple-bind _ _
        (Triple-query Owned Owned
          (λ d. elim (find (is_member team_id user_id) d.members) [
            | none ↦ ok none
            | some m ↦ ok (some m.role)
          ])
          (λ s h. h))
        ending)
    where
      has_role :
          (r : String) (s : State)
          → Owned s
          → (elim (find (is_member team_id user_id) s.db.members) as (λ _. Result (Option String)) [
            | none ↦ ok none
            | some m ↦ ok (some m.role)
          ])
            ≡ ok (some r)
          → HasRole r s
      has_role r s h e = elim (Option-cases (find (is_member team_id user_id) s.db.members)) [
        | inl missing ↦
            let nothing : Result (Option String) = ok none in
            let k : nothing ≡ ok (some r) = rw missing at e in absurd cc
        | inr (m, there) ↦
            let k : ok (some m.role) ≡ ok (some r) = rw there at e in
            let same : m.role ≡ r = cc in (h, m, there, same)
      ]

      ending :
          (found : Option String)
          → Triple
              (λ s.
                Owned s
                × ((elim (find (is_member team_id user_id) s.db.members)
                      as (λ _. Result (Option String)) [
                        | none ↦ ok none
                        | some m ↦ ok (some m.role)
                      ])
                    ≡ ok found))
              (elim found [ none ↦ pure tt | some r ↦ remove_role team_id user_id r ])
              (λ _. Owned)
              Owned
      ending none = Triple-pure tt (λ s p. p.0)
      ending (some r) =
          Triple-weaken _ (remove_role-Owned r) (λ s p. has_role r s p.0 p.1) (λ a s h. h)
            (λ s h. h)

rename-Owned : (team_id : ℕ) (name : String) → Preserves Owned (rename team_id name)
unfolding rename
rename-Owned team_id name = Preserves-bind _ _ (check_shared-Owned team_id) λ _.
    Preserves-call _ (λ s h. renamed-IsOwned team_id name s.db.teams s.db.members s.db.next_team h)

delete_team-Owned : (team_id : ℕ) → Preserves Owned (delete_team team_id)
unfolding delete_team delete_team_row
delete_team-Owned team_id = search (preserves_rules, check_shared-Owned, row_gone) depth 9
  where
    row_gone : (id : ℕ) → Preserves Owned (delete_team_row id)
    row_gone id = Preserves-call _ λ s h.
        elim (Bool-cases (any (λ (a : ApplicationRow). a.team_id == id) s.db.applications)) [
          | inl t ↦ rw t h
          | inr t ↦ rw t (dissolved-IsOwned id s.db.teams s.db.members s.db.next_team h)
        ]

-- The changes of teams.
pub data Change : Type 0 where
  creating : String → ℕ → Change
  adding : ℕ → String → Change
  removing : ℕ → ℕ → Change
  renaming : ℕ → String → Change
  deleting : ℕ → Change

unfoldable pub change : Change → M (Unit {0})
change (creating name owner_id) = create_team name owner_id >>= λ _. pure tt
change (adding team_id email) = add_member_by_email team_id email
change (removing team_id user_id) = remove_member team_id user_id
change (renaming team_id name) = rename team_id name
change (deleting team_id) = delete_team team_id

changed : (c : Change) → Preserves Owned (change c)
unfolding change
changed (creating name owner_id) =
    Preserves-bind _ _ (create_team-Owned name owner_id) (λ _. Preserves-pure tt)
changed (adding team_id email) = add_member-Owned team_id email
changed (removing team_id user_id) = remove_member-Owned team_id user_id
changed (renaming team_id name) = rename-Owned team_id name
changed (deleting team_id) = delete_team-Owned team_id

-- If each team has an owner, the pairs of members are unique and the ids are below the next one, then
-- whatever calls fail, the creation, renaming and removal of a team and the addition and removal of
-- a member keep it so.
pub change-IsOwned :
    (c : Change) (r : Run)
    → IsOwned r.state.db.teams r.state.db.members r.state.db.next_team
    → (let s = (change c r).1.state in IsOwned s.db.teams s.db.members s.db.next_team)
change-IsOwned c r h = (changed c).at r h
