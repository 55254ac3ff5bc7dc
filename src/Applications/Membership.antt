-- ===== src/Applications/Membership.antt =====
-- internal/teams/repo.go: the lookups of teams, and the memberships of the user.
use mathlib.Core.List.Memᴰ.{head}
use apisix_developer_portal.Common.{
  ℕ, List, [], ◌∷◌, some, Memᴰ, ◌≡◌, ◌&&◌, ◌==◌, ==_iff, &&-true, find, find-mem, select,
  select-mem, join, join-mem, order_by, order_by-mem, first_row, ltb,
}
use apisix_developer_portal.Db.{TeamRow, MemberRow}
use apisix_developer_portal.Teams.{is_member}

-- The user is a member of the team.
abbrev pub IsIn : ℕ → ℕ → List MemberRow → Type 0
IsIn uid team_id members =
    (m : MemberRow) × Memᴰ m members × (m.team_id ≡ team_id) × (m.user_id ≡ uid)

first_row-mem : {A : Type 0} → (a : A) (xs : List A) → (first_row xs ≡ some a) → Memᴰ a xs
first_row-mem a [] e = absurd (cc)
first_row-mem a (x ∷ xs) e = head (cc)

pub first-IsIn :
    (uid : ℕ) (members : List MemberRow) (teams : List TeamRow) (r : TeamRow × MemberRow)
    → (first_row (
          order_by
            (λ (x y : TeamRow × MemberRow). ltb x.0.id y.0.id)
            (select
              (λ (r : TeamRow × MemberRow). r.0.personal && r.1.user_id == uid)
              (join (λ (t : TeamRow) (m : MemberRow). m.team_id == t.id) teams members)))
        ≡ some r)
    → IsIn uid r.0.id members
first-IsIn uid members teams r first =
    let (joined, own) = select-mem _ r _ (order_by-mem _ r _ (first_row-mem r _ first)) in
    let (_, stored, same) = join-mem _ r teams members joined in
    let (_, is_user) = &&-true r.0.personal (r.1.user_id == uid) own in
    (r.1, stored, (==_iff r.1.team_id r.0.id).0 same, (==_iff r.1.user_id uid).0 is_user)

pub found-IsIn :
    (uid team_id : ℕ) (members : List MemberRow) (m : MemberRow)
    → (find (is_member team_id uid) members ≡ some m)
    → IsIn uid team_id members
found-IsIn uid team_id members m there =
    let (stored, both) = find-mem (is_member team_id uid) members there in
    let (in_team, is_user) = &&-true (m.team_id == team_id) (m.user_id == uid) both in
    (m, stored, (==_iff m.team_id team_id).0 in_team, (==_iff m.user_id uid).0 is_user)
