-- ===== src/Tests/Teams.antt =====
-- The owner of the one team tries to leave it.
use mathlib.Core.List.Memᴰ.{head, tail}
use apisix_developer_portal.Common.{
  ℕ, ◌≤◌, ◌<◌, ◌==◌, false, [], Memᴰ, ◌≡◌, refl, length, select, arith, Bool-cases, inl, inr,
}
use apisix_developer_portal.Db.{TeamRow, MemberRow}
use apisix_developer_portal.Effects.{Run, ok, err, last_owner, call, pure, raise, ◌>>=◌}
use apisix_developer_portal.Teams.{
  is_member, owns, is_personal, check_shared, role, count_owners, remove_role, remove_member,
}
use apisix_developer_portal.Teams.Owners.{IsOwned}
use apisix_developer_portal.Teams.Keeping.{removing, change, change-IsOwned}
use apisix_developer_portal.Common.{String, some, sym, ap, ◌∙◌}
use apisix_developer_portal.Httpx.Respond.{Reply}
use apisix_developer_portal.Teams.Handler.{Body, deleting, serve}
use apisix_developer_portal.Teams.Handler.Owning.{IsOutsider, IsDenied, outsider_changes_nothing}
use apisix_developer_portal.Tests.{opening}

abbrev at_opening : Run
at_opening = record { state = opening; faults = [] }

refused_to_go : (remove_member 4 1 at_opening).0 ≡ err last_owner
unfolding remove_member remove_role count_owners role check_shared is_personal call pure raise ◌>>=◌
refused_to_go = refl

opening-keyed : (t u : ℕ) → length (select (is_member t u) opening.db.members) ≤ 1
opening-keyed t u = elim (Bool-cases (2 == u)) [
  | inl e ↦
      let other : (1 == u) ≡ false = ground arith in
      elim (Bool-cases (4 == t)) [
        | inl f ↦ rw (e, f, other) (omega arith)
        | inr f ↦ rw (e, f) (omega arith)
      ]
  | inr e ↦ elim (Bool-cases (4 == t)) [
    | inl f ↦ elim (Bool-cases (1 == u)) [
      | inl g ↦ rw (e, f, g) (omega arith)
      | inr g ↦ rw (e, f, g) (omega arith)
    ]
    | inr f ↦ rw (e, f) (omega arith)
  ]
]

opening-below : (m : MemberRow) → Memᴰ m opening.db.members → m.team_id < opening.db.next_team
opening-below m (head e) = rw e (omega arith)
opening-below m (tail (head e)) = rw e (omega arith)
opening-below m (tail (tail x)) = elim x [ ]

opening-numbered : (t : TeamRow) → Memᴰ t opening.db.teams → t.id < opening.db.next_team
opening-numbered t (head e) = rw e (omega arith)
opening-numbered t (tail x) = elim x [ ]

opening-owned :
    (t : TeamRow) → Memᴰ t opening.db.teams → 1 ≤ length (select (owns t.id) opening.db.members)
opening-owned t (head e) = rw e (omega arith)
opening-owned t (tail x) = elim x [ ]

pub opening-IsOwned : IsOwned opening.db.teams opening.db.members opening.db.next_team
opening-IsOwned = record {
  keyed = opening-keyed;
  below = opening-below;
  numbered = opening-numbered;
  owned = opening-owned;
}

change-IsOwned_example :
    (let s = (change (removing 4 1) at_opening).1.state in
      IsOwned s.db.teams s.db.members s.db.next_team)
change-IsOwned_example = change-IsOwned (removing 4 1) at_opening opening-IsOwned

-- Bob, a member, tries to dissolve the team.
bob-IsOutsider : IsOutsider 2 (some 4) opening
bob-IsOutsider m (head e) team user owner =
    let k : ◌≡◌ {A = ℕ} 1 2 = sym (ap (λ (x : MemberRow). x.user_id) e) ∙ user in omega arith
bob-IsOutsider m (tail (head e)) team user owner =
    let k : ◌≡◌ {A = String} "member" "owner" = sym (ap (λ (x : MemberRow). x.role) e) ∙ owner in cc
bob-IsOutsider m (tail (tail x)) team user owner = elim x [ ]

outsider_changes_nothing_example :
    ((serve 2 (some 4) deleting at_opening).1.state ≡ opening)
    × ((reply : Reply Body) × ((serve 2 (some 4) deleting at_opening).0 ≡ ok reply)
        × IsDenied reply)
outsider_changes_nothing_example =
    outsider_changes_nothing 2 (some 4) deleting at_opening bob-IsOutsider
