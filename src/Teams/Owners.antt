-- ===== src/Teams/Owners.antt =====
-- internal/teams/repo.go: what it is for each team to have an owner.
use mathlib.Core.List.Memᴰ.{head, tail}
use apisix_developer_portal.Common.{
  ℕ, ◌+◌, ◌≤◌, ◌<◌, String, true, false, List, ◌∷◌, Memᴰ, ◌≡◌, ◌⊎◌, inl, inr, refl, sym, ap, subst,
  ◌∙◌, ◌==◌, ==_iff, ==_self, &&-true, length, select, any, update_where, update_where-mem,
  delete_where, delete_where-mem, Bool-cases, arith,
}
use apisix_developer_portal.Common.Counting.{count-any}
use apisix_developer_portal.Db.{TeamRow, MemberRow}
use apisix_developer_portal.Effects.{State}
use apisix_developer_portal.Teams.{is_team, is_member, owns}
use apisix_developer_portal.Teams.Counts.{
  count-delete, count-delete_below, count-delete_other, count-more, count-none,
}

-- The pairs of team_members are unique, the ids of teams are below the next one, members are members
-- of such teams, and each team has an owner.
pub record IsOwned (teams : List TeamRow) (members : List MemberRow) (next : ℕ) : Type 0 where
  pub keyed : (team_id user_id : ℕ) → length (select (is_member team_id user_id) members) ≤ 1
  pub below : (m : MemberRow) → Memᴰ m members → m.team_id < next
  pub numbered : (t : TeamRow) → Memᴰ t teams → t.id < next
  pub owned : (t : TeamRow) → Memᴰ t teams → 1 ≤ length (select (owns t.id) members)

abbrev pub Owned : State → Type 0
Owned s = IsOwned s.db.teams s.db.members s.db.next_team

-- Removing a member who is no owner, or an owner beside another.
pub removed-IsOwned :
    (team_id user_id : ℕ) (teams : List TeamRow) (members : List MemberRow) (next : ℕ)
    → IsOwned teams members next
    → ((x : MemberRow)
        → Memᴰ x members
        → is_member team_id user_id x ≡ true
        → owns team_id x ≡ false)
      ⊎ (2 ≤ length (select (owns team_id) members))
    → IsOwned teams (delete_where (is_member team_id user_id) members) next
removed-IsOwned team_id user_id teams members next h spared = record {
  keyed = λ t u.
      let fewer = count-delete_below (is_member t u) (is_member team_id user_id) members in
      let before = h.keyed t u in omega arith;
  below = λ m there. h.below m (delete_where-mem (is_member team_id user_id) m members there).0;
  numbered = h.numbered;
  owned = λ t there. still t (h.owned t there);
}
  where
    elsewhere :
        (id : ℕ)
        → (id == team_id) ≡ false
        → (x : MemberRow) → is_member team_id user_id x ≡ true
        → owns id x ≡ false
    elsewhere id differ x m =
        let here : x.team_id ≡ team_id = (==_iff x.team_id team_id).0 (&&-true _ _ m).0 in
        let k : (x.team_id == id) ≡ false = ground arith in rw k refl

    still :
        (t : TeamRow)
        → 1 ≤ length (select (owns t.id) members)
        → 1 ≤ length (select (owns t.id) (delete_where (is_member team_id user_id) members))
    still t before = elim (Bool-cases (t.id == team_id)) [
      | inr differ ↦
          let same =
            count-delete_other (owns t.id) (is_member team_id user_id) members
              (λ x _ m. elsewhere t.id differ x m) in
          omega arith
      | inl same ↦
          let e : t.id ≡ team_id = (==_iff t.id team_id).0 same in
          elim spared [
            | inl no_owner ↦
                let kept =
                  count-delete_other (owns t.id) (is_member team_id user_id) members
                    (λ x m q. subst (λ id. owns id x ≡ false) (sym e) (no_owner x m q)) in
                omega arith
            | inr two ↦
                let two' : 2 ≤ length (select (owns t.id) members) =
                  subst (λ id. 2 ≤ length (select (owns id) members)) (sym e) two in
                let left = count-delete (owns t.id) (is_member team_id user_id) members in
                let one = h.keyed team_id user_id in omega arith
          ]
    ]

-- A new pair of a team and a user.
added-keyed :
    (new : MemberRow) (members : List MemberRow)
    → ((team_id user_id : ℕ) → length (select (is_member team_id user_id) members) ≤ 1)
    → any (is_member new.team_id new.user_id) members ≡ false
    → (t u : ℕ) → length (select (is_member t u) (new ∷ members)) ≤ 1
added-keyed new members keyed fresh t u = elim (Bool-cases (is_member t u new)) [
  | inr f ↦ rw f (keyed t u)
  | inl f ↦
      let both = &&-true (new.team_id == t) (new.user_id == u) f in
      let team : new.team_id ≡ t = (==_iff new.team_id t).0 both.0 in
      let user : new.user_id ≡ u = (==_iff new.user_id u).0 both.1 in
      let unused : any (is_member t u) members ≡ false =
        subst (λ b. any (is_member t b) members ≡ false) user
          (subst (λ a. any (is_member a new.user_id) members ≡ false) team fresh) in
      let zero_there = count-any (is_member t u) members unused in rw f (omega arith)
]

pub added-IsOwned :
    (new : MemberRow) (teams : List TeamRow) (members : List MemberRow) (next : ℕ)
    → IsOwned teams members next
    → new.team_id < next
    → any (is_member new.team_id new.user_id) members ≡ false
    → IsOwned teams (new ∷ members) next
added-IsOwned new teams members next h known fresh = record {
  keyed = added-keyed new members h.keyed fresh;
  below = λ m there. elim there [
    | head e ↦ subst (λ (x : MemberRow). x.team_id < next) (sym e) known
    | tail m' ↦ h.below m m'
  ];
  numbered = h.numbered;
  owned = λ t there.
      let more = count-more (owns t.id) new members in let before = h.owned t there in omega arith;
}

pub created-IsOwned :
    (team : TeamRow) (owner_id : ℕ) (teams : List TeamRow) (members : List MemberRow) (next : ℕ)
    → team.id ≡ next
    → IsOwned teams members next
    → IsOwned
        (team ∷ teams)
        (record { team_id = next; user_id = owner_id; role = "owner" } ∷ members)
        (next + 1)
created-IsOwned team owner_id teams members next e h = record {
  keyed = added-keyed owner members h.keyed fresh;
  below = λ m there. elim there [
    | head e' ↦ subst (λ (x : MemberRow). x.team_id < next + 1) (sym e') (omega arith)
    | tail m' ↦ let old = h.below m m' in omega arith
  ];
  numbered = λ t there. elim there [
    | head e' ↦ subst (λ (x : TeamRow). x.id < next + 1) (sym e') (omega arith)
    | tail m' ↦ let old = h.numbered t m' in omega arith
  ];
  owned = λ t there. elim there [
    | head e' ↦ first t (ap (λ (x : TeamRow). x.id) e' ∙ e)
    | tail m' ↦
        let more = count-more (owns t.id) owner members in let before = h.owned t m' in omega arith
  ];
}
  where
    owner : MemberRow
    owner = record { team_id = next; user_id = owner_id; role = "owner" }

    fresh : any (is_member next owner_id) members ≡ false
    fresh = count-none (is_member next owner_id) members λ x m.
        let old = h.below x m in let k : (x.team_id == next) ≡ false = ground arith in rw k refl

    first : (t : TeamRow) → t.id ≡ next → 1 ≤ length (select (owns t.id) (owner ∷ members))
    first t same =
        let k : owns t.id owner ≡ true = rw (same, ==_self next) refl in rw k (omega arith)

pub renamed-IsOwned :
    (id : ℕ) (name : String) (teams : List TeamRow) (members : List MemberRow) (next : ℕ)
    → IsOwned teams members next
    → IsOwned
        (update_where (is_team id) (λ (t : TeamRow). record t { name = name }) teams)
        members
        next
renamed-IsOwned id name teams members next h = record {
  keyed = h.keyed;
  below = h.below;
  numbered = λ t there.
      let (b, mb, same) = origin t there in subst (λ n. n < next) (sym same) (h.numbered b mb);
  owned = λ t there.
      let (b, mb, same) = origin t there in
      subst (λ n. 1 ≤ length (select (owns n) members)) (sym same) (h.owned b mb);
}
  where
    origin :
        (t : TeamRow)
        → Memᴰ t (update_where (is_team id) (λ (t : TeamRow). record t { name = name }) teams)
        → (b : TeamRow) × Memᴰ b teams × (t.id ≡ b.id)
    origin t there =
        let (b, mb, from) =
          update_where-mem (is_team id) (λ (t : TeamRow). record t { name = name }) t teams there in
        elim from [
          | inl (_, e) ↦ (b, mb, ap (λ (x : TeamRow). x.id) e)
          | inr (_, e) ↦ (b, mb, ap (λ (x : TeamRow). x.id) e)
        ]

-- A team goes with its members.
pub dissolved-IsOwned :
    (id : ℕ) (teams : List TeamRow) (members : List MemberRow) (next : ℕ)
    → IsOwned teams members next
    → IsOwned
        (delete_where (is_team id) teams)
        (delete_where (λ (m : MemberRow). m.team_id == id) members)
        next
dissolved-IsOwned id teams members next h = record {
  keyed = λ t u.
      let fewer = count-delete_below (is_member t u) (λ (m : MemberRow). m.team_id == id) members in
      let before = h.keyed t u in omega arith;
  below = λ m there.
      h.below m (delete_where-mem (λ (m : MemberRow). m.team_id == id) m members there).0;
  numbered = λ t there. h.numbered t (delete_where-mem (is_team id) t teams there).0;
  owned = λ t there.
      let (old, other) = delete_where-mem (is_team id) t teams there in
      let same =
        count-delete_other (owns t.id) (λ (m : MemberRow). m.team_id == id) members
          (λ x m gone. stranger t x other gone) in
      let before = h.owned t old in omega arith;
}
  where
    stranger :
        (t : TeamRow) (x : MemberRow)
        → (t.id == id) ≡ false
        → (x.team_id == id) ≡ true
        → owns t.id x ≡ false
    stranger t x other gone = let k : (x.team_id == t.id) ≡ false = ground arith in rw k refl
