-- ===== src/Admin/Plans/Invariant.antt =====
-- internal/admin/plan_service.go and plan_repo.go: changes of plans, and the invariant of the
-- subscriptions.
use mathlib.Core.List.Memᴰ.{tail}
use apisix_developer_portal.Common.{
  ℕ, Bool, true, false, ◌&&◌, not, List, Memᴰ, ◌≡◌, inl, inr, refl, sym, ◌∙◌, subst, str_eq, ◌==◌,
  ==_iff, if◌then◌else◌, any, any-false, update_where, mem-update_where, delete_where,
  mem-delete_where, Bool-cases,
}
use apisix_developer_portal.Apisix.{Gateway}
use apisix_developer_portal.Db.{PlanRow, ProductRow, CredentialRow, SubscriptionRow}
use apisix_developer_portal.Effects.{State, Run, Fault, M, pure, ◌>>=◌}
use apisix_developer_portal.Admin.Plans.{
  has_id, on_plan, get_plan, create_plan, store_plan, remove_plan, count_subscriptions_for_plan,
  update_plan, delete_plan,
}
use apisix_developer_portal.Subscriptions.Service.{Service}
use apisix_developer_portal.Subscriptions.Provisioning.{HasPlan, IsProvisioned, Holds}
use apisix_developer_portal.Subscriptions.Provisioning.Requests.{Keeps, Keeps-call, keeps_rules}
use apisix_developer_portal.Subscriptions.Provisioning.Quiet.{quiet_rules}
use apisix_developer_portal.Subscriptions.Provisioning.Keying.{reprovision_plan-Keeps}
use apisix_developer_portal.Subscriptions.Provisioning.Operations.{kept}

with_plans :
    {subscriptions : List SubscriptionRow} {next : ℕ} {plans : List PlanRow}
    {products : List ProductRow} {credentials : List CredentialRow} {gw : Gateway}
    (plans' : List PlanRow)
    → IsProvisioned subscriptions next plans products credentials gw
    → ((r : SubscriptionRow)
        → Memᴰ r subscriptions
        → HasPlan plans r.plan_id
        → HasPlan plans' r.plan_id)
    → IsProvisioned subscriptions next plans' products credentials gw
with_plans plans' h moved = record {
  named = h.named;
  below = h.below;
  unique = h.unique;
  paired = h.paired;
  planned = λ r m. moved r m (h.planned r m);
  served = h.served;
}

create_plan-Keeps : (p : PlanRow) → Keeps (create_plan p)
unfolding create_plan
create_plan-Keeps p = Keeps-call _ λ s h.
    elim (Bool-cases (any (λ (q : PlanRow). str_eq q.name p.name) s.db.plans)) [
      | inl t ↦ rw t h
      | inr t ↦ rw t (with_plans _ h (λ r m (q, there, e). (q, tail there, e)))
    ]

store_plan-Keeps : (p : PlanRow) → Keeps (store_plan p)
unfolding store_plan
store_plan-Keeps p = Keeps-call _ λ s h. elim (Bool-cases (any (has_id p.id) s.db.plans)) [
  | inr t ↦ rw t h
  | inl t ↦
      elim (Bool-cases
        (any (λ (q : PlanRow). str_eq q.name p.name && not (q.id == p.id)) s.db.plans)) [
          | inl u ↦ rw (t, u) h
          | inr u ↦ rw (t, u) (with_plans _ h (λ r m. moved r.plan_id s.db.plans))
        ]
]
  where
    moved :
        (id : ℕ) (plans : List PlanRow)
        → HasPlan plans id
        → HasPlan (update_where (has_id p.id) (λ _. p) plans) id
    moved id plans (q, there, e) = elim (Bool-cases (has_id p.id q)) [
      | inl t ↦
          let at : Memᴰ (if true then p else q) (update_where (has_id p.id) (λ _. p) plans) =
            subst (λ b. Memᴰ (if b then p else q) (update_where (has_id p.id) (λ _. p) plans)) t
              (mem-update_where (has_id p.id) (λ _. p) plans there) in
          (p, at, sym ((==_iff q.id p.id).0 t) ∙ e)
      | inr t ↦
          let at : Memᴰ (if false then p else q) (update_where (has_id p.id) (λ _. p) plans) =
            subst (λ b. Memᴰ (if b then p else q) (update_where (has_id p.id) (λ _. p) plans)) t
              (mem-update_where (has_id p.id) (λ _. p) plans there) in
          (q, at, e)
    ]

remove_plan-Keeps : (id : ℕ) → Keeps (remove_plan id)
unfolding remove_plan
remove_plan-Keeps id = Keeps-call _ λ s h. elim (Bool-cases (any (has_id id) s.db.plans)) [
  | inr t ↦ rw (t, &&-false (any (on_plan id) s.db.subscriptions)) h
  | inl t ↦ elim (Bool-cases (any (on_plan id) s.db.subscriptions)) [
    | inl u ↦ rw (t, u) h
    | inr u ↦ rw (t, u) (with_plans _ h (λ r m. kept s.db.subscriptions s.db.plans r u m))
  ]
]
  where
    &&-false : (b : Bool) → (b && false) ≡ false
    &&-false true = refl
    &&-false false = refl

    kept :
        (rows : List SubscriptionRow) (plans : List PlanRow) (r : SubscriptionRow)
        → any (on_plan id) rows ≡ false
        → Memᴰ r rows
        → HasPlan plans r.plan_id
        → HasPlan (delete_where (has_id id) plans) r.plan_id
    kept rows plans r unused m (q, there, e) =
        let other : (r.plan_id == id) ≡ false = any-false (on_plan id) rows unused m in
        let still : has_id id q ≡ false = subst (λ n. (n == id) ≡ false) (sym e) other in
        (q, mem-delete_where (has_id id) plans there still, e)

-- The changes of plans by an administrator.
pub data Change : Type 0 where
  creating updating : PlanRow → Change
  deleting : ℕ → Change

unfoldable pub change : Service → Change → M (Unit {0})
change svc (creating p) = create_plan p >>= λ _. pure tt
change svc (updating p) = update_plan svc p >>= λ _. pure tt
change svc (deleting id) = delete_plan id

update_plan-Keeps : (svc : Service) (p : PlanRow) → Keeps (update_plan svc p)
unfolding update_plan get_plan
update_plan-Keeps svc p =
    search (keeps_rules, quiet_rules, store_plan-Keeps, reprovision_plan-Keeps) depth 14

change-Keeps : (svc : Service) (c : Change) → Keeps (change svc c)
unfolding change delete_plan count_subscriptions_for_plan
change-Keeps svc (creating p) = search (keeps_rules, quiet_rules, create_plan-Keeps)
change-Keeps svc (updating p) = search (keeps_rules, quiet_rules, update_plan-Keeps)
change-Keeps svc (deleting id) = search (keeps_rules, quiet_rules, remove_plan-Keeps) depth 9

-- Whatever calls fail, the creation, the update or the removal of a plan keeps the invariant that
-- active subscriptions of key products are provisioned, that of the plans included.
pub change-Holds :
    (svc : Service) (c : Change) (faults : List Fault) (s : State)
    → Holds s
    → Holds (change svc c (record { state = s; faults = faults })).1.state
change-Holds svc c faults s h =
    let r : Run = record { state = s; faults = faults } in
    kept (change svc c r).0 (change svc c r).1.state ((change-Keeps svc c).holds.at r h)
