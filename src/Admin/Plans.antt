-- ===== src/Admin/Plans.antt =====
-- internal/admin: the plans (plan.go, plan_repo.go, plan_service.go).
pub mod Forms
pub mod Updates
pub mod Invariant
use apisix_developer_portal.Common.{
  ℕ, ◌+◌, String, Bool, ◌&&◌, ◌||◌, not, none, some, List, [], ◌∷◌, str_eq, ◌==◌, if◌then◌else◌,
  ltb, length, select, find, any, update_where, delete_where,
}
use apisix_developer_portal.Db.{PlanRow, SubscriptionRow, Db}
use apisix_developer_portal.Effects.{
  plan_not_found, plan_name_taken, plan_in_use, failure, Result, ok, err, M, pure, raise, query,
  exec, ◌>>=◌, ◌>>◌,
}
use apisix_developer_portal.Subscriptions.Service.{Service}
use apisix_developer_portal.Subscriptions.Service.Approval.{reprovision_plan}

abbrev pub has_id : ℕ → PlanRow → Bool
has_id id p = p.id == id

abbrev pub on_plan : ℕ → SubscriptionRow → Bool
on_plan id s = s.plan_id == id

abbrev pub find_plan : Db → ℕ → Result PlanRow
find_plan d id = elim (find (has_id id) d.plans) [ none ↦ err plan_not_found | some p ↦ ok p ]

unfoldable pub get_plan : ℕ → M PlanRow
get_plan id = query (λ d. find_plan d id)

-- The name of a plan is UNIQUE.
unfoldable pub create_plan : PlanRow → M PlanRow
create_plan p = exec λ d.
    if any (λ (q : PlanRow). str_eq q.name p.name) d.plans
    then (err plan_name_taken, d)
    else (let row = record p { id = d.next_plan } in
        (ok row, record d { plans = row ∷ d.plans; next_plan = d.next_plan + 1 }))

-- `UPDATE plans SET … WHERE id=$1 RETURNING …`
abbrev pub stored_plan : PlanRow → Db → Result PlanRow × Db
stored_plan p d =
    if not (any (has_id p.id) d.plans)
    then (err plan_not_found, d)
    else if any (λ (q : PlanRow). str_eq q.name p.name && not (q.id == p.id)) d.plans
    then (err plan_name_taken, d)
    else (ok p, record d { plans = update_where (has_id p.id) (λ _. p) d.plans })

unfoldable pub store_plan : PlanRow → M PlanRow
store_plan p = exec (stored_plan p)

-- The foreign key of the subscriptions refuses the removal of a plan that one of them names.
unfoldable pub remove_plan : ℕ → M (Unit {0})
remove_plan id = exec λ d.
    if any (on_plan id) d.subscriptions && any (has_id id) d.plans
    then (err failure, d)
    else if any (has_id id) d.plans
    then (ok tt, record d { plans = delete_where (has_id id) d.plans })
    else (err plan_not_found, d)

unfoldable pub count_subscriptions_for_plan : ℕ → M ℕ
count_subscriptions_for_plan id = query (λ d. ok (length (select (on_plan id) d.subscriptions)))

-- `Update` of `PlanService`, whose provisioner is the service of subscriptions.
unfoldable pub update_plan : Service → PlanRow → M PlanRow
update_plan svc p = do
  old ← get_plan p.id
  updated ← store_plan p
  if not (updated.rate_limit_count == old.rate_limit_count)
        || not (updated.rate_limit_window_s == old.rate_limit_window_s)
      then (do reprovision_plan svc p.id; pure updated)
      else pure updated

-- `Delete` of `PlanService`.
unfoldable pub delete_plan : ℕ → M (Unit {0})
delete_plan id = do
  n ← count_subscriptions_for_plan id
  if ltb 0 n then raise plan_in_use else remove_plan id
