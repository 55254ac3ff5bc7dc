-- ===== src/Tests/Plans.antt =====
-- A change of the plan behind the approved subscription, and a plan of a request.
use apisix_developer_portal.Common.{distinct, order_by, [], ◌≡◌, refl}
use apisix_developer_portal.Paging.{nonneg}
use apisix_developer_portal.Admin.Plans.Forms.{PlanForm, IsOffer, validate, validate_lem}
use apisix_developer_portal.Admin.Plans.{find_plan, update_plan}
use apisix_developer_portal.Admin.Plans.Updates.{update_plan_quiet}
use apisix_developer_portal.Admin.Plans.Invariant.{updating, change, change-Holds}
use apisix_developer_portal.Db.{PlanRow}
use apisix_developer_portal.Apisix.{ensure_consumer, ensure_route}
use apisix_developer_portal.Billing.{
  subscription_activated, plan_pricing, team_for_app, ensure_account, pending_invoice_exists,
  create_invoice,
}
use apisix_developer_portal.Common.Decimal.{format_int}
use apisix_developer_portal.Effects.{pure, raise, lift, try, step, call, ◌>>=◌}
use apisix_developer_portal.Subscriptions.Model.{consumer_name, route_id}
use apisix_developer_portal.Subscriptions.Repo.{
  subscription_status, get_product, get_plan, save_subscription, upsert_subscription,
  get_subscription, set_subscription_status,
}
use apisix_developer_portal.Subscriptions.Repo.Keys.{
  encrypt, get_or_create_credential, get_credential, upsert_credential, get_sandbox_key,
}
use apisix_developer_portal.Subscriptions.Repo.Whitelists.{consumers_for_product}
use apisix_developer_portal.Subscriptions.Service.{
  log, log_event, notify, on_gateway, new_key, sandbox_enabled, dedup, add_missing, add_non_empty,
}
use apisix_developer_portal.Subscriptions.Service.Approval.{
  approve, approve_keys, grant_sandbox, announce,
}
use apisix_developer_portal.Subscriptions.Service.Lifecycle.{request, subscribe_to, subscribe}
use apisix_developer_portal.Subscriptions.Service.Routes.{reprovision_route, provision_keys}
use apisix_developer_portal.Subscriptions.Provisioning.Operations.{perform}
use apisix_developer_portal.Effects.{Run, ok}
use apisix_developer_portal.Subscriptions.Provisioning.{Holds}
use apisix_developer_portal.Tests.{unseal, portal, silver}
use apisix_developer_portal.Tests.Provisioning.{approved}
use apisix_developer_portal.Tests.Revoking.{approved-Holds}

abbrev form : PlanForm
form = record {
  name = "Gold";
  rate_limit = nonneg 600;
  window_seconds = nonneg 60;
  price_cents = nonneg 900;
  currency = "EUR";
}

validate_lem_example : (validate form ≡ "" → IsOffer form) × (IsOffer form → validate form ≡ "")
validate_lem_example = validate_lem form

change-Holds_example :
    Holds
      (change portal
        (updating (record silver { rate_limit_count = 600 }))
        (record { state = approved; faults = [] })).1.state
change-Holds_example =
    change-Holds portal (updating (record silver { rate_limit_count = 600 })) [] approved
      approved-Holds

-- Another name and another price.
abbrev renamed : PlanRow
renamed = record silver { name = "Sterling"; price_cents = 1000 }

abbrev at_approval : Run
at_approval = record { state = approved; faults = [] }

stored_silver : find_plan approved.db 2 ≡ ok silver
unfolding perform unseal pure raise lift try step call ◌>>=◌ get_product get_plan save_subscription
    upsert_subscription get_subscription set_subscription_status request subscribe_to subscribe
    approve approve_keys grant_sandbox announce log log_event notify on_gateway new_key encrypt
    get_or_create_credential get_credential upsert_credential reprovision_route provision_keys
    consumers_for_product ensure_consumer ensure_route subscription_activated plan_pricing
    team_for_app ensure_account pending_invoice_exists create_invoice get_sandbox_key
    sandbox_enabled dedup add_missing add_non_empty consumer_name route_id format_int distinct
    order_by subscription_status
stored_silver = refl

update_plan_quiet_example :
    ((update_plan portal renamed at_approval).1.state.gw ≡ approved.gw)
    × ((update_plan portal renamed at_approval).1.state.sandbox_gw ≡ approved.sandbox_gw)
update_plan_quiet_example =
    update_plan_quiet portal renamed silver at_approval stored_silver refl refl
