-- ===== src/Tests/Provisioning.antt =====
-- The invariant of the subscriptions at a concrete history.
use mathlib.Core.List.Memᴰ.{head}
use apisix_developer_portal.Common.{distinct, order_by, Memᴰ, ◌⊎◌, [], ◌∷◌, ◌≡◌, refl}
use apisix_developer_portal.Apisix.{ensure_consumer, ensure_route}
use apisix_developer_portal.Billing.{
  subscription_activated, plan_pricing, team_for_app, ensure_account, pending_invoice_exists,
  create_invoice,
}
use apisix_developer_portal.Common.Decimal.{format_int}
use apisix_developer_portal.Effects.{pure, raise, lift, try, step, call, ◌>>=◌}
use apisix_developer_portal.Subscriptions.Model.{consumer_name, route_id}
use apisix_developer_portal.Subscriptions.Repo.{
  subscription_status, get_product, get_plan, save_subscription, upsert_subscription,
  get_subscription, set_subscription_status,
}
use apisix_developer_portal.Subscriptions.Repo.Keys.{
  encrypt, get_or_create_credential, get_credential, upsert_credential, get_sandbox_key,
}
use apisix_developer_portal.Subscriptions.Repo.Whitelists.{consumers_for_product}
use apisix_developer_portal.Subscriptions.Service.{
  log, log_event, notify, on_gateway, new_key, sandbox_enabled, dedup, add_missing, add_non_empty,
}
use apisix_developer_portal.Subscriptions.Service.Approval.{
  approve, approve_keys, grant_sandbox, announce,
}
use apisix_developer_portal.Subscriptions.Service.Lifecycle.{request, subscribe_to, subscribe}
use apisix_developer_portal.Subscriptions.Service.Routes.{reprovision_route, provision_keys}
use apisix_developer_portal.Db.{SubscriptionRow}
use apisix_developer_portal.Effects.{State}
use apisix_developer_portal.Subscriptions.Provisioning.{IsServed}
use apisix_developer_portal.Subscriptions.Provisioning.Operations.{
  subscribing, approving, perform, after, start, next, active-IsServed,
}
use apisix_developer_portal.Subscriptions.Preserving.Gate.{only_approve_activates}
use apisix_developer_portal.Tests.{unseal, portal, weather, maps, opening}

abbrev pub requested : State
requested = after portal (subscribing 1 7 2) [] opening

abbrev pub approved : State
approved = after portal (approving 1) [] requested

abbrev pub approved_row : SubscriptionRow
approved_row = record {
  id = 1;
  application_id = 1;
  api_product_id = 7;
  plan_id = 2;
  status = "active";
  created_at = 0;
}

pub approved_rows :
    (approved.db.subscriptions ≡ approved_row ∷ []) × (approved.db.products ≡ weather ∷ maps ∷ [])
unfolding perform unseal pure raise lift try step call ◌>>=◌ get_product get_plan save_subscription
    upsert_subscription get_subscription set_subscription_status request subscribe_to subscribe
    approve approve_keys grant_sandbox announce log log_event notify on_gateway new_key encrypt
    get_or_create_credential get_credential upsert_credential reprovision_route provision_keys
    consumers_for_product ensure_consumer ensure_route subscription_activated plan_pricing
    team_for_app ensure_account pending_invoice_exists create_invoice get_sandbox_key
    sandbox_enabled dedup add_missing add_non_empty consumer_name route_id format_int distinct
    order_by subscription_status
approved_rows = (refl, refl)

active-IsServed_example : IsServed approved.db.credentials approved.gw 1 7
active-IsServed_example =
    active-IsServed opening approved refl refl
      (next portal (approving 1) [] (next portal (subscribing 1 7 2) [] start)) approved_row
      (rw approved_rows.0 (head refl)) refl (weather, rw approved_rows.1 refl, refl)

only_approve_activates_example :
    Memᴰ approved_row requested.db.subscriptions ⊎ (approving 1 ≡ approving 1)
only_approve_activates_example =
    only_approve_activates portal (approving 1) [] requested approved_row
      (rw approved_rows.0 (head refl)) refl
