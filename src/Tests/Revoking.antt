-- ===== src/Tests/Revoking.antt =====
-- Cancelling and rejecting the approved subscription of the concrete history.
use mathlib.Core.List.Memᴰ.{head}
use apisix_developer_portal.Common.{distinct, order_by, [], ◌≡◌, refl}
use apisix_developer_portal.Effects.{Run, ok}
use apisix_developer_portal.Apisix.{delete_route, ensure_consumer, ensure_route}
use apisix_developer_portal.Billing.{
  subscription_activated, plan_pricing, team_for_app, ensure_account, pending_invoice_exists,
  create_invoice,
}
use apisix_developer_portal.Common.Decimal.{format_int}
use apisix_developer_portal.Effects.{pure, raise, lift, try, step, call, ◌>>=◌}
use apisix_developer_portal.Subscriptions.Model.{consumer_name, route_id}
use apisix_developer_portal.Subscriptions.Repo.{
  delete_subscription, remove_subscriptions, subscription_status, get_product, get_plan,
  save_subscription, upsert_subscription, get_subscription, set_subscription_status,
}
use apisix_developer_portal.Subscriptions.Repo.Keys.{
  encrypt, get_or_create_credential, get_credential, upsert_credential, get_sandbox_key,
}
use apisix_developer_portal.Subscriptions.Repo.Whitelists.{
  sandbox_consumers_for_product, consumers_for_product,
}
use apisix_developer_portal.Subscriptions.Service.{
  on_sandbox, log, log_event, notify, on_gateway, new_key, sandbox_enabled, dedup, add_missing,
  add_non_empty,
}
use apisix_developer_portal.Subscriptions.Service.Approval.{
  reject, approve, approve_keys, grant_sandbox, announce,
}
use apisix_developer_portal.Subscriptions.Service.Lifecycle.{
  unsubscribe, request, subscribe_to, subscribe,
}
use apisix_developer_portal.Subscriptions.Service.Routes.{
  reprovision_sandbox_route, reprovision_route, provision_keys,
}
use apisix_developer_portal.Subscriptions.Repo.{delete_subscription, remove_subscriptions}
use apisix_developer_portal.Subscriptions.Provisioning.{Admits, Holds}
use apisix_developer_portal.Subscriptions.Provisioning.Operations.{
  subscribing, approving, perform, after-Holds, Holds-initial,
}
use apisix_developer_portal.Subscriptions.Provisioning.Revoked.{unsubscribe_revokes, reject_revokes}
use apisix_developer_portal.Tests.{unseal, portal, opening}
use apisix_developer_portal.Tests.Provisioning.{requested, approved, approved_row, approved_rows}

abbrev now : Run
now = record { state = approved; faults = [] }

pub approved-Holds : Holds approved
approved-Holds =
    after-Holds portal (approving 1) [] requested
      (after-Holds portal (subscribing 1 7 2) [] opening (Holds-initial opening refl refl))

unsubscribed : (unsubscribe portal 1 7 now).0 ≡ ok tt
unfolding perform unseal pure raise lift try step call ◌>>=◌ get_product get_plan save_subscription
    upsert_subscription get_subscription set_subscription_status request subscribe_to subscribe
    approve approve_keys grant_sandbox announce log log_event notify on_gateway new_key encrypt
    get_or_create_credential get_credential upsert_credential reprovision_route provision_keys
    consumers_for_product ensure_consumer ensure_route subscription_activated plan_pricing
    team_for_app ensure_account pending_invoice_exists create_invoice get_sandbox_key
    sandbox_enabled dedup add_missing add_non_empty consumer_name route_id format_int distinct
    order_by subscription_status unsubscribe reject delete_subscription remove_subscriptions
    delete_route reprovision_sandbox_route sandbox_consumers_for_product on_sandbox
unsubscribed = refl

rejected : (reject portal 1 now).0 ≡ ok tt
unfolding perform unseal pure raise lift try step call ◌>>=◌ get_product get_plan save_subscription
    upsert_subscription get_subscription set_subscription_status request subscribe_to subscribe
    approve approve_keys grant_sandbox announce log log_event notify on_gateway new_key encrypt
    get_or_create_credential get_credential upsert_credential reprovision_route provision_keys
    consumers_for_product ensure_consumer ensure_route subscription_activated plan_pricing
    team_for_app ensure_account pending_invoice_exists create_invoice get_sandbox_key
    sandbox_enabled dedup add_missing add_non_empty consumer_name route_id format_int distinct
    order_by subscription_status unsubscribe reject delete_subscription remove_subscriptions
    delete_route reprovision_sandbox_route sandbox_consumers_for_product on_sandbox
rejected = refl

unsubscribe_revokes_example : ¬ Admits (unsubscribe portal 1 7 now).1.state.gw.routes 1 7
unsubscribe_revokes_example = unsubscribe_revokes portal 1 7 now approved-Holds unsubscribed

reject_revokes_example : ¬ Admits (reject portal 1 now).1.state.gw.routes 1 7
reject_revokes_example =
    reject_revokes portal approved_row now approved-Holds (rw approved_rows.0 (head refl)) rejected
