-- ===== src/Subscriptions/Service/Approval.antt =====
-- internal/subscriptions/service.go: an administrator approves or rejects a subscription, and a
-- plan's limits are pushed to its subscribers.
use apisix_developer_portal.Common.{
  ℕ, String, not, some, none, List, [], ◌∷◌, str_eq, if◌then◌else◌,
}
use apisix_developer_portal.Apisix.{Gateway, RateLimit, ensure_consumer}
use apisix_developer_portal.Billing.{subscription_activated}
use apisix_developer_portal.Effects.{
  invalid_transition, Result, ok, err, subscription_approved, subscription_rejected, M, pure, raise,
  try, ◌>>=◌, ◌>>◌,
}
use apisix_developer_portal.Subscriptions.Model.{
  Credential, PlanInfo, SubscriptionRecord, status_active, status_rejected,
}
use apisix_developer_portal.Subscriptions.Repo.{
  get_product, get_plan, get_subscription, set_subscription_status, get_app_oidc_client_id,
}
use apisix_developer_portal.Subscriptions.Repo.Keys.{get_or_create_credential, get_sandbox_key}
use apisix_developer_portal.Subscriptions.Repo.Whitelists.{
  consumers_for_plan, sandbox_consumers_for_plan,
}
use apisix_developer_portal.Subscriptions.Service.{
  Service, sandbox_enabled, new_key, log_event, notify, on_gateway, on_sandbox,
}
use apisix_developer_portal.Subscriptions.Service.Routes.{
  reprovision_route, reprovision_sandbox_route,
}

abbrev pub limit_of : PlanInfo → RateLimit
limit_of plan = record { count = plan.count; window_seconds = plan.window_seconds }

-- `EnsureConsumer` for a credential under a plan.
abbrev pub install : Credential → PlanInfo → Gateway → Gateway
install cred plan = ensure_consumer cred.consumer_username cred.api_key (limit_of plan)

-- `cid, _ := …`: the client id, empty after an error.
abbrev pub or_empty : Result String → String
or_empty (ok client_id) = client_id
or_empty (err _) = ""

module _ (svc : Service) where
  -- The end of `Approve`, the same on both branches. `sub.id` is the id that `Approve` is asked for:
  -- the row was found by it.
  unfoldable pub announce : SubscriptionRecord → M (Unit {0})
  announce sub = do
    log_event svc sub.app_id "approved" (some sub.product_id) (some sub.plan_id)
    notify svc (subscription_approved sub.app_id sub.product_id sub.plan_id)
    if svc.biller then subscription_activated sub.app_id sub.id sub.plan_id else pure tt

  unfoldable pub approve_oauth : SubscriptionRecord → M (Unit {0})
  approve_oauth sub = do
    client_id ← try (get_app_oidc_client_id sub.app_id)
    reprovision_route svc sub.product_id (or_empty client_id ∷ [])
    set_subscription_status sub.id status_active
    announce sub

  -- `if sk, err := …; err == nil && sk != ""`: an error of the lookup means no sandbox route.
  unfoldable pub grant_sandbox : SubscriptionRecord → String → M (Unit {0})
  grant_sandbox sub username = if not (sandbox_enabled svc) then pure tt else do
    key ← try (get_sandbox_key svc.cipher sub.app_id)
    if str_eq (or_empty key) ""
        then pure tt
        else reprovision_sandbox_route svc sub.product_id (username ∷ [])

  unfoldable pub approve_keys : SubscriptionRecord → M (Unit {0})
  approve_keys sub = do
    plan ← get_plan sub.plan_id
    cred ← get_or_create_credential svc.cipher sub.app_id (new_key svc)
    on_gateway (install cred plan)
    reprovision_route svc sub.product_id (cred.consumer_username ∷ [])
    set_subscription_status sub.id status_active
    grant_sandbox sub cred.consumer_username
    announce sub

  unfoldable pub approve : ℕ → M (Unit {0})
  approve sub_id = do
    sub ← get_subscription sub_id
    if str_eq sub.status status_rejected then raise invalid_transition else do
      prod ← get_product sub.product_id
      if str_eq prod.auth_type "oauth2" then approve_oauth sub else approve_keys sub

  unfoldable pub reject : ℕ → M (Unit {0})
  reject sub_id = do
    sub ← get_subscription sub_id
    if str_eq sub.status status_rejected then raise invalid_transition else do
      set_subscription_status sub_id status_rejected
      log_event svc sub.app_id "rejected" (some sub.product_id) none
      notify svc (subscription_rejected sub.app_id sub.product_id)
      reprovision_route svc sub.product_id []
      reprovision_sandbox_route svc sub.product_id []

  -- The loop of `ReprovisionPlan` on one gateway.
  unfoldable pub install_all :
      ((Gateway → Gateway) → M (Unit {0})) → PlanInfo → List Credential → M (Unit {0})
  install_all on plan [] = pure tt
  install_all on plan (c ∷ cs) = do on (install c plan); install_all on plan cs

  unfoldable pub reprovision_plan : ℕ → M (Unit {0})
  unfolding install_all
  reprovision_plan plan_id = do
    plan ← get_plan plan_id
    consumers ← consumers_for_plan svc.cipher plan_id
    install_all on_gateway plan consumers
    if not (sandbox_enabled svc) then pure tt else do
      sandbox_consumers ← sandbox_consumers_for_plan svc.cipher plan_id
      install_all on_sandbox plan sandbox_consumers
