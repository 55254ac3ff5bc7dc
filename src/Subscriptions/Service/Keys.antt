-- ===== src/Subscriptions/Service/Keys.antt =====
-- internal/subscriptions/service.go: the sandbox of an application, and the rotation of its keys.
use apisix_developer_portal.Common.{
  ℕ, String, not, none, List, [], ◌∷◌, str_eq, if◌then◌else◌, is_empty,
}
use apisix_developer_portal.Apisix.{ensure_consumer}
use apisix_developer_portal.Effects.{
  Error, not_found, no_credential, no_active_subscription, no_sandbox_key, sandbox_not_configured,
  no_sandbox_eligible_subscription, Result, ok, err, M, pure, raise, lift, try, ◌>>=◌, ◌>>◌,
}
use apisix_developer_portal.Subscriptions.Model.{Credential, ProductInfo}
use apisix_developer_portal.Subscriptions.Repo.Keys.{
  get_credential, get_sandbox_key, update_credential_key, update_sandbox_key,
}
use apisix_developer_portal.Subscriptions.Repo.Whitelists.{
  active_plan_for_app, sandbox_products_for_app,
}
use apisix_developer_portal.Subscriptions.Service.{
  Service, sandbox_enabled, new_key, log_event, on_gateway, on_sandbox,
}
use apisix_developer_portal.Subscriptions.Service.Approval.{limit_of}
use apisix_developer_portal.Subscriptions.Service.Routes.{reprovision_sandbox_route}

-- `if errors.Is(err, ErrNotFound) { return e }`
abbrev pub absent_is : {A : Type 0} → Error → Result A → Result A
absent_is e (ok a) = ok a
absent_is e (err not_found) = err e
absent_is e (err e') = err e'

-- The same test for `ErrNoActiveSubscription`.
abbrev pub inactive_is : {A : Type 0} → Error → Result A → Result A
inactive_is e (ok a) = ok a
inactive_is e (err no_active_subscription) = err e
inactive_is e (err e') = err e'

module _ (svc : Service) where
  unfoldable pub credential_or : Error → ℕ → M Credential
  credential_or e app_id = do
    found ← try (get_credential svc.cipher app_id)
    lift (absent_is e found)

  -- The loop of `EnableSandbox` over the products.
  unfoldable pub grant_products : String → List ProductInfo → M (Unit {0})
  grant_products username [] = pure tt
  grant_products username (p ∷ ps) = do
    reprovision_sandbox_route svc p.id (username ∷ [])
    grant_products username ps

  unfoldable pub enable_sandbox : ℕ → M String
  unfolding credential_or grant_products
  enable_sandbox app_id = if not (sandbox_enabled svc) then raise sandbox_not_configured else do
    cred ← credential_or no_sandbox_eligible_subscription app_id
    found ← try (active_plan_for_app app_id)
    plan ← lift (inactive_is no_sandbox_eligible_subscription found)
    products ← sandbox_products_for_app app_id
    if is_empty products then raise no_sandbox_eligible_subscription else do
      stored ← get_sandbox_key svc.cipher app_id
      key ← if str_eq stored "" then new_key svc else pure stored
      on_sandbox (ensure_consumer cred.consumer_username key (limit_of plan))
      update_sandbox_key svc.cipher app_id key
      grant_products cred.consumer_username products
      log_event svc app_id "sandbox_enabled" none none
      pure key

  unfoldable pub rotate_sandbox_key : ℕ → M String
  unfolding credential_or
  rotate_sandbox_key app_id = if not (sandbox_enabled svc) then raise sandbox_not_configured else do
    cred ← credential_or no_sandbox_key app_id
    existing ← get_sandbox_key svc.cipher app_id
    if str_eq existing "" then raise no_sandbox_key else do
      plan ← active_plan_for_app app_id
      key ← new_key svc
      on_sandbox (ensure_consumer cred.consumer_username key (limit_of plan))
      update_sandbox_key svc.cipher app_id key
      log_event svc app_id "sandbox_key_rotated" none none
      pure key

  unfoldable pub rotate_key : ℕ → M String
  unfolding credential_or
  rotate_key app_id = do
    cred ← credential_or no_credential app_id
    plan ← active_plan_for_app app_id
    key ← new_key svc
    on_gateway (ensure_consumer cred.consumer_username key (limit_of plan))
    update_credential_key svc.cipher app_id key
    log_event svc app_id "key_rotated" none none
    pure key
