-- ===== src/Subscriptions/Service/Lifecycle.antt =====
-- internal/subscriptions/service.go: an application subscribes, unsubscribes, and is deleted.
use apisix_developer_portal.Common.{
  ℕ, String, ◌||◌, not, some, none, List, [], ◌∷◌, str_eq, if◌then◌else◌,
}
use apisix_developer_portal.Apisix.{delete_consumer}
use apisix_developer_portal.Effects.{
  not_found, already_subscribed, product_deprecated, ok, err, subscription_requested, M, pure,
  raise, try, ◌>>=◌, ◌>>◌,
}
use apisix_developer_portal.Subscriptions.Model.{
  Credential, SubscriptionView, no_key, status_active,
}
use apisix_developer_portal.Subscriptions.Repo.{
  get_product, get_plan, subscription_status, save_subscription, delete_subscription,
  delete_application,
}
use apisix_developer_portal.Subscriptions.Repo.Keys.{
  get_or_create_credential, get_credential, get_sandbox_key,
}
use apisix_developer_portal.Subscriptions.Repo.Whitelists.{subscriptions_for_app}
use apisix_developer_portal.Subscriptions.Service.{
  Service, sandbox_enabled, new_key, log_event, notify, on_gateway, on_sandbox,
}
use apisix_developer_portal.Subscriptions.Service.Routes.{
  reprovision_route, reprovision_sandbox_route,
}

module _ (svc : Service) where
  -- The writes of `Subscribe`, which both branches make.
  unfoldable pub request : ℕ → ℕ → ℕ → M (Unit {0})
  request app_id product_id plan_id = do
    save_subscription app_id product_id plan_id
    log_event svc app_id "subscribed" (some product_id) (some plan_id)
    notify svc (subscription_requested app_id product_id plan_id)

  -- The tail of `Subscribe` behind its guards.
  unfoldable pub subscribe_to : String → ℕ → ℕ → ℕ → M Credential
  subscribe_to auth_type app_id product_id plan_id =
      if str_eq auth_type "oauth2" then (do request app_id product_id plan_id; pure no_key) else (do
        cred ← get_or_create_credential svc.cipher app_id (new_key svc)
        request app_id product_id plan_id
        pure cred)

  unfoldable pub subscribe : ℕ → ℕ → ℕ → M Credential
  subscribe app_id product_id plan_id = do
    prod ← get_product product_id
    if not prod.published
        then raise not_found
        else if str_eq prod.lifecycle_status "deprecated" || str_eq prod.lifecycle_status "sunset"
        then raise product_deprecated
        else do
          get_plan plan_id
          existing ← subscription_status app_id product_id
          if str_eq existing status_active
              then raise already_subscribed
              else subscribe_to prod.auth_type app_id product_id plan_id

  unfoldable pub unsubscribe : ℕ → ℕ → M (Unit {0})
  unsubscribe app_id product_id = do
    delete_subscription app_id product_id
    log_event svc app_id "unsubscribed" (some product_id) none
    reprovision_route svc product_id []
    reprovision_sandbox_route svc product_id []

  unfoldable pub unsubscribe_all : ℕ → List SubscriptionView → M (Unit {0})
  unsubscribe_all app_id [] = pure tt
  unsubscribe_all app_id (s ∷ ss) = do unsubscribe app_id s.product_id; unsubscribe_all app_id ss

  -- The `default` case of the switch: the application has a credential.
  unfoldable pub remove_consumers : ℕ → Credential → M (Unit {0})
  remove_consumers app_id cred = do
    on_gateway (delete_consumer cred.consumer_username)
    if not (sandbox_enabled svc) then pure tt else do
      key ← get_sandbox_key svc.cipher app_id
      if str_eq key "" then pure tt else on_sandbox (delete_consumer cred.consumer_username)

  unfoldable pub delete_application_and_routes : ℕ → M (Unit {0})
  delete_application_and_routes app_id = do
    subs ← subscriptions_for_app svc.collate app_id
    unsubscribe_all app_id subs
    cred ← try (get_credential svc.cipher app_id)
    elim cred [ err not_found ↦ pure tt | err e ↦ raise e | ok c ↦ remove_consumers app_id c ]
    delete_application app_id
