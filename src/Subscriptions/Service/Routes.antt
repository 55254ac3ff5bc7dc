-- ===== src/Subscriptions/Service/Routes.antt =====
-- internal/subscriptions/service.go: the routes of a product on the two gateways.
use apisix_developer_portal.Common.{
  ℕ, String, List, [], ◌∷◌, str_eq, if◌then◌else◌, is_empty, length, ◌||◌, not, ◌&&◌,
}
use apisix_developer_portal.Apisix.{ensure_route, ensure_oauth_route, delete_route}
use apisix_developer_portal.Apisix.ClientId.{valid_client_id}
use apisix_developer_portal.Effects.{M, invalid_client_id, pure, raise, ◌>>=◌, ◌>>◌}
use apisix_developer_portal.Subscriptions.Model.{ProductInfo, route_id}
use apisix_developer_portal.Subscriptions.Repo.{get_product, set_app_oidc_client_id}
use apisix_developer_portal.Subscriptions.Repo.Whitelists.{
  consumers_for_product, sandbox_consumers_for_product, oauth_clients_for_product,
  oauth_products_for_app,
}
use apisix_developer_portal.Subscriptions.Service.{
  Service, oidc, sandbox_enabled, on_gateway, on_sandbox, dedup, add_missing, add_non_empty,
}

-- The branch for `AuthType == "oauth2"`.
unfoldable pub provision_oauth : Service → ℕ → ProductInfo → List String → M (Unit {0})
unfolding add_non_empty dedup oidc
provision_oauth svc product_id prod extra = do
  clients ← oauth_clients_for_product product_id
  let allowed = add_non_empty clients extra
  let conf = oidc svc
  if is_empty allowed || str_eq conf.issuer ""
      then on_gateway (delete_route (route_id prod.id))
      else on_gateway (
          ensure_oauth_route (route_id prod.id) prod.context_path prod.upstream conf.issuer
            conf.claim (dedup allowed))

-- The branch for keys.
unfoldable pub provision_keys : ℕ → ProductInfo → List String → M (Unit {0})
unfolding add_missing
provision_keys product_id prod extra = do
  consumers ← consumers_for_product product_id
  let allowed = add_missing consumers extra
  if is_empty allowed
      then on_gateway (delete_route (route_id prod.id))
      else on_gateway (ensure_route (route_id prod.id) prod.context_path prod.upstream allowed)

-- `reprovisionRoute`
unfoldable pub reprovision_route : Service → ℕ → List String → M (Unit {0})
unfolding provision_oauth provision_keys
reprovision_route svc product_id extra = do
  prod ← get_product product_id
  if str_eq prod.auth_type "oauth2"
      then provision_oauth svc product_id prod extra
      else provision_keys product_id prod extra

unfoldable pub deprovision_route : ℕ → M (Unit {0})
deprovision_route product_id = on_gateway (delete_route (route_id product_id))

unfoldable pub oauth_ready_consumer_count : ℕ → M ℕ
oauth_ready_consumer_count product_id = do
  clients ← oauth_clients_for_product product_id
  pure (length clients)

unfoldable pub provision_sandbox : ℕ → ProductInfo → List String → M (Unit {0})
unfolding add_missing
provision_sandbox product_id prod extra = do
  consumers ← sandbox_consumers_for_product product_id
  let allowed = add_missing consumers extra
  if is_empty allowed
      then on_sandbox (delete_route (route_id prod.id))
      else on_sandbox
          (ensure_route (route_id prod.id) prod.context_path prod.sandbox_upstream allowed)

unfoldable pub reprovision_sandbox_route : Service → ℕ → List String → M (Unit {0})
unfolding provision_sandbox
reprovision_sandbox_route svc product_id extra = if not (sandbox_enabled svc) then pure tt else do
  prod ← get_product product_id
  if str_eq prod.sandbox_upstream ""
      then on_sandbox (delete_route (route_id prod.id))
      else provision_sandbox product_id prod extra

-- The loop over the products of an application.
unfoldable pub reprovision_all : Service → List ProductInfo → M (Unit {0})
reprovision_all svc [] = pure tt
reprovision_all svc (p ∷ ps) = do reprovision_route svc p.id []; reprovision_all svc ps

unfoldable pub set_oidc_client_id : Service → ℕ → String → M (Unit {0})
unfolding reprovision_all
set_oidc_client_id svc app_id client_id =
    if not (str_eq client_id "") && not (valid_client_id client_id)
    then raise invalid_client_id
    else do
      set_app_oidc_client_id app_id client_id
      products ← oauth_products_for_app app_id
      reprovision_all svc products
