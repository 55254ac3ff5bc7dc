-- ===== src/Subscriptions/Provisioning/Keying.antt =====
-- Requests, cancellations, changes of keys, of a plan's limits and of client ids, and the invariant.
use apisix_developer_portal.Common.{ℕ, String, List, [], ◌∷◌, inl, inr, ◌==◌, any, Bool-cases}
use apisix_developer_portal.Apisix.{RateLimit, ensure_consumer}
use apisix_developer_portal.Db.{ApplicationRow}
use apisix_developer_portal.Effects.{Error}
use apisix_developer_portal.Effects.Triple.{Triple-weaken}
use apisix_developer_portal.Subscriptions.Model.{Credential, PlanInfo, ProductInfo}
use apisix_developer_portal.Subscriptions.Repo.{
  get_product, get_plan, subscription_status, set_app_oidc_client_id,
}
use apisix_developer_portal.Subscriptions.Repo.Keys.{get_credential, get_or_create_credential}
use apisix_developer_portal.Subscriptions.Repo.Whitelists.{
  active_plan_for_app, sandbox_products_for_app, oauth_products_for_app, consumers_for_plan,
  sandbox_consumers_for_plan,
}
use apisix_developer_portal.Subscriptions.Service.{Service, new_key, on_gateway, on_sandbox}
use apisix_developer_portal.Subscriptions.Service.Routes.{reprovision_all, set_oidc_client_id}
use apisix_developer_portal.Subscriptions.Service.Lifecycle.{
  request, subscribe_to, subscribe, unsubscribe,
}
use apisix_developer_portal.Subscriptions.Service.Approval.{limit_of, install_all, reprovision_plan}
use apisix_developer_portal.Subscriptions.Service.Keys.{
  credential_or, grant_products, enable_sandbox, rotate_sandbox_key, rotate_key,
}
use apisix_developer_portal.Subscriptions.Provisioning.Gateways.{ensure_consumer-IsProvisioned}
use apisix_developer_portal.Subscriptions.Provisioning.Quiet.{
  IsQuiet, IsQuiet-pure, IsQuiet-bind, IsQuiet-call, quiet_rules, new_key-IsQuiet,
  log_event-IsQuiet, notify-IsQuiet, on_sandbox-IsQuiet, reprovision_sandbox_route-IsQuiet,
  get_sandbox_key-IsQuiet,
}
use apisix_developer_portal.Subscriptions.Provisioning.Requests.{
  Keeps, Keeps-bind, Keeps-quiet, Keeps-call, keeps_rules, save_subscription-Keeps,
  delete_subscription-Keeps,
}
use apisix_developer_portal.Subscriptions.Provisioning.Credentials.{
  get_or_create_credential-Issued, update_credential_key-Keeps, update_sandbox_key-Keeps,
}
use apisix_developer_portal.Subscriptions.Provisioning.Approving.{reprovision_route-Keeps}

ensure_consumer-Keeps :
    (username key : String) (limit : RateLimit)
    → Keeps (on_gateway (ensure_consumer username key limit))
unfolding on_gateway
ensure_consumer-Keeps username key limit =
    Keeps-call _ (λ s h. ensure_consumer-IsProvisioned username key limit h)

get_or_create_credential-Keeps :
    (svc : Service) (app_id : ℕ) → Keeps (get_or_create_credential svc.cipher app_id (new_key svc))
get_or_create_credential-Keeps svc app_id = record {
  holds =
      Triple-weaken _
        (get_or_create_credential-Issued (λ _ _. Unit {0}) app_id svc.cipher (new_key svc)
          (new_key-IsQuiet svc))
        (λ s h. (h, tt)) (λ _ s p. p.0) (λ s h. h);
}

set_app_oidc_client_id-IsQuiet :
    (app_id : ℕ) (client_id : String) → IsQuiet (set_app_oidc_client_id app_id client_id)
unfolding set_app_oidc_client_id
set_app_oidc_client_id-IsQuiet app_id client_id = IsQuiet-call _ λ C s h.
    elim (Bool-cases (any (λ (a : ApplicationRow). a.id == app_id) s.db.applications)) [
      | inl t ↦ rw t h
      | inr t ↦ rw t h
    ]

module _ (svc : Service) where
  request-Keeps : (app_id product_id plan_id : ℕ) → Keeps (request svc app_id product_id plan_id)
  unfolding request
  request-Keeps app_id product_id plan_id =
      search (keeps_rules, quiet_rules, save_subscription-Keeps, log_event-IsQuiet, notify-IsQuiet)
        depth 9

  subscribe_to-Keeps :
      (auth_type : String) (app_id product_id plan_id : ℕ)
      → Keeps (subscribe_to svc auth_type app_id product_id plan_id)
  unfolding subscribe_to
  subscribe_to-Keeps auth_type app_id product_id plan_id =
      search (keeps_rules, quiet_rules, request-Keeps, get_or_create_credential-Keeps) depth 9

  pub subscribe-Keeps :
      (app_id product_id plan_id : ℕ) → Keeps (subscribe svc app_id product_id plan_id)
  unfolding subscribe get_product get_plan subscription_status
  subscribe-Keeps app_id product_id plan_id =
      search (keeps_rules, quiet_rules, subscribe_to-Keeps) depth 14

  pub unsubscribe-Keeps : (app_id product_id : ℕ) → Keeps (unsubscribe svc app_id product_id)
  unfolding unsubscribe
  unsubscribe-Keeps app_id product_id =
      search
        (
          keeps_rules, delete_subscription-Keeps, log_event-IsQuiet, reprovision_route-Keeps,
          reprovision_sandbox_route-IsQuiet,
        )
        depth 9

  install_all-Keeps :
      (plan : PlanInfo) (cs : List Credential) → Keeps (install_all svc on_gateway plan cs)
  unfolding install_all
  install_all-Keeps plan [] = Keeps-quiet _ (IsQuiet-pure tt)
  install_all-Keeps plan (c ∷ cs) =
      Keeps-bind _ _ (ensure_consumer-Keeps c.consumer_username c.api_key (limit_of plan))
        (λ _. install_all-Keeps plan cs)

  install_all-IsQuiet :
      (plan : PlanInfo) (cs : List Credential) → IsQuiet (install_all svc on_sandbox plan cs)
  unfolding install_all
  install_all-IsQuiet plan [] = IsQuiet-pure tt
  install_all-IsQuiet plan (c ∷ cs) =
      IsQuiet-bind _ _ (on_sandbox-IsQuiet _) (λ _. install_all-IsQuiet plan cs)

  pub reprovision_plan-Keeps : (plan_id : ℕ) → Keeps (reprovision_plan svc plan_id)
  unfolding reprovision_plan get_plan consumers_for_plan sandbox_consumers_for_plan
  reprovision_plan-Keeps plan_id =
      search (keeps_rules, quiet_rules, install_all-Keeps, install_all-IsQuiet) depth 14

  reprovision_all-Keeps : (ps : List ProductInfo) → Keeps (reprovision_all svc ps)
  unfolding reprovision_all
  reprovision_all-Keeps [] = Keeps-quiet _ (IsQuiet-pure tt)
  reprovision_all-Keeps (p ∷ ps) =
      Keeps-bind _ _ (reprovision_route-Keeps svc p.id []) (λ _. reprovision_all-Keeps ps)

  pub set_oidc_client_id-Keeps :
      (app_id : ℕ) (client_id : String) → Keeps (set_oidc_client_id svc app_id client_id)
  unfolding set_oidc_client_id oauth_products_for_app
  set_oidc_client_id-Keeps app_id client_id =
      search (keeps_rules, quiet_rules, set_app_oidc_client_id-IsQuiet, reprovision_all-Keeps) depth
        12

  credential_or-IsQuiet : (e : Error) (app_id : ℕ) → IsQuiet (credential_or svc e app_id)
  unfolding credential_or get_credential
  credential_or-IsQuiet e app_id = search quiet_rules depth 9

  grant_products-IsQuiet :
      (username : String) (ps : List ProductInfo) → IsQuiet (grant_products svc username ps)
  unfolding grant_products
  grant_products-IsQuiet username [] = IsQuiet-pure tt
  grant_products-IsQuiet username (p ∷ ps) =
      IsQuiet-bind _ _ (reprovision_sandbox_route-IsQuiet svc p.id (username ∷ []))
        (λ _. grant_products-IsQuiet username ps)

  pub enable_sandbox-Keeps : (app_id : ℕ) → Keeps (enable_sandbox svc app_id)
  unfolding enable_sandbox active_plan_for_app sandbox_products_for_app
  enable_sandbox-Keeps app_id =
      search
        (
          keeps_rules, quiet_rules, credential_or-IsQuiet, get_sandbox_key-IsQuiet, new_key-IsQuiet,
          on_sandbox-IsQuiet, update_sandbox_key-Keeps, grant_products-IsQuiet, log_event-IsQuiet,
        )
        depth 25 fits 20000

  pub rotate_sandbox_key-Keeps : (app_id : ℕ) → Keeps (rotate_sandbox_key svc app_id)
  unfolding rotate_sandbox_key active_plan_for_app
  rotate_sandbox_key-Keeps app_id =
      search
        (
          keeps_rules, quiet_rules, credential_or-IsQuiet, get_sandbox_key-IsQuiet, new_key-IsQuiet,
          on_sandbox-IsQuiet, update_sandbox_key-Keeps, log_event-IsQuiet,
        )
        depth 22

  pub rotate_key-Keeps : (app_id : ℕ) → Keeps (rotate_key svc app_id)
  unfolding rotate_key active_plan_for_app
  rotate_key-Keeps app_id =
      search
        (
          keeps_rules, quiet_rules, credential_or-IsQuiet, new_key-IsQuiet, ensure_consumer-Keeps,
          update_credential_key-Keeps, log_event-IsQuiet,
        )
        depth 18
