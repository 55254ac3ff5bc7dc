-- ===== src/Subscriptions/Preserving/Operations.antt =====
-- The operations of the service, and facts of the subscriptions and the invoices.
use apisix_developer_portal.Common.{
  ap, sym, subst, ◌∙◌, ◌≡◌, ◌==◌, ==_iff, find, find-mem, Option-cases, inl, inr, ℕ, String, List,
  [], ◌∷◌,
}
use apisix_developer_portal.Db.{SubscriptionRow, Db}
use apisix_developer_portal.Effects.{Error, err, ok, not_found, Result, M, pure, raise}
use apisix_developer_portal.Effects.Preserves.{
  Preserves, Preserves-pure, Preserves-raise, Preserves-bind, Preserves-query, Preserves-try,
  Preserves-if, Preserves-query_bind, preserves_rules,
}
use apisix_developer_portal.Apisix.{Gateway}
use apisix_developer_portal.Subscriptions.Model.{
  ProductInfo, PlanInfo, Credential, SubscriptionRecord, SubscriptionView, status_active,
  status_rejected,
}
use apisix_developer_portal.Billing.{subscription_activated}
use apisix_developer_portal.Subscriptions.Repo.{
  found_subscription, subscription_record, get_product, get_plan, get_subscription,
  subscription_status, save_subscription, delete_subscription, delete_application,
  set_subscription_status, get_app_oidc_client_id,
}
use apisix_developer_portal.Subscriptions.Repo.Whitelists.{
  subscriptions_for_app, active_plan_for_app, sandbox_products_for_app, consumers_for_plan,
  sandbox_consumers_for_plan,
}
use apisix_developer_portal.Admin.Products.{delete_row, count_active_subscriptions, delete}
use apisix_developer_portal.Subscriptions.Service.{Service}
use apisix_developer_portal.Subscriptions.Service.Routes.{deprovision_route}
use apisix_developer_portal.Subscriptions.Service.Lifecycle.{
  request, subscribe_to, subscribe, unsubscribe, unsubscribe_all, remove_consumers,
  delete_application_and_routes,
}
use apisix_developer_portal.Subscriptions.Service.Approval.{
  announce, approve_oauth, grant_sandbox, approve_keys, approve, reject, install_all,
  reprovision_plan,
}
use apisix_developer_portal.Subscriptions.Service.Keys.{
  credential_or, grant_products, enable_sandbox, rotate_sandbox_key, rotate_key,
}
use apisix_developer_portal.Subscriptions.Preserving.{
  Fact, OfRows, new_key-Preserves, log_event-Preserves, notify-Preserves, on_gateway-Preserves,
  on_sandbox-Preserves, get_or_create_credential-Preserves, get_credential-Preserves,
  get_sandbox_key-Preserves, update_credential_key-Preserves, update_sandbox_key-Preserves,
  reprovision_route-Preserves, reprovision_sandbox_route-Preserves,
}

pub ruleset service_rules = (
  preserves_rules, new_key-Preserves, log_event-Preserves, notify-Preserves, on_gateway-Preserves,
  on_sandbox-Preserves, get_credential-Preserves, get_sandbox_key-Preserves,
  update_credential_key-Preserves, update_sandbox_key-Preserves, get_or_create_credential-Preserves,
  reprovision_route-Preserves, reprovision_sandbox_route-Preserves,
)

found_id :
    (d : Db) (sub_id : ℕ) (sub : SubscriptionRecord)
    → found_subscription d sub_id ≡ ok sub
    → sub.id ≡ sub_id
found_id d sub_id sub e =
    elim (Option-cases (find (λ (s : SubscriptionRow). s.id == sub_id) d.subscriptions)) [
      | inl missing ↦
          let k : err not_found ≡ ok sub = rw (missing, found_subscription) at e in absurd cc
      | inr (s, there) ↦
          let k : ok (subscription_record s) ≡ ok sub = rw (there, found_subscription) at e in
          let same : subscription_record s ≡ sub = cc in
          ap (λ x. x.id) (sym same)
          ∙ (==_iff s.id sub_id).0
              (find-mem (λ (s : SubscriptionRow). s.id == sub_id) d.subscriptions there).1
    ]

-- Operations that write neither table.
module _ (F : Fact) (svc : Service) where
  credential_or-Preserves :
      (e : Error) (app_id : ℕ) → Preserves (OfRows F) (credential_or svc e app_id)
  unfolding credential_or
  credential_or-Preserves e app_id = search service_rules depth 7

  grant_products-Preserves :
      (username : String) (prods : List ProductInfo)
      → Preserves (OfRows F) (grant_products svc username prods)
  unfolding grant_products
  grant_products-Preserves username [] = Preserves-pure tt
  grant_products-Preserves username (p ∷ ps) =
      Preserves-bind _ _ (reprovision_sandbox_route-Preserves F svc p.id (username ∷ []))
        (λ _. grant_products-Preserves username ps)

  pub enable_sandbox-Preserves : (app_id : ℕ) → Preserves (OfRows F) (enable_sandbox svc app_id)
  unfolding enable_sandbox active_plan_for_app sandbox_products_for_app
  enable_sandbox-Preserves app_id =
      search (service_rules, credential_or-Preserves, grant_products-Preserves) depth 30 fits 4000

  pub rotate_sandbox_key-Preserves :
      (app_id : ℕ) → Preserves (OfRows F) (rotate_sandbox_key svc app_id)
  unfolding rotate_sandbox_key active_plan_for_app
  rotate_sandbox_key-Preserves app_id =
      search (service_rules, credential_or-Preserves) depth 30 fits 4000

  pub rotate_key-Preserves : (app_id : ℕ) → Preserves (OfRows F) (rotate_key svc app_id)
  unfolding rotate_key active_plan_for_app
  rotate_key-Preserves app_id = search (service_rules, credential_or-Preserves) depth 30 fits 4000

  install_all-Preserves :
      (on : (Gateway → Gateway) → M (Unit {0})) (plan : PlanInfo) (creds : List Credential)
      → ((change : Gateway → Gateway) → Preserves (OfRows F) (on change))
      → Preserves (OfRows F) (install_all svc on plan creds)
  unfolding install_all
  install_all-Preserves on plan [] kept = Preserves-pure tt
  install_all-Preserves on plan (c ∷ cs) kept =
      Preserves-bind _ _ (kept _) (λ _. install_all-Preserves on plan cs kept)

  pub reprovision_plan-Preserves :
      (plan_id : ℕ) → Preserves (OfRows F) (reprovision_plan svc plan_id)
  unfolding reprovision_plan get_plan consumers_for_plan sandbox_consumers_for_plan
  reprovision_plan-Preserves plan_id =
      search (service_rules, install_all-Preserves) depth 20 fits 4000

  announced :
      (sub : SubscriptionRecord)
      → ((app_id id plan_id : ℕ) → Preserves (OfRows F) (subscription_activated app_id id plan_id))
      → Preserves (OfRows F) (announce svc sub)
  unfolding announce
  announced sub billed = search (service_rules, billed) depth 9

  grant_sandbox-Preserves :
      (sub : SubscriptionRecord) (username : String)
      → Preserves (OfRows F) (grant_sandbox svc sub username)
  unfolding grant_sandbox
  grant_sandbox-Preserves sub username = search service_rules depth 9

  approved :
      (sub : SubscriptionRecord)
      → Preserves (OfRows F) (set_subscription_status sub.id status_active)
      → ((app_id id plan_id : ℕ) → Preserves (OfRows F) (subscription_activated app_id id plan_id))
      → (Preserves (OfRows F) (approve_oauth svc sub))
        × (Preserves (OfRows F) (approve_keys svc sub))
  unfolding approve_oauth approve_keys get_plan get_app_oidc_client_id
  approved sub activated billed = (
    search (service_rules, announced) depth 30 fits 4000,
    search (service_rules, announced, grant_sandbox-Preserves) depth 30 fits 4000,
  )

  -- An approval writes the status of the subscription it is asked for, and bills it.
  pub approve-Preserves :
      (sub_id : ℕ)
      → Preserves (OfRows F) (set_subscription_status sub_id status_active)
      → ((app_id id plan_id : ℕ) → Preserves (OfRows F) (subscription_activated app_id id plan_id))
      → Preserves (OfRows F) (approve svc sub_id)
  unfolding approve get_subscription get_product
  approve-Preserves sub_id activated billed =
      Preserves-query_bind (λ d. found_subscription d sub_id) _
        λ sub d e. Preserves-if _ _ _ (Preserves-raise _) (
          Preserves-bind _ _ (Preserves-query _) λ prod.
            let both = approved sub (same_status d sub e) billed in
            Preserves-if _ _ _ both.0 both.1)
    where
      same_status :
          (d : Db) (sub : SubscriptionRecord)
          → found_subscription d sub_id ≡ ok sub
          → Preserves (OfRows F) (set_subscription_status sub.id status_active)
      same_status d sub e =
          subst (λ id. Preserves (OfRows F) (set_subscription_status id status_active))
            (sym (found_id d sub_id sub e)) activated

  pub reject-Preserves :
      (sub_id : ℕ)
      → ((id : ℕ) → Preserves (OfRows F) (set_subscription_status id status_rejected))
      → Preserves (OfRows F) (reject svc sub_id)
  unfolding reject get_subscription
  reject-Preserves sub_id rejected = search (service_rules, rejected) depth 20 fits 4000

  requested :
      (app_id product_id plan_id : ℕ)
      → ((app_id product_id plan_id : ℕ)
          → Preserves (OfRows F) (save_subscription app_id product_id plan_id))
      → Preserves (OfRows F) (request svc app_id product_id plan_id)
  unfolding request
  requested app_id product_id plan_id saved = search (service_rules, saved) depth 9

  pub subscribe-Preserves :
      (app_id product_id plan_id : ℕ)
      → ((app_id product_id plan_id : ℕ)
          → Preserves (OfRows F) (save_subscription app_id product_id plan_id))
      → Preserves (OfRows F) (subscribe svc app_id product_id plan_id)
  unfolding subscribe subscribe_to get_product get_plan subscription_status
  subscribe-Preserves app_id product_id plan_id saved =
      search (service_rules, saved, requested) depth 30 fits 4000

  pub unsubscribe-Preserves :
      (app_id product_id : ℕ)
      → ((app_id product_id : ℕ) → Preserves (OfRows F) (delete_subscription app_id product_id))
      → Preserves (OfRows F) (unsubscribe svc app_id product_id)
  unfolding unsubscribe
  unsubscribe-Preserves app_id product_id deleted = search (service_rules, deleted) depth 9

  unsubscribe_all-Preserves :
      (app_id : ℕ) (subs : List SubscriptionView)
      → ((app_id product_id : ℕ) → Preserves (OfRows F) (delete_subscription app_id product_id))
      → Preserves (OfRows F) (unsubscribe_all svc app_id subs)
  unfolding unsubscribe_all
  unsubscribe_all-Preserves app_id [] deleted = Preserves-pure tt
  unsubscribe_all-Preserves app_id (s ∷ ss) deleted =
      Preserves-bind _ _ (unsubscribe-Preserves app_id s.product_id deleted)
        (λ _. unsubscribe_all-Preserves app_id ss deleted)

  remove_consumers-Preserves :
      (app_id : ℕ) (cred : Credential) → Preserves (OfRows F) (remove_consumers svc app_id cred)
  unfolding remove_consumers
  remove_consumers-Preserves app_id cred = search service_rules depth 9

  consumers_gone :
      (app_id : ℕ) (found : Result Credential)
      → Preserves (OfRows F) (elim found [
        | err not_found ↦ pure tt
        | err e ↦ raise e
        | ok c ↦ remove_consumers svc app_id c
      ])
  consumers_gone app_id (ok c) = remove_consumers-Preserves app_id c
  consumers_gone app_id (err not_found) = Preserves-pure tt
  consumers_gone app_id (err e) = Preserves-raise e

  pub delete_application_and_routes-Preserves :
      (app_id : ℕ)
      → ((app_id product_id : ℕ) → Preserves (OfRows F) (delete_subscription app_id product_id))
      → ((app_id : ℕ) → Preserves (OfRows F) (delete_application app_id))
      → Preserves (OfRows F) (delete_application_and_routes svc app_id)
  unfolding delete_application_and_routes subscriptions_for_app
  delete_application_and_routes-Preserves app_id deleted dropped =
      Preserves-bind _ _ (Preserves-query _) λ subs.
        Preserves-bind _ _ (unsubscribe_all-Preserves app_id subs deleted) λ _.
          Preserves-bind _ _ (Preserves-try _ (get_credential-Preserves F svc.cipher app_id))
            λ found. Preserves-bind _ _ (consumers_gone app_id found) (λ _. dropped app_id)

-- The removal of a product (internal/admin) writes the subscriptions once.
pub delete_product-Preserves :
    (F : Fact) (id : ℕ) → Preserves (OfRows F) (delete_row id) → Preserves (OfRows F) (delete id)
unfolding delete count_active_subscriptions deprovision_route
delete_product-Preserves F id removed = Preserves-bind _ _ (Preserves-query _) λ n.
    Preserves-if _ _ _ (Preserves-raise _) (
      Preserves-bind _ _ removed λ _.
        Preserves-bind _ _ (Preserves-try _ (on_gateway-Preserves F _)) (λ _. Preserves-pure tt))
