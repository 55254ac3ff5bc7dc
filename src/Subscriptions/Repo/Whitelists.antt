-- ===== src/Subscriptions/Repo/Whitelists.antt =====
-- internal/subscriptions/repo.go: the joins of active subscriptions with credentials, products and
-- plans, from which the gateways are provisioned.
use apisix_developer_portal.Common.{
  ℕ, String, Bool, false, ◌&&◌, not, none, some, List, map, str_eq, ◌==◌, ltb, select, join,
  distinct, order_by, first_row,
}
use apisix_developer_portal.Crypto.{Cipher}
use apisix_developer_portal.Db.{
  ProductRow, PlanRow, ApplicationRow, CredentialRow, SubscriptionRow, Db,
}
use apisix_developer_portal.Effects.{no_active_subscription, ok, err, M, query}
use apisix_developer_portal.Subscriptions.Model.{
  ProductInfo, PlanInfo, Credential, SubscriptionView,
}
use apisix_developer_portal.Subscriptions.Repo.{is_active}
use apisix_developer_portal.Subscriptions.Repo.Keys.{has_sandbox_key, open_all}

abbrev pub owned_by : SubscriptionRow → CredentialRow → Bool
owned_by s c = c.application_id == s.application_id

-- The active subscriptions that satisfy `p`, with their credentials.
abbrev pub subscribers : (SubscriptionRow → Bool) → Db → List (SubscriptionRow × CredentialRow)
subscribers p d = join owned_by (select (λ s. p s && is_active s) d.subscriptions) d.credentials

abbrev pub whitelist : Db → ℕ → List String
whitelist d product_id =
    map (λ r. r.1.consumer_username) (subscribers (λ s. s.api_product_id == product_id) d)

unfoldable pub consumers_for_product : ℕ → M (List String)
consumers_for_product product_id = query (λ d. ok (whitelist d product_id))

abbrev pub sandbox_whitelist : Db → ℕ → List String
sandbox_whitelist d product_id =
    map (λ r. r.1.consumer_username)
      (select (λ (r : SubscriptionRow × CredentialRow). has_sandbox_key r.1)
        (subscribers (λ s. s.api_product_id == product_id) d))

unfoldable pub sandbox_consumers_for_product : ℕ → M (List String)
sandbox_consumers_for_product product_id = query (λ d. ok (sandbox_whitelist d product_id))

-- `application_id` is the key of credentials, so rows that share it are one row.
abbrev same_credential : CredentialRow → CredentialRow → Bool
same_credential a b = a.application_id == b.application_id

abbrev on_plan : ℕ → Db → List CredentialRow
on_plan plan_id d =
    distinct same_credential (map (λ r. r.1) (subscribers (λ s. s.plan_id == plan_id) d))

unfoldable pub consumers_for_plan : Cipher → ℕ → M (List Credential)
unfolding open_all distinct
consumers_for_plan cipher plan_id =
    query (λ d. open_all cipher (λ c. c.api_key) (on_plan plan_id d))

unfoldable pub sandbox_consumers_for_plan : Cipher → ℕ → M (List Credential)
unfolding open_all distinct
sandbox_consumers_for_plan cipher plan_id =
    query λ d. open_all cipher (λ c. c.sandbox_api_key) (select has_sandbox_key (on_plan plan_id d))

-- `JOIN applications`, where the client id is not empty.
abbrev pub oauth_clients : Db → ℕ → List String
oauth_clients d product_id =
    map (λ r. r.1.oidc_client_id)
      (select (λ (r : SubscriptionRow × ApplicationRow). not (str_eq r.1.oidc_client_id ""))
        (join (λ (s : SubscriptionRow) (a : ApplicationRow). a.id == s.application_id)
          (select (λ s. s.api_product_id == product_id && is_active s) d.subscriptions)
          d.applications))

unfoldable pub oauth_clients_for_product : ℕ → M (List String)
oauth_clients_for_product product_id = query (λ d. ok (oauth_clients d product_id))

-- The products of the application's active subscriptions.
abbrev subscribed_products : ℕ → Db → List ProductRow
subscribed_products app_id d =
    distinct (λ p q. p.id == q.id)
      (map (λ r. r.1)
        (join (λ (s : SubscriptionRow) (p : ProductRow). p.id == s.api_product_id)
          (select (λ s. s.application_id == app_id && is_active s) d.subscriptions) d.products))

-- The columns that the two queries below leave out are zero values.
unfoldable pub oauth_products_for_app : ℕ → M (List ProductInfo)
unfolding distinct
oauth_products_for_app app_id = query λ d. ok (
    map
      (λ p. record {
        id = p.id;
        context_path = p.context_path;
        upstream = p.upstream_url;
        sandbox_upstream = "";
        published = false;
        auth_type = p.auth_type;
        lifecycle_status = "";
      })
      (select (λ p. str_eq p.auth_type "oauth2") (subscribed_products app_id d)))

unfoldable pub sandbox_products_for_app : ℕ → M (List ProductInfo)
unfolding distinct
sandbox_products_for_app app_id = query λ d. ok (
    map
      (λ p. record {
        id = p.id;
        context_path = p.context_path;
        upstream = "";
        sandbox_upstream = p.sandbox_upstream_url;
        published = false;
        auth_type = "";
        lifecycle_status = "";
      })
      (select (λ p. not (str_eq p.sandbox_upstream_url "")) (subscribed_products app_id d)))

-- `ORDER BY s.created_at DESC LIMIT 1`
unfoldable pub active_plan_for_app : ℕ → M PlanInfo
unfolding order_by
active_plan_for_app app_id = query λ d.
    elim (first_row (
      order_by (λ (x y : SubscriptionRow × PlanRow). ltb y.0.created_at x.0.created_at)
        (join (λ (s : SubscriptionRow) (p : PlanRow). p.id == s.plan_id)
          (select (λ s. s.application_id == app_id && is_active s) d.subscriptions) d.plans))) [
            | none ↦ err no_active_subscription
            | some (s, p) ↦ ok (record {
              id = p.id;
              count = p.rate_limit_count;
              window_seconds = p.rate_limit_window_s;
            })
          ]

abbrev pub view : (SubscriptionRow × ProductRow) × PlanRow → SubscriptionView
view r = record {
  product_id = r.0.0.api_product_id;
  product_name = r.0.1.name;
  version = r.0.1.version;
  context_path = r.0.1.context_path;
  plan_id = r.0.0.plan_id;
  plan_name = r.1.name;
  status = r.0.0.status;
  sandbox_available = not (str_eq r.0.1.sandbox_upstream_url "");
  auth_type = r.0.1.auth_type;
}

abbrev pub app_views : (String → String → Bool) → Db → ℕ → List SubscriptionView
app_views collate d app_id = map view (
    order_by (λ x y. collate x.0.1.name y.0.1.name)
      (join (λ (r : SubscriptionRow × ProductRow) (p : PlanRow). p.id == r.0.plan_id)
        (join (λ (s : SubscriptionRow) (p : ProductRow). p.id == s.api_product_id)
          (select (λ s. s.application_id == app_id) d.subscriptions) d.products)
        d.plans))

-- `ORDER BY p.name`, where `collate` is the strict order of names in the database.
unfoldable pub subscriptions_for_app : (String → String → Bool) → ℕ → M (List SubscriptionView)
subscriptions_for_app collate app_id = query (λ d. ok (app_views collate d app_id))
