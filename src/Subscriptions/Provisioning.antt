-- ===== src/Subscriptions/Provisioning.antt =====
-- The invariant of internal/subscriptions/service.go that the comment on `Approve` names: what is
-- active in the database is provisioned in the gateway. It is stated for products with keys, over
-- the tables and the gateway that it reads, so that changes of anything else keep it as it is.
mod Tables
pub mod Quiet
mod Gateways
mod Written
mod Routes
pub mod Requests
mod Credentials
pub mod Approving
pub mod Keying
mod Cancelling
pub mod Deleting
pub mod Removing
pub mod Revoking
pub mod Revoked
pub mod Operations
use apisix_developer_portal.Common.{
  ℕ, ◌<◌, String, true, false, Option, some, none, List, Memᴰ, ◌≡◌, str_eq, ◌==◌, find,
}
use apisix_developer_portal.Apisix.{Gateway, Route, Consumer}
use apisix_developer_portal.Db.{PlanRow, ProductRow, CredentialRow, SubscriptionRow}
use apisix_developer_portal.Effects.{State}
use apisix_developer_portal.Subscriptions.Model.{consumer_name, route_id}
use apisix_developer_portal.Subscriptions.Repo.{is_active}

-- The product exists and its callers authenticate by key.
abbrev pub IsKeyProduct : List ProductRow → ℕ → Type 0
IsKeyProduct products product_id =
    (row : ProductRow) × (find (λ (p : ProductRow). p.id == product_id) products ≡ some row)
    × (str_eq row.auth_type "oauth2" ≡ false)

abbrev pub HasCredential : List CredentialRow → ℕ → Type 0
HasCredential credentials app_id =
    (c : CredentialRow) × Memᴰ c credentials × (c.application_id ≡ app_id)

-- The plan that the foreign key of a subscription asks for.
abbrev pub HasPlan : List PlanRow → ℕ → Type 0
HasPlan plans plan_id = (p : PlanRow) × Memᴰ p plans × (p.id ≡ plan_id)

-- The product's route checks keys and admits the application's consumer.
abbrev pub Admits : (String → Option Route) → ℕ → ℕ → Type 0
Admits routes app_id product_id =
    (route : Route) × (routes (route_id product_id) ≡ some route)
    × Memᴰ (consumer_name app_id) route.allowed
    × (route.oauth ≡ false)

abbrev pub IsInstalled : (String → Option Consumer) → ℕ → Type 0
IsInstalled consumers app_id =
    (consumer : Consumer) × (consumers (consumer_name app_id) ≡ some consumer)

-- The application can call the product.
pub record IsServed (credentials : List CredentialRow) (gw : Gateway) (app_id product_id : ℕ)
    : Type 0 where
  pub credential : HasCredential credentials app_id
  pub admitted : Admits gw.routes app_id product_id
  pub installed : IsInstalled gw.consumers app_id

pub record IsProvisioned (subscriptions : List SubscriptionRow) (next : ℕ) (plans : List PlanRow)
    (products : List ProductRow) (credentials : List CredentialRow) (gw : Gateway) : Type 0 where
  pub named :
      (c : CredentialRow)
      → Memᴰ c credentials
      → c.consumer_username ≡ consumer_name c.application_id
  pub below : (r : SubscriptionRow) → Memᴰ r subscriptions → r.id < next
  pub unique :
      (r r' : SubscriptionRow)
      → Memᴰ r subscriptions
      → Memᴰ r' subscriptions
      → r.id ≡ r'.id
      → r ≡ r'
  pub paired :
      (r r' : SubscriptionRow)
      → Memᴰ r subscriptions
      → Memᴰ r' subscriptions
      → r.application_id ≡ r'.application_id
      → r.api_product_id ≡ r'.api_product_id
      → r ≡ r'
  pub planned : (r : SubscriptionRow) → Memᴰ r subscriptions → HasPlan plans r.plan_id
  pub served :
      (r : SubscriptionRow)
      → Memᴰ r subscriptions
      → is_active r ≡ true
      → IsKeyProduct products r.api_product_id
      → IsServed credentials gw r.application_id r.api_product_id

abbrev pub Holds : State → Type 0
Holds s =
    IsProvisioned s.db.subscriptions s.db.next_subscription s.db.plans s.db.products
      s.db.credentials s.gw
