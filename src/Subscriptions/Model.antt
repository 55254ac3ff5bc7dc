-- ===== src/Subscriptions/Model.antt =====
-- internal/subscriptions: the values that the service and its store exchange (service.go, view.go).
use Prim.Native.String
use apisix_developer_portal.Common.{ℕ, String, Bool, ◌≡◌}
use apisix_developer_portal.Common.Decimal.{format_int, prefix-format_int-injective}

abbrev pub status_pending : String
status_pending = "pending"

abbrev pub status_active : String
status_active = "active"

abbrev pub status_rejected : String
status_rejected = "rejected"

pub record ProductInfo : Type 0 where
  pub id : ℕ
  pub context_path : String
  pub upstream : String
  pub sandbox_upstream : String
  pub published : Bool
  pub auth_type : String
  pub lifecycle_status : String

pub record PlanInfo : Type 0 where
  pub id : ℕ
  pub count : ℕ
  pub window_seconds : ℕ

pub record Credential : Type 0 where
  pub application_id : ℕ
  pub api_key : String
  pub consumer_username : String

pub record SubscriptionRecord : Type 0 where
  pub id : ℕ
  pub app_id : ℕ
  pub product_id : ℕ
  pub plan_id : ℕ
  pub status : String

pub record SubscriptionView : Type 0 where
  pub product_id : ℕ
  pub product_name : String
  pub version : String
  pub context_path : String
  pub plan_id : ℕ
  pub plan_name : String
  pub status : String
  pub sandbox_available : Bool
  pub auth_type : String

-- The zero value `Credential{}`.
abbrev pub no_key : Credential
no_key = record { application_id = 0; api_key = ""; consumer_username = "" }

unfoldable pub consumer_name : ℕ → String
consumer_name app_id = String.◌++◌ "app_" (format_int app_id)

unfoldable pub route_id : ℕ → String
route_id product_id = String.◌++◌ "prod_" (format_int product_id)

-- Two applications never share a consumer on the gateway, and two products never share a route.
pub consumer_name-injective : (a b : ℕ) → consumer_name a ≡ consumer_name b → a ≡ b
unfolding consumer_name
consumer_name-injective a b e = prefix-format_int-injective "app_" a b e

pub route_id-injective : (p q : ℕ) → route_id p ≡ route_id q → p ≡ q
unfolding route_id
route_id-injective p q e = prefix-format_int-injective "prod_" p q e
