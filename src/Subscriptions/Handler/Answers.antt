-- ===== src/Subscriptions/Handler/Answers.antt =====
-- internal/subscriptions/handler.go: what the requests for an application answer.
use apisix_developer_portal.Common.{ℕ, String, Bool, true, false, Option, none, some, List}
use apisix_developer_portal.Effects.{
  not_found, already_subscribed, product_deprecated, no_credential, no_active_subscription,
  sandbox_not_configured, invalid_client_id, no_sandbox_eligible_subscription, no_sandbox_key,
  Result, ok, err,
}
use apisix_developer_portal.Httpx.Respond.{Reply, refusal, json, header}
use apisix_developer_portal.Subscriptions.Model.{Credential, PlanInfo, SubscriptionView}
use apisix_developer_portal.Subscriptions.Service.{Service}

-- `Handler`: the service, and the values that the functions and pointers of the handler yield. `usage`
-- asks the metrics backend for the requests of a consumer in a window.
pub record Handler : Type 0 where
  pub svc : Service
  pub events : Bool
  pub sandbox_gateway_url : String
  pub oidc_issuer : String
  pub usage : Option (String → ℕ → Option ℕ)

pub record Quota : Type 0 where
  pub has_quota : Bool
  pub used : ℕ
  pub limit : ℕ
  pub window_seconds : ℕ
  pub available : Bool

-- `events.View`, less its time.
pub record EventView : Type 0 where
  pub kind : String
  pub product_name : String
  pub plan_name : String

pub record AppDetail : Type 0 where
  pub api_key : String
  pub consumer_username : String
  pub subscriptions : List SubscriptionView
  pub events : List EventView
  pub sandbox_enabled : Bool
  pub sandbox_gateway_url : String
  pub oidc_client_id : String
  pub oauth_eligible : Bool
  pub oidc_issuer : String

pub data Body : Type 0 where
  credential : Credential → Body
  api_key sandbox_key : String → Body
  quota : Quota → Body
  detail : AppDetail → Body

-- The end of each request: the answer to the result of the service.
unfoldable pub subscribed : Result Credential → Reply Body
subscribed (ok cred) = json 201 (credential cred)
subscribed (err not_found) = refusal 404 "subscribe.productPlanNotFound"
subscribed (err already_subscribed) = refusal 409 "subscribe.alreadySubscribed"
subscribed (err product_deprecated) = refusal 409 "subscribe.productDeprecated"
subscribed (err e) = refusal 500 "subscribe.subscribeFailed"

unfoldable pub unsubscribed : Result (Unit {0}) → Reply Body
unsubscribed (ok _) = header 204
unsubscribed (err e) = refusal 500 "subscribe.unsubscribeFailed"

unfoldable pub deleted : Result (Unit {0}) → Reply Body
deleted (ok _) = header 204
deleted (err e) = refusal 500 "subscribe.deleteApplicationFailed"

unfoldable pub rotated : Result String → Reply Body
rotated (ok key) = json 200 (api_key key)
rotated (err no_credential) = refusal 409 "subscribe.noKeyToRotate"
rotated (err no_active_subscription) = refusal 409 "subscribe.noKeyToRotate"
rotated (err e) = refusal 500 "subscribe.rotationFailed"

unfoldable pub sandbox_opened : Result String → Reply Body
sandbox_opened (ok key) = json 200 (sandbox_key key)
sandbox_opened (err no_sandbox_eligible_subscription) = refusal 409 "subscribe.sandboxUnavailable"
sandbox_opened (err sandbox_not_configured) = refusal 409 "subscribe.sandboxUnavailable"
sandbox_opened (err e) = refusal 500 "subscribe.enableSandboxFailed"

unfoldable pub sandbox_rotated : Result String → Reply Body
sandbox_rotated (ok key) = json 200 (sandbox_key key)
sandbox_rotated (err no_sandbox_key) = refusal 409 "subscribe.noSandboxKeyToRotate"
sandbox_rotated (err sandbox_not_configured) = refusal 409 "subscribe.noSandboxKeyToRotate"
sandbox_rotated (err e) = refusal 500 "subscribe.rotationFailed"

unfoldable pub client_set : Result (Unit {0}) → Reply Body
client_set (ok _) = header 200
client_set (err invalid_client_id) = refusal 400 "subscribe.invalidClientID"
client_set (err e) = refusal 500 "subscribe.oidcSetFailed"

-- What `quotaHandler` makes of the plan.
unfoldable pub measured : Handler → Credential → PlanInfo → Quota
measured h cred plan =
    let unknown : Quota = record {
      has_quota = true;
      used = 0;
      limit = plan.count;
      window_seconds = plan.window_seconds;
      available = false;
    } in
    elim h.usage [
      | none ↦ unknown
      | some requests ↦ elim (requests cred.consumer_username plan.window_seconds) [
        | none ↦ unknown
        | some used ↦ record unknown { used = used; available = true }
      ]
    ]

abbrev pub no_quota : Quota
no_quota = record { has_quota = false; used = 0; limit = 0; window_seconds = 0; available = false }

unfoldable pub plan_quota : Handler → Credential → Result PlanInfo → Reply Body
plan_quota h cred (err no_active_subscription) = json 200 (quota no_quota)
plan_quota h cred (err e) = refusal 500 "subscribe.planLoadFailed"
plan_quota h cred (ok plan) = json 200 (quota (measured h cred plan))
