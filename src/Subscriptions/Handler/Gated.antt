-- ===== src/Subscriptions/Handler/Gated.antt =====
-- internal/subscriptions/handler.go and admin_handler.go: the requests and the approval gate.
use apisix_developer_portal.Common.{ℕ, Option, some, List, ◌≡◌, refl}
use apisix_developer_portal.Db.{SubscriptionRow}
use apisix_developer_portal.Effects.{State}
use apisix_developer_portal.Effects.Preserves.{Preserves}
use apisix_developer_portal.Subscriptions.Model.{status_active, status_rejected}
use apisix_developer_portal.Subscriptions.Service.{Service}
use apisix_developer_portal.Subscriptions.Preserving.{OfRows, set_oidc_client_id-Preserves}
use apisix_developer_portal.Subscriptions.Preserving.Operations.{
  subscribe-Preserves, unsubscribe-Preserves, approve-Preserves, reject-Preserves,
  delete_application_and_routes-Preserves, enable_sandbox-Preserves, rotate_sandbox_key-Preserves,
  rotate_key-Preserves,
}
use apisix_developer_portal.Subscriptions.Preserving.Gate.{
  IsGated, save_subscription-Gated, delete_subscription-Gated, delete_application-Gated,
  set_subscription_status-Gated, subscription_activated-Gated,
}
use apisix_developer_portal.Subscriptions.Handler.Answers.{Handler}
use apisix_developer_portal.Subscriptions.Handler.Requests.{
  Request, serve, Decision, approving, rejecting, act, transition,
}
use apisix_developer_portal.Subscriptions.Handler.Keeping.{
  IsKept, serve-Preserves, transition-Preserves,
}

module _ (before : List SubscriptionRow) (Approved : ℕ → Type 0) where
  abbrev Gated : State → Type 0
  Gated = OfRows (IsGated before Approved)

  service-Gated : (svc : Service) → IsKept Gated svc
  service-Gated svc = record {
    subscribes = λ app_id product_id plan_id.
        subscribe-Preserves _ svc app_id product_id plan_id (save_subscription-Gated _ _);
    unsubscribes = λ app_id product_id.
        unsubscribe-Preserves _ svc app_id product_id (delete_subscription-Gated _ _);
    sets_client = set_oidc_client_id-Preserves _ svc;
    deletes = λ app_id.
        delete_application_and_routes-Preserves _ svc app_id (delete_subscription-Gated _ _)
          (delete_application-Gated _ _);
    rotates = rotate_key-Preserves _ svc;
    opens_sandbox = enable_sandbox-Preserves _ svc;
    rotates_sandbox = rotate_sandbox_key-Preserves _ svc;
  }

  pub serve-Gated :
      (h : Handler) (uid : ℕ) (app_id : Option ℕ) (request : Request)
      → Preserves Gated (serve h uid app_id request)
  serve-Gated h uid app_id request =
      serve-Preserves Gated h uid app_id request (service-Gated h.svc)

  act-Gated :
      (svc : Service) (decision : Decision) (id : ℕ)
      → (decision ≡ approving → Approved id)
      → Preserves Gated (act svc decision id)
  unfolding act
  act-Gated svc approving id allowed =
      approve-Preserves _ svc id
        (set_subscription_status-Gated _ _ id status_active (λ _. allowed refl))
        (subscription_activated-Gated _ _)
  act-Gated svc rejecting id allowed =
      reject-Preserves _ svc id
        (λ id'. set_subscription_status-Gated _ _ id' status_rejected (λ e. absurd (cc)))

  -- A decision on a subscription that may be approved.
  pub transition-Gated :
      (svc : Service) (decision : Decision) (sub_id : Option ℕ)
      → (decision ≡ approving → (id : ℕ) → sub_id ≡ some id → Approved id)
      → Preserves Gated (transition svc decision sub_id)
  transition-Gated svc decision sub_id allowed =
      transition-Preserves Gated svc decision sub_id
        (λ id same. act-Gated svc decision id (λ approves. allowed approves id same))
