-- ===== src/Subscriptions/Handler/Requests.antt =====
-- internal/subscriptions/handler.go and admin_handler.go: the requests for an application, which its
-- team alone may make, and the decisions of an administrator. The id in a path is what ParseInt reads
-- of it, if anything; a body is what encoding/json decodes it to. The requests for usage charts and
-- for the list of an administrator are left out.
use apisix_developer_portal.Common.{
  ℕ, String, Bool, true, false, ◌||◌, Option, none, some, ◌==◌, if◌then◌else◌,
}
use apisix_developer_portal.Effects.{
  Error, not_found, invalid_transition, Result, ok, err, M, pure, try, ◌>>=◌,
}
use apisix_developer_portal.Httpx.Respond.{Reply, refusal, json, header}
use apisix_developer_portal.Httpx.Guards.{Guard, stop, pass, guarded}
use apisix_developer_portal.Teams.{is_member_of_app}
use apisix_developer_portal.Subscriptions.Model.{Credential}
use apisix_developer_portal.Subscriptions.Repo.Keys.{get_credential}
use apisix_developer_portal.Subscriptions.Repo.Whitelists.{active_plan_for_app}
use apisix_developer_portal.Subscriptions.Service.{Service}
use apisix_developer_portal.Subscriptions.Service.Routes.{set_oidc_client_id}
use apisix_developer_portal.Subscriptions.Service.Lifecycle.{
  subscribe, unsubscribe, delete_application_and_routes,
}
use apisix_developer_portal.Subscriptions.Service.Approval.{approve, reject}
use apisix_developer_portal.Subscriptions.Service.Keys.{
  enable_sandbox, rotate_sandbox_key, rotate_key,
}
use apisix_developer_portal.Subscriptions.Handler.Answers.{
  Handler, Body, quota, subscribed, unsubscribed, deleted, rotated, sandbox_opened, sandbox_rotated,
  client_set, no_quota, plan_quota,
}
use apisix_developer_portal.Subscriptions.Handler.Detail.{shown_credential, detail_credential}

-- The end of `authorize`.
unfoldable pub check_owner : ℕ → Result Bool → Guard Body
check_owner app_id (err e) = stop (refusal 500 "subscribe.ownershipCheckFailed")
check_owner app_id (ok false) = stop (refusal 403 "subscribe.notYourApplication")
check_owner app_id (ok true) = pass app_id

-- `authorize`, with the check of internal/server: membership of the application's team.
unfoldable pub authorize : ℕ → Option ℕ → M (Guard Body)
authorize uid none = pure (stop (refusal 400 "subscribe.badAppID"))
authorize uid (some app_id) = do
  owned ← try (is_member_of_app uid app_id)
  pure (check_owner app_id owned)

unfoldable pub no_credential_quota : Error → Reply Body
no_credential_quota not_found = json 200 (quota no_quota)
no_credential_quota e = refusal 500 "subscribe.credentialLoadFailed"

unfoldable pub credential_quota : Handler → ℕ → Result Credential → M (Reply Body)
credential_quota h app_id (err e) = pure (no_credential_quota e)
credential_quota h app_id (ok cred) = do
  plan ← try (active_plan_for_app app_id)
  pure (plan_quota h cred plan)

-- The requests for an application, with their bodies and the ids in their paths.
pub data Request : Type 0 where
  subscribing : Option (ℕ × ℕ) → Request
  unsubscribing : Option ℕ → Request
  setting_client : Option String → Request
  deleting rotating opening_sandbox rotating_sandbox showing showing_quota : Request

-- Each request behind `authorize`.
unfoldable pub respond : Handler → ℕ → Request → M (Reply Body)
respond h app_id (subscribing none) = pure (refusal 400 "subscribe.productPlanRequired")
respond h app_id (subscribing (some (product_id, plan_id))) =
    if product_id == 0 || plan_id == 0
    then pure (refusal 400 "subscribe.productPlanRequired")
    else (do answer ← try (subscribe h.svc app_id product_id plan_id); pure (subscribed answer))
respond h app_id (unsubscribing none) = pure (refusal 400 "subscribe.badProductID")
respond h app_id (unsubscribing (some product_id)) = do
  answer ← try (unsubscribe h.svc app_id product_id)
  pure (unsubscribed answer)
respond h app_id (setting_client none) = pure (refusal 400 "subscribe.badBody")
respond h app_id (setting_client (some client_id)) = do
  answer ← try (set_oidc_client_id h.svc app_id client_id)
  pure (client_set answer)
respond h app_id deleting = do
  answer ← try (delete_application_and_routes h.svc app_id)
  pure (deleted answer)
respond h app_id rotating = do answer ← try (rotate_key h.svc app_id); pure (rotated answer)
respond h app_id opening_sandbox = do
  answer ← try (enable_sandbox h.svc app_id)
  pure (sandbox_opened answer)
respond h app_id rotating_sandbox = do
  answer ← try (rotate_sandbox_key h.svc app_id)
  pure (sandbox_rotated answer)
respond h app_id showing = do
  cred ← try (get_credential h.svc.cipher app_id)
  detail_credential h app_id (shown_credential cred)
respond h app_id showing_quota = do
  cred ← try (get_credential h.svc.cipher app_id)
  credential_quota h app_id cred

-- The routes of `NewHandler`, for the user of a session.
unfoldable pub serve : Handler → ℕ → Option ℕ → Request → M (Reply Body)
serve h uid app_id request = do
  guard ← authorize uid app_id
  guarded guard (λ id. respond h id request)

-- `transition` of the administrator's handler.
unfoldable pub decided : Result (Unit {0}) → Reply Body
decided (ok _) = header 204
decided (err not_found) = refusal 404 "subscribe.admin.notFound"
decided (err invalid_transition) = refusal 409 "subscribe.admin.invalidTransition"
decided (err e) = refusal 500 "subscribe.admin.actionFailed"

pub data Decision : Type 0 where
  approving rejecting : Decision

unfoldable pub act : Service → Decision → ℕ → M (Unit {0})
act svc approving sub_id = approve svc sub_id
act svc rejecting sub_id = reject svc sub_id

unfoldable pub transition : Service → Decision → Option ℕ → M (Reply Body)
transition svc decision none = pure (refusal 400 "subscribe.admin.badSubscriptionID")
transition svc decision (some sub_id) = do
  answer ← try (act svc decision sub_id)
  pure (decided answer)
