-- ===== src/Subscriptions/Handler/Keeping.antt =====
-- internal/subscriptions/handler.go and admin_handler.go: the requests as runs of the operations of
-- the service.
use apisix_developer_portal.Common.{ℕ, String, Option, none, some, List, ◌||◌, ◌==◌, ◌≡◌, refl}
use apisix_developer_portal.Effects.{Result, ok, err, State, M, pure, try, ◌>>=◌}
use apisix_developer_portal.Effects.Preserves.{
  Preserves, Preserves-pure, Preserves-bind, Preserves-if, Preserves-try, preserves_rules,
}
use apisix_developer_portal.Httpx.Respond.{Reply}
use apisix_developer_portal.Httpx.Guards.{Guard, stop, pass, guarded}
use apisix_developer_portal.Teams.{is_member_of_app}
use apisix_developer_portal.Subscriptions.Model.{Credential, SubscriptionView}
use apisix_developer_portal.Subscriptions.Repo.{get_app_oidc_client_id}
use apisix_developer_portal.Subscriptions.Repo.Whitelists.{
  active_plan_for_app, subscriptions_for_app, oauth_products_for_app,
}
use apisix_developer_portal.Subscriptions.Service.{Service}
use apisix_developer_portal.Subscriptions.Handler.Answers.{Handler, Body}
use apisix_developer_portal.Subscriptions.Handler.Detail.{
  recent, detail_page, detail_subscriptions, shown_credential, detail_credential,
}
use apisix_developer_portal.Subscriptions.Handler.Requests.{
  authorize, credential_quota, Request, subscribing, unsubscribing, setting_client, deleting,
  rotating, opening_sandbox, rotating_sandbox, showing, showing_quota, respond, serve, Decision,
  act, transition,
}
use apisix_developer_portal.Crypto.{Cipher}
use apisix_developer_portal.Subscriptions.Repo.Keys.{get_credential, get_sandbox_key}
use apisix_developer_portal.Subscriptions.Service.Routes.{set_oidc_client_id}
use apisix_developer_portal.Subscriptions.Service.Lifecycle.{
  subscribe, unsubscribe, delete_application_and_routes,
}
use apisix_developer_portal.Subscriptions.Service.Keys.{
  enable_sandbox, rotate_sandbox_key, rotate_key,
}

-- An action whose result is turned into an answer.
attempted :
    {A B : Type 0} {P : State → Type 0} {m : M A} (f : Result A → B)
    → Preserves P m
    → Preserves P (try m >>= λ x. pure (f x))
attempted {m = m} f k = Preserves-bind _ _ (Preserves-try m k) (λ x. Preserves-pure _)

module _ (P : State → Type 0) where
  -- The operations behind the requests preserve the fact.
  pub record IsKept (svc : Service) : Type 0 where
    pub subscribes :
        (app_id product_id plan_id : ℕ) → Preserves P (subscribe svc app_id product_id plan_id)
    pub unsubscribes : (app_id product_id : ℕ) → Preserves P (unsubscribe svc app_id product_id)
    pub sets_client :
        (app_id : ℕ) (client_id : String) → Preserves P (set_oidc_client_id svc app_id client_id)
    pub deletes : (app_id : ℕ) → Preserves P (delete_application_and_routes svc app_id)
    pub rotates : (app_id : ℕ) → Preserves P (rotate_key svc app_id)
    pub opens_sandbox : (app_id : ℕ) → Preserves P (enable_sandbox svc app_id)
    pub rotates_sandbox : (app_id : ℕ) → Preserves P (rotate_sandbox_key svc app_id)

  get_credential-Preserves :
      (cipher : Cipher) (app_id : ℕ) → Preserves P (get_credential cipher app_id)
  unfolding get_credential
  get_credential-Preserves cipher app_id = search preserves_rules depth 7

  get_sandbox_key-Preserves :
      (cipher : Cipher) (app_id : ℕ) → Preserves P (get_sandbox_key cipher app_id)
  unfolding get_sandbox_key
  get_sandbox_key-Preserves cipher app_id = search preserves_rules depth 7

  quota-Preserves :
      (h : Handler) (app_id : ℕ) (x : Result Credential) → Preserves P (credential_quota h app_id x)
  unfolding credential_quota active_plan_for_app
  quota-Preserves h app_id (err e) = Preserves-pure _
  quota-Preserves h app_id (ok cred) = search preserves_rules depth 6

  page-Preserves :
      (h : Handler) (app_id : ℕ) (shown : String × String) (subs : List SubscriptionView)
      → Preserves P (detail_page h app_id shown subs)
  unfolding detail_page recent get_app_oidc_client_id oauth_products_for_app
  page-Preserves h app_id (key, name) subs =
      search (preserves_rules, get_sandbox_key-Preserves) depth 20

  subscriptions-Preserves :
      (h : Handler) (app_id : ℕ) (shown : String × String) (x : Result (List SubscriptionView))
      → Preserves P (detail_subscriptions h app_id shown x)
  unfolding detail_subscriptions
  subscriptions-Preserves h app_id shown (err e) = Preserves-pure _
  subscriptions-Preserves h app_id shown (ok subs) = page-Preserves h app_id shown subs

  detail-Preserves :
      (h : Handler) (app_id : ℕ) (x : Option (String × String))
      → Preserves P (detail_credential h app_id x)
  unfolding detail_credential subscriptions_for_app
  detail-Preserves h app_id none = Preserves-pure _
  detail-Preserves h app_id (some shown) = search (preserves_rules, subscriptions-Preserves) depth 6

  respond-Preserves :
      (h : Handler) (app_id : ℕ) (request : Request)
      → IsKept h.svc
      → Preserves P (respond h app_id request)
  unfolding respond
  respond-Preserves h app_id (subscribing none) kept = Preserves-pure _
  respond-Preserves h app_id (subscribing (some (product_id, plan_id))) kept =
      Preserves-if (product_id == 0 || plan_id == 0) _ _ (Preserves-pure _)
        (attempted _ (kept.subscribes app_id product_id plan_id))
  respond-Preserves h app_id (unsubscribing none) kept = Preserves-pure _
  respond-Preserves h app_id (unsubscribing (some product_id)) kept =
      attempted _ (kept.unsubscribes app_id product_id)
  respond-Preserves h app_id (setting_client none) kept = Preserves-pure _
  respond-Preserves h app_id (setting_client (some client_id)) kept =
      attempted _ (kept.sets_client app_id client_id)
  respond-Preserves h app_id deleting kept = attempted _ (kept.deletes app_id)
  respond-Preserves h app_id rotating kept = attempted _ (kept.rotates app_id)
  respond-Preserves h app_id opening_sandbox kept = attempted _ (kept.opens_sandbox app_id)
  respond-Preserves h app_id rotating_sandbox kept = attempted _ (kept.rotates_sandbox app_id)
  respond-Preserves h app_id showing kept =
      Preserves-bind _ _ (Preserves-try _ (get_credential-Preserves h.svc.cipher app_id))
        (λ x. detail-Preserves h app_id (shown_credential x))
  respond-Preserves h app_id showing_quota kept =
      Preserves-bind _ _ (Preserves-try _ (get_credential-Preserves h.svc.cipher app_id))
        (λ x. quota-Preserves h app_id x)

  guarded-Preserves :
      (f : ℕ → M (Reply Body))
      → ((id : ℕ) → Preserves P (f id))
      → (g : Guard Body) → Preserves P (guarded g f)
  unfolding guarded
  guarded-Preserves f kept (stop reply) = Preserves-pure _
  guarded-Preserves f kept (pass id) = kept id

  authorize-Preserves : (uid : ℕ) (app_id : Option ℕ) → Preserves P (authorize uid app_id)
  unfolding authorize is_member_of_app
  authorize-Preserves uid none = Preserves-pure _
  authorize-Preserves uid (some app_id) = search preserves_rules depth 6

  pub serve-Preserves :
      (h : Handler) (uid : ℕ) (app_id : Option ℕ) (request : Request)
      → IsKept h.svc
      → Preserves P (serve h uid app_id request)
  unfolding serve
  serve-Preserves h uid app_id request kept =
      Preserves-bind _ _ (authorize-Preserves uid app_id)
        (guarded-Preserves _ (λ id. respond-Preserves h id request kept))

  pub transition-Preserves :
      (svc : Service) (decision : Decision) (sub_id : Option ℕ)
      → ((id : ℕ) → sub_id ≡ some id → Preserves P (act svc decision id))
      → Preserves P (transition svc decision sub_id)
  unfolding transition
  transition-Preserves svc decision none kept = Preserves-pure _
  transition-Preserves svc decision (some sub_id) kept = attempted _ (kept sub_id refl)
