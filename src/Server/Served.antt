-- ===== src/Server/Served.antt =====
-- internal/server/server.go: histories of requests, and what the gateway serves after them.
use apisix_developer_portal.Common.{ℕ, true, List, [], Memᴰ, ◌≡◌}
use apisix_developer_portal.Db.{SubscriptionRow}
use apisix_developer_portal.Effects.{State, Fault, M}
use apisix_developer_portal.Effects.Preserves.{
  Preserves, Preserves-pure, Preserves-bind, Preserves-triple, preserves_rules,
}
use apisix_developer_portal.Httpx.Respond.{Reply}
use apisix_developer_portal.Auth.Repo.{get_role}
use apisix_developer_portal.Auth.Middleware.{
  Passage, stopped, admitted, Bearer, missing, invalid, bearer, pass_admin, require_auth,
  require_admin,
}
use apisix_developer_portal.Subscriptions.Repo.{is_active}
use apisix_developer_portal.Subscriptions.Service.{Service}
use apisix_developer_portal.Subscriptions.Provisioning.{IsKeyProduct, IsServed, Holds}
use apisix_developer_portal.Subscriptions.Provisioning.Requests.{Keeps}
use apisix_developer_portal.Subscriptions.Provisioning.Operations.{Holds-initial}
use apisix_developer_portal.Subscriptions.Provisioning.Approving.{approve-Keeps, reject-Keeps}
use apisix_developer_portal.Subscriptions.Provisioning.Deleting.{
  delete_application_and_routes-Keeps,
}
use apisix_developer_portal.Subscriptions.Provisioning.Keying.{
  subscribe-Keeps, unsubscribe-Keeps, set_oidc_client_id-Keeps, enable_sandbox-Keeps,
  rotate_sandbox_key-Keeps, rotate_key-Keeps,
}
use apisix_developer_portal.Subscriptions.Handler.Requests.{Decision, approving, rejecting, act}
use apisix_developer_portal.Subscriptions.Handler.Keeping.{
  IsKept, serve-Preserves, transition-Preserves,
}
use apisix_developer_portal.Server.{
  Server, Header, Endpoint, application, decision, behind, dispatch,
}

kept : {A : Type 0} {m : M A} → Keeps m → Preserves Holds m
kept {m = m} k = Preserves-triple m k.holds

service-Holds : (svc : Service) → IsKept Holds svc
service-Holds svc = record {
  subscribes = λ app_id product_id plan_id. kept (subscribe-Keeps svc app_id product_id plan_id);
  unsubscribes = λ app_id product_id. kept (unsubscribe-Keeps svc app_id product_id);
  sets_client = λ app_id client_id. kept (set_oidc_client_id-Keeps svc app_id client_id);
  deletes = λ app_id. kept (delete_application_and_routes-Keeps svc app_id);
  rotates = λ app_id. kept (rotate_key-Keeps svc app_id);
  opens_sandbox = λ app_id. kept (enable_sandbox-Keeps svc app_id);
  rotates_sandbox = λ app_id. kept (rotate_sandbox_key-Keeps svc app_id);
}

act-Holds : (svc : Service) (d : Decision) (id : ℕ) → Preserves Holds (act svc d id)
unfolding act
act-Holds svc approving id = kept (approve-Keeps svc id)
act-Holds svc rejecting id = kept (reject-Keeps svc id)

pass_admin-Holds : (b : Bearer) → Preserves Holds (pass_admin b)
unfolding pass_admin get_role
pass_admin-Holds missing = Preserves-pure _
pass_admin-Holds invalid = Preserves-pure _
pass_admin-Holds (bearer c) = search preserves_rules depth 6

behind-Holds :
    {B : Type 0} (p : Passage) (f : ℕ → M (Reply B))
    → ((uid : ℕ) → Preserves Holds (f uid))
    → Preserves Holds (behind p f)
unfolding behind
behind-Holds (stopped status message) f k = Preserves-pure _
behind-Holds (admitted uid role) f k = k uid

dispatch-Holds :
    (srv : Server) (header : Header) (e : Endpoint) → Preserves Holds (dispatch srv header e)
unfolding dispatch require_admin
dispatch-Holds srv header (application app_id request) =
    behind-Holds (require_auth srv.tokenizer header.now header.authorization) _ (λ uid.
      serve-Preserves Holds srv.subscriptions uid app_id request
        (service-Holds srv.subscriptions.svc))
dispatch-Holds srv header (decision d sub_id) = Preserves-bind _ _ (pass_admin-Holds _) (λ p.
    behind-Holds p _ (λ _.
      transition-Preserves Holds srv.subscriptions.svc d sub_id
        (λ id same. act-Holds srv.subscriptions.svc d id)))

-- The states that a history of requests reaches, each with a configuration of the portal, any header
-- and any faults.
pub data Serves (s : State) : State → Type 0 where
  start : Serves s s
  next :
      {t : State} (srv : Server) (header : Header) (e : Endpoint) (faults : List Fault)
      → Serves s t
      → Serves s (dispatch srv header e (record { state = t; faults = faults })).1.state

Serves-Holds : {s t : State} → Holds s → Serves s t → Holds t
Serves-Holds h start = h
Serves-Holds h (next {t} srv header e faults before) =
    (dispatch-Holds srv header e).at (record { state = t; faults = faults }) (Serves-Holds h before)

-- In every state that requests for applications and decisions of administrators reach from one without
-- subscriptions and credentials, with whatever tokens, bodies and failing calls, each active
-- subscription to a product with keys is served: the application has a credential, its consumer is
-- installed, and the product's route checks keys and admits it.
pub requested-IsServed :
    (s t : State)
    → s.db.subscriptions ≡ []
    → s.db.credentials ≡ []
    → Serves s t
    → (r : SubscriptionRow) → Memᴰ r t.db.subscriptions
    → is_active r ≡ true
    → IsKeyProduct t.db.products r.api_product_id
    → IsServed t.db.credentials t.gw r.application_id r.api_product_id
requested-IsServed s t no_subscriptions no_credentials reached =
    (Serves-Holds (Holds-initial s no_subscriptions no_credentials) reached).served
