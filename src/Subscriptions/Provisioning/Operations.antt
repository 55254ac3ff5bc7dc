-- ===== src/Subscriptions/Provisioning/Operations.antt =====
-- Histories of the subscription service (internal/subscriptions/service.go): each operation is a
-- step, with any faults of its calls and any configuration of the service.
use apisix_developer_portal.Common.{ℕ, String, true, List, [], Memᴰ, ◌≡◌}
use apisix_developer_portal.Db.{SubscriptionRow}
use apisix_developer_portal.Effects.{Result, ok, err, State, Run, Fault, M, pure, ◌>>=◌}
use apisix_developer_portal.Effects.Triple.{Post}
use apisix_developer_portal.Subscriptions.Repo.{is_active}
use apisix_developer_portal.Admin.Products.{delete}
use apisix_developer_portal.Subscriptions.Service.{Service}
use apisix_developer_portal.Subscriptions.Service.Routes.{
  reprovision_route, reprovision_sandbox_route, set_oidc_client_id,
}
use apisix_developer_portal.Subscriptions.Service.Lifecycle.{
  subscribe, unsubscribe, delete_application_and_routes,
}
use apisix_developer_portal.Subscriptions.Service.Approval.{approve, reject, reprovision_plan}
use apisix_developer_portal.Subscriptions.Service.Keys.{
  enable_sandbox, rotate_sandbox_key, rotate_key,
}
use apisix_developer_portal.Subscriptions.Provisioning.{IsKeyProduct, IsServed, Holds}
use apisix_developer_portal.Subscriptions.Provisioning.Quiet.{
  IsQuiet-pure, reprovision_sandbox_route-IsQuiet,
}
use apisix_developer_portal.Subscriptions.Provisioning.Requests.{Keeps, Keeps-bind, Keeps-quiet}
use apisix_developer_portal.Subscriptions.Provisioning.Approving.{
  reprovision_route-Keeps, approve-Keeps, reject-Keeps,
}
use apisix_developer_portal.Subscriptions.Provisioning.Deleting.{
  delete_application_and_routes-Keeps,
}
use apisix_developer_portal.Subscriptions.Provisioning.Removing.{delete-Keeps}
use apisix_developer_portal.Subscriptions.Provisioning.Keying.{
  subscribe-Keeps, unsubscribe-Keeps, reprovision_plan-Keeps, set_oidc_client_id-Keeps,
  enable_sandbox-Keeps, rotate_sandbox_key-Keeps, rotate_key-Keeps,
}

-- The exported operations of `Service` that change a table or a gateway. `DeprovisionRoute` stands
-- in its one caller, the removal of a product (internal/admin/service.go, `Delete`).
pub data Operation : Type 0 where
  subscribing : ℕ → ℕ → ℕ → Operation
  unsubscribing : ℕ → ℕ → Operation
  approving rejecting deleting_application deleting_product : ℕ → Operation
  setting_client_id : ℕ → String → Operation
  enabling_sandbox rotating_sandbox_key rotating_key : ℕ → Operation
  reprovisioning_route reprovisioning_sandbox_route reprovisioning_plan : ℕ → Operation

abbrev discard : {A : Type 0} → M A → M (Unit {0})
discard m = m >>= λ _. pure tt

unfoldable pub perform : Service → Operation → M (Unit {0})
perform svc (subscribing app_id product_id plan_id) =
    discard (subscribe svc app_id product_id plan_id)
perform svc (unsubscribing app_id product_id) = unsubscribe svc app_id product_id
perform svc (approving sub_id) = approve svc sub_id
perform svc (rejecting sub_id) = reject svc sub_id
perform svc (deleting_application app_id) = delete_application_and_routes svc app_id
perform svc (deleting_product product_id) = delete product_id
perform svc (setting_client_id app_id client_id) = set_oidc_client_id svc app_id client_id
perform svc (enabling_sandbox app_id) = discard (enable_sandbox svc app_id)
perform svc (rotating_sandbox_key app_id) = discard (rotate_sandbox_key svc app_id)
perform svc (rotating_key app_id) = discard (rotate_key svc app_id)
perform svc (reprovisioning_route product_id) = reprovision_route svc product_id []
perform svc (reprovisioning_sandbox_route product_id) = reprovision_sandbox_route svc product_id []
perform svc (reprovisioning_plan plan_id) = reprovision_plan svc plan_id

perform-Keeps : (svc : Service) (o : Operation) → Keeps (perform svc o)
unfolding perform
perform-Keeps svc (subscribing app_id product_id plan_id) =
    Keeps-bind _ _ (subscribe-Keeps svc app_id product_id plan_id)
      (λ _. Keeps-quiet _ (IsQuiet-pure tt))
perform-Keeps svc (unsubscribing app_id product_id) = unsubscribe-Keeps svc app_id product_id
perform-Keeps svc (approving sub_id) = approve-Keeps svc sub_id
perform-Keeps svc (rejecting sub_id) = reject-Keeps svc sub_id
perform-Keeps svc (deleting_application app_id) = delete_application_and_routes-Keeps svc app_id
perform-Keeps svc (deleting_product product_id) = delete-Keeps product_id
perform-Keeps svc (setting_client_id app_id client_id) =
    set_oidc_client_id-Keeps svc app_id client_id
perform-Keeps svc (enabling_sandbox app_id) =
    Keeps-bind _ _ (enable_sandbox-Keeps svc app_id) (λ _. Keeps-quiet _ (IsQuiet-pure tt))
perform-Keeps svc (rotating_sandbox_key app_id) =
    Keeps-bind _ _ (rotate_sandbox_key-Keeps svc app_id) (λ _. Keeps-quiet _ (IsQuiet-pure tt))
perform-Keeps svc (rotating_key app_id) =
    Keeps-bind _ _ (rotate_key-Keeps svc app_id) (λ _. Keeps-quiet _ (IsQuiet-pure tt))
perform-Keeps svc (reprovisioning_route product_id) = reprovision_route-Keeps svc product_id []
perform-Keeps svc (reprovisioning_sandbox_route product_id) =
    Keeps-quiet _ (reprovision_sandbox_route-IsQuiet svc product_id [])
perform-Keeps svc (reprovisioning_plan plan_id) = reprovision_plan-Keeps svc plan_id

abbrev pub after : Service → Operation → List Fault → State → State
after svc o faults s = (perform svc o (record { state = s; faults = faults })).1.state

-- The states that a history of operations reaches.
pub data Reaches (s : State) : State → Type 0 where
  start : Reaches s s
  next :
      {t : State} (svc : Service) (o : Operation) (faults : List Fault)
      → Reaches s t
      → Reaches s (after svc o faults t)

-- The invariant after an action, however it ended.
pub kept : (x : Result (Unit {0})) (s : State) → Post (λ _. Holds) Holds x s → Holds s
kept (ok _) s h = h
kept (err _) s h = h

-- One operation, whatever calls of it fail and wherever it stops, keeps the invariant that active
-- subscriptions of key products are provisioned.
pub after-Holds :
    (svc : Service) (o : Operation) (faults : List Fault) (s : State)
    → Holds s
    → Holds (after svc o faults s)
after-Holds svc o faults s h =
    let r : Run = record { state = s; faults = faults } in
    kept (perform svc o r).0 (perform svc o r).1.state ((perform-Keeps svc o).holds.at r h)

Reaches-Holds : {s t : State} → Holds s → Reaches s t → Holds t
Reaches-Holds h start = h
Reaches-Holds h (next {t} svc o faults r) = after-Holds svc o faults t (Reaches-Holds h r)

-- A portal without subscriptions and credentials satisfies the invariant.
pub Holds-initial : (s : State) → s.db.subscriptions ≡ [] → s.db.credentials ≡ [] → Holds s
Holds-initial s no_subscriptions no_credentials = record {
  named = λ c m. elim (rw no_credentials at m) [ ];
  below = λ r m. elim (rw no_subscriptions at m) [ ];
  unique = λ r r' m. elim (rw no_subscriptions at m) [ ];
  paired = λ r r' m. elim (rw no_subscriptions at m) [ ];
  planned = λ r m. elim (rw no_subscriptions at m) [ ];
  served = λ r m. elim (rw no_subscriptions at m) [ ];
}

-- In every state that operations of the service, and removals of products by an administrator, which
-- alone call its `DeprovisionRoute`, reach from one without subscriptions and credentials, whatever
-- calls fail or lose their answer, each active subscription to a product with keys is served by the
-- gateway: the application has a credential, its consumer is installed, and the product's route checks
-- keys and admits that consumer.
pub active-IsServed :
    (s t : State)
    → s.db.subscriptions ≡ []
    → s.db.credentials ≡ []
    → Reaches s t
    → (r : SubscriptionRow) → Memᴰ r t.db.subscriptions
    → is_active r ≡ true
    → IsKeyProduct t.db.products r.api_product_id
    → IsServed t.db.credentials t.gw r.application_id r.api_product_id
active-IsServed s t no_subscriptions no_credentials reached =
    (Reaches-Holds (Holds-initial s no_subscriptions no_credentials) reached).served
