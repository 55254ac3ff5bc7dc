-- ===== src/Billing/Ledger.antt =====
-- The ledger over a history of the service's operations, whose approvals bill, and of the
-- administrator's settlements (internal/billing/repo.go, `MarkPaid` and `Void`).
use apisix_developer_portal.Common.{ℕ, ◌≤◌, List, [], ◌≡◌, length, select, arith}
use apisix_developer_portal.Billing.{is_open, mark_paid, void}
use apisix_developer_portal.Effects.{State, Fault, M}
use apisix_developer_portal.Effects.Preserves.{Preserves, Preserves-bind, Preserves-pure}
use apisix_developer_portal.Subscriptions.Model.{status_active, status_rejected}
use apisix_developer_portal.Subscriptions.Service.{Service}
use apisix_developer_portal.Subscriptions.Provisioning.Operations.{
  Operation, subscribing, unsubscribing, approving, rejecting, deleting_application,
  deleting_product, setting_client_id, enabling_sandbox, rotating_sandbox_key, rotating_key,
  reprovisioning_route, reprovisioning_sandbox_route, reprovisioning_plan, perform,
}
use apisix_developer_portal.Subscriptions.Preserving.Operations.{
  subscribe-Preserves, unsubscribe-Preserves, approve-Preserves, reject-Preserves,
  delete_application_and_routes-Preserves, delete_product-Preserves, enable_sandbox-Preserves,
  rotate_sandbox_key-Preserves, rotate_key-Preserves, reprovision_plan-Preserves,
}
use apisix_developer_portal.Subscriptions.Preserving.{
  OfRows, set_oidc_client_id-Preserves, reprovision_route-Preserves,
  reprovision_sandbox_route-Preserves,
}
use apisix_developer_portal.Subscriptions.Preserving.Billed.{
  IsBilledOnce, save_subscription-Billed, delete_subscription-Billed, delete_application-Billed,
  delete_row-Billed, set_subscription_status-Billed, subscription_activated-Billed,
  mark_paid-Billed, void-Billed,
}

-- What may happen to the ledger: an operation of the subscriptions, or a settlement.
pub data Entry : Type 0 where
  serving : Service → Operation → Entry
  paying voiding : ℕ → Entry

unfoldable pub enter : Entry → M (Unit {0})
enter (serving svc o) = perform svc o
enter (paying id) = mark_paid id
enter (voiding id) = void id

abbrev pub entered : Entry → List Fault → State → State
entered e faults s = (enter e (record { state = s; faults = faults })).1.state

pub data Accounts (s : State) : State → Type 0 where
  opened : Accounts s s
  then_entry :
      {t : State} (e : Entry) (faults : List Fault) → Accounts s t → Accounts s (entered e faults t)

performed : (svc : Service) (o : Operation) → Preserves (OfRows IsBilledOnce) (perform svc o)
unfolding perform
performed svc (subscribing app_id product_id plan_id) =
    Preserves-bind _ _
      (subscribe-Preserves _ svc app_id product_id plan_id save_subscription-Billed)
      (λ _. Preserves-pure tt)
performed svc (unsubscribing app_id product_id) =
    unsubscribe-Preserves _ svc app_id product_id delete_subscription-Billed
performed svc (approving sub_id) =
    approve-Preserves _ svc sub_id (set_subscription_status-Billed sub_id status_active)
      subscription_activated-Billed
performed svc (rejecting sub_id) =
    reject-Preserves _ svc sub_id (λ id. set_subscription_status-Billed id status_rejected)
performed svc (deleting_application app_id) =
    delete_application_and_routes-Preserves _ svc app_id delete_subscription-Billed
      delete_application-Billed
performed svc (deleting_product product_id) =
    delete_product-Preserves _ product_id (delete_row-Billed product_id)
performed svc (setting_client_id app_id client_id) =
    set_oidc_client_id-Preserves _ svc app_id client_id
performed svc (enabling_sandbox app_id) =
    Preserves-bind _ _ (enable_sandbox-Preserves _ svc app_id) (λ _. Preserves-pure tt)
performed svc (rotating_sandbox_key app_id) =
    Preserves-bind _ _ (rotate_sandbox_key-Preserves _ svc app_id) (λ _. Preserves-pure tt)
performed svc (rotating_key app_id) =
    Preserves-bind _ _ (rotate_key-Preserves _ svc app_id) (λ _. Preserves-pure tt)
performed svc (reprovisioning_route product_id) = reprovision_route-Preserves _ svc product_id []
performed svc (reprovisioning_sandbox_route product_id) =
    reprovision_sandbox_route-Preserves _ svc product_id []
performed svc (reprovisioning_plan plan_id) = reprovision_plan-Preserves _ svc plan_id

entry-Billed : (e : Entry) → Preserves (OfRows IsBilledOnce) (enter e)
unfolding enter
entry-Billed (serving svc o) = performed svc o
entry-Billed (paying id) = mark_paid-Billed id
entry-Billed (voiding id) = void-Billed id

Accounts-Billed : {s t : State} → OfRows IsBilledOnce s → Accounts s t → OfRows IsBilledOnce t
Accounts-Billed h opened = h
Accounts-Billed h (then_entry {t} e faults before) =
    (entry-Billed e).at (record { state = t; faults = faults }) (Accounts-Billed h before)

-- In every state that operations of the service, removals of products and settlements reach from one
-- without invoices, whatever calls fail, a subscription has at most one invoice that is not void.
pub one_open_invoice :
    (s t : State)
    → s.db.invoices ≡ []
    → Accounts s t
    → (sub_id : ℕ) → length (select (is_open sub_id) t.db.invoices) ≤ 1
one_open_invoice s t no_invoices reached =
    Accounts-Billed (λ sub_id. rw no_invoices (omega arith)) reached
