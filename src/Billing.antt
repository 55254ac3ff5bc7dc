-- ===== src/Billing.antt =====
-- internal/billing: the invoices of paid subscriptions. The queries are those of repo.go, and
-- `subscription_activated` is the service's hook on an approval (service.go), with `ManualProvider`
-- (provider.go), whose charge always succeeds.
pub mod Ledger
pub mod Settlement
use apisix_developer_portal.Common.{
  ℕ, ◌+◌, String, Bool, true, false, ◌&&◌, not, Option, none, some, List, [], ◌∷◌, str_eq, ◌==◌,
  if◌then◌else◌, select, find, any, update_where,
}
use apisix_developer_portal.Db.{PlanRow, ApplicationRow, AccountRow, InvoiceRow, Db}
use apisix_developer_portal.Effects.{
  failure, invoice_not_found, invoice_invalid_transition, Result, ok, err, M, pure, raise, try,
  query, exec, ◌>>=◌, ◌>>◌,
}

abbrev pub invoice_pending : String
invoice_pending = "pending"

abbrev pub invoice_paid : String
invoice_paid = "paid"

abbrev pub invoice_void : String
invoice_void = "void"

-- A missing row is reported as `pgx.ErrNoRows`, which no caller tells apart.
unfoldable pub plan_pricing : ℕ → M (String × ℕ × String)
plan_pricing plan_id = query λ d. elim (find (λ (p : PlanRow). p.id == plan_id) d.plans) [
  | none ↦ err failure
  | some p ↦ ok (p.name, p.price_cents, p.currency)
]

unfoldable pub team_for_app : ℕ → M ℕ
team_for_app app_id = query λ d.
    elim (find (λ (a : ApplicationRow). a.id == app_id) d.applications) [
      | none ↦ err failure
      | some a ↦ ok a.team_id
    ]

-- `INSERT … ON CONFLICT (team_id) DO UPDATE … RETURNING id`
unfoldable pub ensure_account : ℕ → M ℕ
ensure_account team_id = exec λ d.
    elim (find (λ (a : AccountRow). a.team_id == team_id) d.accounts) [
      | some a ↦ (ok a.id, d)
      | none ↦ (
        ok d.next_account,
        record d {
          accounts = record { id = d.next_account; team_id = team_id } ∷ d.accounts;
          next_account = d.next_account + 1;
        },
      )
    ]

-- `subscription_id = $1`, which a NULL does not satisfy.
abbrev pub bills : ℕ → InvoiceRow → Bool
bills sub_id i = elim i.subscription_id [ none ↦ false | some j ↦ j == sub_id ]

abbrev pub is_open : ℕ → InvoiceRow → Bool
is_open sub_id i = bills sub_id i && not (str_eq i.status invoice_void)

unfoldable pub pending_invoice_exists : ℕ → M Bool
pending_invoice_exists sub_id = query (λ d. ok (any (is_open sub_id) d.invoices))

abbrev pub new_invoice : ℕ → ℕ → ℕ → String → ℕ → String → ℕ → InvoiceRow
new_invoice account_id team_id sub_id plan_name price_cents currency id = record {
  id = id;
  billing_account_id = account_id;
  team_id = team_id;
  subscription_id = some sub_id;
  plan_name = plan_name;
  price_cents = price_cents;
  currency = currency;
  status = invoice_pending;
  paid_at = none;
}

unfoldable pub create_invoice : ℕ → ℕ → ℕ → String → ℕ → String → M InvoiceRow
create_invoice account_id team_id sub_id plan_name price_cents currency = exec λ d.
    let i = new_invoice account_id team_id sub_id plan_name price_cents currency d.next_invoice in
    (ok i, record d { invoices = i ∷ d.invoices; next_invoice = d.next_invoice + 1 })

unfoldable pub subscription_activated : ℕ → ℕ → ℕ → M (Unit {0})
subscription_activated app_id sub_id plan_id = do
  (name, price_cents, currency) ← plan_pricing plan_id
  if price_cents == 0 then pure tt else do
    exists ← pending_invoice_exists sub_id
    if exists then pure tt else do
      team_id ← team_for_app app_id
      account_id ← ensure_account team_id
      create_invoice account_id team_id sub_id name price_cents currency
      pure tt

abbrev pub find_invoice : Db → ℕ → Result InvoiceRow
find_invoice d id = elim (find (λ (i : InvoiceRow). i.id == id) d.invoices) [
  | none ↦ err invoice_not_found
  | some i ↦ ok i
]

unfoldable pub get : ℕ → M InvoiceRow
get id = query (λ d. find_invoice d id)

-- `transitionError`: the answer for an update that found no pending invoice.
unfoldable pub transition_error : ℕ → M (Unit {0})
unfolding get
transition_error id = do
  found ← try (get id)
  elim found [
    | ok _ ↦ raise invoice_invalid_transition
    | err invoice_not_found ↦ raise invoice_not_found
    | err _ ↦ raise invoice_invalid_transition
  ]

abbrev pub is_pending : ℕ → InvoiceRow → Bool
is_pending id i = i.id == id && str_eq i.status invoice_pending

-- `UPDATE invoices SET status=… WHERE id=$1 AND status='pending'`, the rows affected or none.
unfoldable pub settle : (Db → InvoiceRow → InvoiceRow) → ℕ → M Bool
settle change id = exec λ d. (
  ok (any (is_pending id) d.invoices),
  record d { invoices = update_where (is_pending id) (change d) d.invoices },
)

abbrev pub pay : Db → InvoiceRow → InvoiceRow
pay d i = record i { status = invoice_paid; paid_at = some d.now }

abbrev pub cancel : Db → InvoiceRow → InvoiceRow
cancel d i = record i { status = invoice_void }

unfoldable pub mark_paid : ℕ → M (Unit {0})
unfolding settle transition_error
mark_paid id = do affected ← settle pay id; if affected then pure tt else transition_error id

unfoldable pub void : ℕ → M (Unit {0})
unfolding settle transition_error
void id = do affected ← settle cancel id; if affected then pure tt else transition_error id
