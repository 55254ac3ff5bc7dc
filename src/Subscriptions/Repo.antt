-- ===== src/Subscriptions/Repo.antt =====
-- internal/subscriptions/repo.go: the queries of `Repo` over the tables of Db. Rows that a query
-- does not order come in table order. A database error is a fault of the call (Effects). `collate`
-- is the order of names in the database's collation.
pub mod Keys
pub mod Whitelists
use apisix_developer_portal.Common.{
  ℕ, suc, ◌+◌, String, Bool, true, false, ◌&&◌, not, Option, none, some, List, [], ◌∷◌, map, str_eq,
  ◌==◌, ltb, if◌then◌else◌, select, find, any, update_where, delete_where, join,
}
use apisix_developer_portal.Db.{
  ProductRow, PlanRow, ApplicationRow, CredentialRow, SubscriptionRow, InvoiceRow, Db,
}
use apisix_developer_portal.Effects.{
  Error, not_found, failure, Result, ok, err, State, M, query, exec,
}
use apisix_developer_portal.Subscriptions.Model.{
  ProductInfo, PlanInfo, SubscriptionRecord, status_active, status_pending,
}

-- `pgx.ErrNoRows` becomes `e`.
abbrev pub or_error {ℓ} : {A : Type ℓ} → Error → Option A → Result A
or_error e none = err e
or_error e (some a) = ok a

abbrev pub is_active : SubscriptionRow → Bool
is_active s = str_eq s.status status_active

abbrev pub of_pair : ℕ → ℕ → SubscriptionRow → Bool
of_pair app_id product_id s = s.application_id == app_id && s.api_product_id == product_id

abbrev pub product_info : ProductRow → ProductInfo
product_info p = record {
  id = p.id;
  context_path = p.context_path;
  upstream = p.upstream_url;
  sandbox_upstream = p.sandbox_upstream_url;
  published = p.published;
  auth_type = p.auth_type;
  lifecycle_status = p.lifecycle_status;
}

abbrev pub plan_info : PlanRow → PlanInfo
plan_info p = record {
  id = p.id;
  count = p.rate_limit_count;
  window_seconds = p.rate_limit_window_s;
}

abbrev pub find_product : Db → ℕ → Result ProductInfo
find_product d id = elim (find (λ (p : ProductRow). p.id == id) d.products) [
  | none ↦ err not_found
  | some p ↦ ok (product_info p)
]

unfoldable pub get_product : ℕ → M ProductInfo
get_product id = query (λ d. find_product d id)

abbrev pub find_plan : Db → ℕ → Result PlanInfo
find_plan d id = elim (find (λ (p : PlanRow). p.id == id) d.plans) [
  | none ↦ err not_found
  | some p ↦ ok (plan_info p)
]

unfoldable pub get_plan : ℕ → M PlanInfo
get_plan id = query (λ d. find_plan d id)

-- The foreign keys of a subscription's row.
abbrev pub references_exist : Db → ℕ → ℕ → ℕ → Bool
references_exist d app_id product_id plan_id =
    any (λ (a : ApplicationRow). a.id == app_id) d.applications
    && any (λ (p : ProductRow). p.id == product_id) d.products
    && any (λ (p : PlanRow). p.id == plan_id) d.plans

abbrev pub pend : ℕ → SubscriptionRow → SubscriptionRow
pend plan_id s = record s { plan_id = plan_id; status = status_pending }

-- `INSERT … ON CONFLICT (application_id, api_product_id) DO UPDATE`
unfoldable pub upsert_subscription : ℕ → ℕ → ℕ → Db → Db
upsert_subscription app_id product_id plan_id d =
    if any (of_pair app_id product_id) d.subscriptions
    then record d {
      subscriptions = update_where (of_pair app_id product_id) (pend plan_id) d.subscriptions;
    }
    else record d {
      subscriptions =
          record {
            id = d.next_subscription;
            application_id = app_id;
            api_product_id = product_id;
            plan_id = plan_id;
            status = status_pending;
            created_at = d.now;
          }
          ∷ d.subscriptions;
      next_subscription = d.next_subscription + 1;
    }

unfoldable pub save_subscription : ℕ → ℕ → ℕ → M (Unit {0})
unfolding upsert_subscription
save_subscription app_id product_id plan_id = exec λ d.
    if references_exist d app_id product_id plan_id
    then (ok tt, upsert_subscription app_id product_id plan_id d)
    else (err failure, d)

-- `ON DELETE SET NULL` on the invoices of the subscriptions that go.
abbrev pub detach : List SubscriptionRow → InvoiceRow → InvoiceRow
detach gone i = elim i.subscription_id [
  | none ↦ i
  | some sub_id ↦
      if any (λ (s : SubscriptionRow). s.id == sub_id) gone
      then record i { subscription_id = none }
      else i
]

unfoldable pub remove_subscriptions : (SubscriptionRow → Bool) → Db → Db
remove_subscriptions p d = record d {
  subscriptions = delete_where p d.subscriptions;
  invoices = map (detach (select p d.subscriptions)) d.invoices;
}

unfoldable pub delete_subscription : ℕ → ℕ → M (Unit {0})
unfolding remove_subscriptions
delete_subscription app_id product_id =
    exec (λ d. (ok tt, remove_subscriptions (of_pair app_id product_id) d))

abbrev pub subscription_record : SubscriptionRow → SubscriptionRecord
subscription_record s = record {
  id = s.id;
  app_id = s.application_id;
  product_id = s.api_product_id;
  plan_id = s.plan_id;
  status = s.status;
}

abbrev pub found_subscription : Db → ℕ → Result SubscriptionRecord
found_subscription d sub_id =
    elim (find (λ (s : SubscriptionRow). s.id == sub_id) d.subscriptions) [
      | none ↦ err not_found
      | some s ↦ ok (subscription_record s)
    ]

unfoldable pub get_subscription : ℕ → M SubscriptionRecord
get_subscription sub_id = query (λ d. found_subscription d sub_id)

abbrev pub status_of : Db → ℕ → ℕ → String
status_of d app_id product_id = elim (find (of_pair app_id product_id) d.subscriptions) [
  | none ↦ ""
  | some s ↦ s.status
]

unfoldable pub subscription_status : ℕ → ℕ → M String
subscription_status app_id product_id = query (λ d. ok (status_of d app_id product_id))

-- An `UPDATE` that affects no row is `ErrNotFound`.
unfoldable pub set_subscription_status : ℕ → String → M (Unit {0})
set_subscription_status sub_id status = exec λ d.
    if any (λ (s : SubscriptionRow). s.id == sub_id) d.subscriptions
    then (
      ok tt,
      record d {
        subscriptions =
            update_where (λ (s : SubscriptionRow). s.id == sub_id)
              (λ (s : SubscriptionRow). record s { status = status }) d.subscriptions;
      },
    )
    else (err not_found, d)

unfoldable pub get_app_oidc_client_id : ℕ → M String
get_app_oidc_client_id app_id = query λ d.
    elim (find (λ (a : ApplicationRow). a.id == app_id) d.applications) [
      | none ↦ err not_found
      | some a ↦ ok a.oidc_client_id
    ]

unfoldable pub set_app_oidc_client_id : ℕ → String → M (Unit {0})
set_app_oidc_client_id app_id client_id = exec λ d.
    if any (λ (a : ApplicationRow). a.id == app_id) d.applications
    then (
      ok tt,
      record d {
        applications =
            update_where (λ (a : ApplicationRow). a.id == app_id)
              (λ (a : ApplicationRow). record a { oidc_client_id = client_id }) d.applications;
      },
    )
    else (err not_found, d)

-- The row goes, and its credential, subscriptions and events with it (`ON DELETE CASCADE`).
unfoldable pub delete_application : ℕ → M (Unit {0})
unfolding remove_subscriptions
delete_application app_id = exec λ d.
    let d' = remove_subscriptions (λ s. s.application_id == app_id) d in
    (
      ok tt,
      record d' {
        applications = delete_where (λ a. a.id == app_id) d.applications;
        credentials = delete_where (λ c. c.application_id == app_id) d.credentials;
        events = delete_where (λ e. e.application_id == app_id) d.events;
      },
    )
