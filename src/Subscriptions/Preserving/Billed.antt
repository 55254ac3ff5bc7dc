-- ===== src/Subscriptions/Preserving/Billed.antt =====
-- The ledger: the open invoices of a subscription, under the writes of the service's operations and
-- of the administrator's settlements.
use apisix_developer_portal.Common.{
  eq_iff, ℕ, ◌≤◌, String, Bool, true, false, not, ◌&&◌, List, ◌∷◌, ◌≡◌, refl, map, str_eq, length,
  select, any, Option-cases, some, subst, &&-true, ==_iff, Bool-cases, inl, inr, arith, ◌==◌,
}
use apisix_developer_portal.Common.Counting.{count-map, count-update_where, count-any}
use apisix_developer_portal.Db.{SubscriptionRow, InvoiceRow, Db}
use apisix_developer_portal.Effects.{
  Result, invoice_invalid_transition, invoice_not_found, State, M, ok, err, raise,
}
use apisix_developer_portal.Effects.Triple.{
  Triple, Triple-bind, Triple-query, Triple-if, Triple-pure, Triple-call, Triple-weaken,
}
use apisix_developer_portal.Effects.Preserves.{
  Preserves, Preserves-bind, Preserves-pure, Preserves-call, Preserves-triple, Triple-Preserves,
  Preserves-query, Preserves-if, Preserves-try, Preserves-raise,
}
use apisix_developer_portal.Billing.{
  bills, invoice_pending, new_invoice, invoice_void, is_open, is_pending, pay, cancel, settle, get,
  transition_error, mark_paid, void, plan_pricing, pending_invoice_exists, team_for_app,
  ensure_account, create_invoice, subscription_activated,
}
use apisix_developer_portal.Subscriptions.Repo.{
  references_exist, of_pair, upsert_subscription, save_subscription, detach, delete_subscription,
  delete_application, remove_subscriptions, set_subscription_status,
}
use apisix_developer_portal.Admin.Products.{has_id, delete_row}
use apisix_developer_portal.Subscriptions.Preserving.{Fact, OfRows, ensure_account-Preserves}

-- At most one open invoice per subscription.
abbrev pub IsBilledOnce : Fact
IsBilledOnce _ invoices = (sub_id : ℕ) → length (select (is_open sub_id) invoices) ≤ 1

-- The same, and none for one subscription.
abbrev IsUnbilled : ℕ → Fact
IsUnbilled id subscriptions invoices =
    IsBilledOnce subscriptions invoices × (any (is_open id) invoices ≡ false)

detach-open :
    (gone : List SubscriptionRow) (sub_id : ℕ) (i : InvoiceRow)
    → is_open sub_id (detach gone i) ≡ true
    → is_open sub_id i ≡ true
detach-open gone sub_id i h = elim (Option-cases i.subscription_id) [
  | inl e ↦ rw (detach, e) at h
  | inr (j, e) ↦ elim (Bool-cases (any (λ (s : SubscriptionRow). s.id == j) gone)) [
    | inl t ↦ absurd (let k : false ≡ true = rw (e, t) at h in cc)
    | inr t ↦
        let k : (j == sub_id && not (str_eq i.status invoice_void)) ≡ true = rw (e, t) at h in
        rw e k
  ]
]

detached :
    (gone : List SubscriptionRow) (invoices : List InvoiceRow)
    → ((sub_id : ℕ) → length (select (is_open sub_id) invoices) ≤ 1)
    → (sub_id : ℕ) → length (select (is_open sub_id) (map (detach gone) invoices)) ≤ 1
detached gone invoices h sub_id =
    let fewer = count-map (is_open sub_id) (detach gone) (detach-open gone sub_id) invoices in
    let before = h sub_id in omega arith

billed_one :
    (i : InvoiceRow) (id : ℕ) (invoices : List InvoiceRow)
    → i.subscription_id ≡ some id
    → ((sub_id : ℕ) → length (select (is_open sub_id) invoices) ≤ 1)
    → any (is_open id) invoices ≡ false
    → (sub_id : ℕ) → length (select (is_open sub_id) (i ∷ invoices)) ≤ 1
billed_one i id invoices e h unbilled sub_id =
    let before = h sub_id in
    elim (Bool-cases (is_open sub_id i)) [
      | inr u ↦ rw u before
      | inl u ↦
          let b : (id == sub_id) ≡ true = (&&-true _ _ (rw e at u)).0 in
          let same : id ≡ sub_id = (==_iff id sub_id).0 b in
          let none_open : length (select (is_open sub_id) invoices) ≡ 0 =
            count-any (is_open sub_id) invoices
              (subst (λ n. any (is_open n) invoices ≡ false) same unbilled) in
          rw u (omega arith)
    ]

created :
    (account_id team_id id : ℕ) (name : String) (price_cents : ℕ) (currency : String)
    → Triple
        (OfRows (IsUnbilled id))
        (create_invoice account_id team_id id name price_cents currency)
        (λ _. OfRows IsBilledOnce)
        (OfRows IsBilledOnce)
unfolding create_invoice
created account_id team_id id name price_cents currency = Triple-call _ (λ s h. h.0) added added
  where
    added :
        (s : State)
        → OfRows (IsUnbilled id) s
        → (sub_id : ℕ)
        → length (
            select (is_open sub_id) (
              new_invoice account_id team_id id name price_cents currency s.db.next_invoice
              ∷ s.db.invoices))
          ≤ 1
    added s h =
        billed_one (new_invoice account_id team_id id name price_cents currency s.db.next_invoice)
          id s.db.invoices refl h.0 h.1

pub subscription_activated-Billed :
    (app_id id plan_id : ℕ)
    → Preserves (OfRows IsBilledOnce) (subscription_activated app_id id plan_id)
unfolding subscription_activated plan_pricing pending_invoice_exists team_for_app
subscription_activated-Billed app_id id plan_id =
    Preserves-bind _ _ (Preserves-query _) λ (name, price_cents, currency).
      Preserves-if (price_cents == 0) _ _ (Preserves-pure tt) (
        Preserves-triple _ (
          Triple-bind _ _
            (Triple-query (OfRows IsBilledOnce) (OfRows IsBilledOnce)
              (λ d. ok (any (is_open id) d.invoices)) (λ s h. h))
            λ exists.
              Triple-if exists _ _ (λ _. Triple-pure tt (λ s h. h.0))
                (λ fresh. Triple-bind _ _ (unbilled fresh (Preserves-query _)) λ team_id.
                  Triple-bind _ _ (ensured team_id) λ account_id.
                    Triple-bind _ _ (created account_id team_id id name price_cents currency)
                      (λ _. Triple-pure tt (λ s h. h)))))
  where
    ensured :
        (team_id : ℕ)
        → Triple
            (OfRows (IsUnbilled id))
            (ensure_account team_id)
            (λ _. OfRows (IsUnbilled id))
            (OfRows IsBilledOnce)
    ensured team_id =
        Triple-weaken _ (Triple-Preserves _ (ensure_account-Preserves (IsUnbilled id) team_id))
          (λ s h. h) (λ a s h. h) (λ s h. h.0)

    unbilled :
        {exists : Bool} {A : Type 0} {m : M A}
        → exists ≡ false
        → Preserves (OfRows (IsUnbilled id)) m
        → Triple
            (λ s. OfRows IsBilledOnce s × (ok (any (is_open id) s.db.invoices) ≡ ok exists))
            m
            (λ _. OfRows (IsUnbilled id))
            (OfRows IsBilledOnce)
    unbilled fresh kept =
        Triple-weaken _ (Triple-Preserves _ kept) (λ s (h, e). (h, cc)) (λ a s h. h) (λ s h. h.0)

pub save_subscription-Billed :
    (app_id product_id plan_id : ℕ)
    → Preserves (OfRows IsBilledOnce) (save_subscription app_id product_id plan_id)
unfolding save_subscription
save_subscription-Billed app_id product_id plan_id = Preserves-call _ λ s h.
    elim (Bool-cases (references_exist s.db app_id product_id plan_id)) [
      | inl t ↦ elim (Bool-cases (any (of_pair app_id product_id) s.db.subscriptions)) [
        | inl u ↦ rw (t, upsert_subscription, u) h
        | inr u ↦ rw (t, upsert_subscription, u) h
      ]
      | inr t ↦ rw t h
    ]

pub delete_subscription-Billed :
    (app_id product_id : ℕ)
    → Preserves (OfRows IsBilledOnce) (delete_subscription app_id product_id)
unfolding delete_subscription remove_subscriptions
delete_subscription-Billed app_id product_id = Preserves-call _ (λ s h. detached _ s.db.invoices h)

pub delete_application-Billed :
    (app_id : ℕ) → Preserves (OfRows IsBilledOnce) (delete_application app_id)
unfolding delete_application remove_subscriptions
delete_application-Billed app_id = Preserves-call _ (λ s h. detached _ s.db.invoices h)

pub delete_row-Billed : (id : ℕ) → Preserves (OfRows IsBilledOnce) (delete_row id)
unfolding delete_row remove_subscriptions
delete_row-Billed id = Preserves-call _ λ s h. elim (Bool-cases (any (has_id id) s.db.products)) [
  | inl t ↦ rw t (detached _ s.db.invoices h)
  | inr t ↦ rw t h
]

pub set_subscription_status-Billed :
    (id : ℕ) (status : String) → Preserves (OfRows IsBilledOnce) (set_subscription_status id status)
unfolding set_subscription_status
set_subscription_status-Billed id status = Preserves-call _ λ s h.
    elim (Bool-cases (any (λ (s : SubscriptionRow). s.id == id) s.db.subscriptions)) [
      | inl t ↦ rw t h
      | inr t ↦ rw t h
    ]

settle-Billed :
    (change : Db → InvoiceRow → InvoiceRow) (id : ℕ)
    → ((d : Db) (sub_id : ℕ) (i : InvoiceRow)
        → is_pending id i ≡ true
        → is_open sub_id (change d i) ≡ true
        → is_open sub_id i ≡ true)
    → Preserves (OfRows IsBilledOnce) (settle change id)
unfolding settle
settle-Billed change id closed = Preserves-call _ λ s h sub_id.
    let fewer =
      count-update_where (is_open sub_id) (is_pending id) (change s.db) (closed s.db sub_id)
        s.db.invoices in
    let before = h sub_id in omega arith

still_open :
    (id sub_id : ℕ) (i : InvoiceRow)
    → is_pending id i ≡ true
    → bills sub_id i ≡ true
    → is_open sub_id i ≡ true
still_open id sub_id i pending billed =
    let same = (eq_iff i.status invoice_pending).0 (&&-true _ _ pending).1 in rw (billed, same) refl

transition_error-Billed : (id : ℕ) → Preserves (OfRows IsBilledOnce) (transition_error id)
unfolding transition_error get
transition_error-Billed id = Preserves-bind _ _ (Preserves-try _ (Preserves-query _)) ending
  where
    ending :
        (found : Result InvoiceRow)
        → Preserves {A = Unit {0}} (OfRows IsBilledOnce) (elim found [
          | ok _ ↦ raise invoice_invalid_transition
          | err invoice_not_found ↦ raise invoice_not_found
          | err _ ↦ raise invoice_invalid_transition
        ])
    ending (ok _) = Preserves-raise _
    ending (err invoice_not_found) = Preserves-raise _
    ending (err e) = Preserves-raise _

pub mark_paid-Billed : (id : ℕ) → Preserves (OfRows IsBilledOnce) (mark_paid id)
unfolding mark_paid
mark_paid-Billed id =
    Preserves-bind _ _
      (settle-Billed pay id
        (λ d sub_id i pending paid. still_open id sub_id i pending (&&-true _ _ paid).0))
      (λ affected. Preserves-if affected _ _ (Preserves-pure tt) (transition_error-Billed id))

pub void-Billed : (id : ℕ) → Preserves (OfRows IsBilledOnce) (void id)
unfolding void
void-Billed id =
    Preserves-bind _ _
      (settle-Billed cancel id
        (λ d sub_id i pending voided. still_open id sub_id i pending (&&-true _ _ voided).0))
      (λ affected. Preserves-if affected _ _ (Preserves-pure tt) (transition_error-Billed id))
