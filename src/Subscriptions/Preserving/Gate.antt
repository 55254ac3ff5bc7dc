-- ===== src/Subscriptions/Preserving/Gate.antt =====
-- The approval gate: the operations of the service, and which subscriptions are active.
use apisix_developer_portal.Common.{
  ℕ, String, Bool, true, false, List, [], ◌∷◌, ◌≡◌, ◌⊎◌, inl, inr, refl, sym, subst, ◌∙◌, ap, Memᴰ,
  str_eq, ◌==◌, ==_iff, any, update_where, update_where-mem, delete_where-mem, Bool-cases,
}
use mathlib.Core.List.Memᴰ.{head, tail}
use apisix_developer_portal.Db.{SubscriptionRow}
use apisix_developer_portal.Effects.{State, Fault}
use apisix_developer_portal.Effects.Preserves.{
  Preserves, Preserves-bind, Preserves-pure, Preserves-call, preserves_rules,
}
use apisix_developer_portal.Billing.{
  plan_pricing, pending_invoice_exists, team_for_app, create_invoice, subscription_activated,
}
use apisix_developer_portal.Subscriptions.Model.{status_active, status_rejected}
use apisix_developer_portal.Admin.Products.{has_id, delete_row}
use apisix_developer_portal.Subscriptions.Repo.{
  is_active, of_pair, pend, references_exist, upsert_subscription, save_subscription,
  delete_subscription, delete_application, remove_subscriptions, set_subscription_status,
}
use apisix_developer_portal.Subscriptions.Service.{Service}
use apisix_developer_portal.Subscriptions.Provisioning.Operations.{
  Operation, subscribing, unsubscribing, approving, rejecting, deleting_application,
  deleting_product, setting_client_id, enabling_sandbox, rotating_sandbox_key, rotating_key,
  reprovisioning_route, reprovisioning_sandbox_route, reprovisioning_plan, perform, after,
}
use apisix_developer_portal.Subscriptions.Preserving.Operations.{
  subscribe-Preserves, unsubscribe-Preserves, approve-Preserves, reject-Preserves,
  delete_application_and_routes-Preserves, delete_product-Preserves, enable_sandbox-Preserves,
  rotate_sandbox_key-Preserves, rotate_key-Preserves, reprovision_plan-Preserves,
}
use apisix_developer_portal.Subscriptions.Preserving.{
  set_oidc_client_id-Preserves, reprovision_route-Preserves, reprovision_sandbox_route-Preserves,
  Fact, OfRows, ensure_account-Preserves,
}

-- Every active subscription is one of `before`, or has an id that satisfies `Approved`.
abbrev pub IsGated : List SubscriptionRow → (ℕ → Type 0) → Fact
IsGated before Approved subscriptions _ =
    (r : SubscriptionRow)
    → Memᴰ r subscriptions
    → is_active r ≡ true
    → Memᴰ r before ⊎ Approved r.id

pended_inactive :
    (p : SubscriptionRow → Bool) (plan_id : ℕ) (rows : List SubscriptionRow) (r : SubscriptionRow)
    → Memᴰ r (update_where p (pend plan_id) rows)
    → is_active r ≡ true
    → Memᴰ r rows
pended_inactive p plan_id rows r m a =
    let (b, mb, from) = update_where-mem p (pend plan_id) r rows m in
    elim from [
      | inl (_, e) ↦
          let k : is_active (pend plan_id b) ≡ true = subst (λ x. is_active x ≡ true) e a in
          absurd cc
      | inr (_, e) ↦ subst (λ x. Memᴰ x rows) (sym e) mb
    ]

inserted_inactive :
    (new r : SubscriptionRow) (rows : List SubscriptionRow)
    → is_active new ≡ false
    → Memᴰ r (new ∷ rows)
    → is_active r ≡ true
    → Memᴰ r rows
inserted_inactive new r rows pending (tail m) a = m
inserted_inactive new r rows pending (head e) a =
    let k : is_active r ≡ false = ap is_active e ∙ pending in absurd cc

written_status :
    (id : ℕ) (status : String) (rows : List SubscriptionRow) (r : SubscriptionRow)
    → Memᴰ r (
        update_where
          (λ (s : SubscriptionRow). s.id == id)
          (λ (s : SubscriptionRow). record s { status = status })
          rows)
    → Memᴰ r rows ⊎ ((r.id ≡ id) × (r.status ≡ status))
written_status id status rows r m =
    let (b, mb, from) =
      update_where-mem (λ (s : SubscriptionRow). s.id == id)
        (λ (s : SubscriptionRow). record s { status = status }) r rows m in
    elim from [
      | inl (t, e) ↦ inr (
        ap (λ (x : SubscriptionRow). x.id) e ∙ (==_iff b.id id).0 t,
        ap (λ (x : SubscriptionRow). x.status) e,
      )
      | inr (_, e) ↦ inl (subst (λ x. Memᴰ x rows) (sym e) mb)
    ]

module _ (before : List SubscriptionRow) (Approved : ℕ → Type 0) where
  pub save_subscription-Gated :
      (app_id product_id plan_id : ℕ)
      → Preserves (OfRows (IsGated before Approved)) (save_subscription app_id product_id plan_id)
  unfolding save_subscription
  save_subscription-Gated app_id product_id plan_id = Preserves-call _ λ s h.
      elim (Bool-cases (references_exist s.db app_id product_id plan_id)) [
        | inl t ↦ elim (Bool-cases (any (of_pair app_id product_id) s.db.subscriptions)) [
          | inl u ↦
              rw (t, upsert_subscription, u)
                (λ r m a.
                  h r (pended_inactive (of_pair app_id product_id) plan_id s.db.subscriptions r m a)
                    a)
          | inr u ↦
              rw (t, upsert_subscription, u)
                (λ r m a. h r (inserted_inactive _ r s.db.subscriptions refl m a) a)
        ]
        | inr t ↦ rw t h
      ]

  pub delete_subscription-Gated :
      (app_id product_id : ℕ)
      → Preserves (OfRows (IsGated before Approved)) (delete_subscription app_id product_id)
  unfolding delete_subscription remove_subscriptions
  delete_subscription-Gated app_id product_id =
      Preserves-call _
        λ s h r m a. h r (delete_where-mem (of_pair app_id product_id) r s.db.subscriptions m).0 a

  pub delete_application-Gated :
      (app_id : ℕ) → Preserves (OfRows (IsGated before Approved)) (delete_application app_id)
  unfolding delete_application remove_subscriptions
  delete_application-Gated app_id = Preserves-call _ λ s h r m a.
      h r
        (delete_where-mem (λ (s : SubscriptionRow). s.application_id == app_id) r s.db.subscriptions
          m).0
        a

  pub delete_row-Gated : (id : ℕ) → Preserves (OfRows (IsGated before Approved)) (delete_row id)
  unfolding delete_row remove_subscriptions
  delete_row-Gated id = Preserves-call _ λ s h. elim (Bool-cases (any (has_id id) s.db.products)) [
    | inl t ↦ rw t λ r m a.
        h r
          (delete_where-mem (λ (s : SubscriptionRow). s.api_product_id == id) r s.db.subscriptions
            m).0
          a
    | inr t ↦ rw t h
  ]

  -- A status that is not "active", or one for a subscription that may be active.
  pub set_subscription_status-Gated :
      (id : ℕ) (status : String)
      → (str_eq status status_active ≡ true → Approved id)
      → Preserves (OfRows (IsGated before Approved)) (set_subscription_status id status)
  unfolding set_subscription_status
  set_subscription_status-Gated id status allowed = Preserves-call _ λ s h.
      elim (Bool-cases (any (λ (s : SubscriptionRow). s.id == id) s.db.subscriptions)) [
        | inl t ↦ rw t (λ r m a. elim (written_status id status s.db.subscriptions r m) [
          | inl there ↦ h r there a
          | inr (same, set) ↦ inr (
              subst Approved (sym same)
                (allowed (subst (λ x. str_eq x status_active ≡ true) set a)))
        ])
        | inr t ↦ rw t h
      ]

  created :
      (account_id team_id sub_id : ℕ) (name : String) (price_cents : ℕ) (currency : String)
      → Preserves
          (OfRows (IsGated before Approved))
          (create_invoice account_id team_id sub_id name price_cents currency)
  unfolding create_invoice
  created account_id team_id sub_id name price_cents currency = Preserves-call _ (λ s h. h)

  pub subscription_activated-Gated :
      (app_id id plan_id : ℕ)
      → Preserves (OfRows (IsGated before Approved)) (subscription_activated app_id id plan_id)
  unfolding subscription_activated plan_pricing pending_invoice_exists team_for_app
  subscription_activated-Gated app_id id plan_id =
      search (preserves_rules, ensure_account-Preserves, created) depth 16

performed :
    (svc : Service) (o : Operation) (before : List SubscriptionRow)
    → Preserves (OfRows (IsGated before (λ id. o ≡ approving id))) (perform svc o)
unfolding perform
performed svc (subscribing app_id product_id plan_id) before =
    Preserves-bind _ _
      (subscribe-Preserves _ svc app_id product_id plan_id (save_subscription-Gated _ _))
      (λ _. Preserves-pure tt)
performed svc (unsubscribing app_id product_id) before =
    unsubscribe-Preserves _ svc app_id product_id (delete_subscription-Gated _ _)
performed svc (approving sub_id) before =
    approve-Preserves _ svc sub_id
      (set_subscription_status-Gated _ _ sub_id status_active (λ _. refl))
      (subscription_activated-Gated _ _)
performed svc (rejecting sub_id) before =
    reject-Preserves _ svc sub_id
      (λ id. set_subscription_status-Gated _ _ id status_rejected (λ e. absurd cc))
performed svc (deleting_application app_id) before =
    delete_application_and_routes-Preserves _ svc app_id (delete_subscription-Gated _ _)
      (delete_application-Gated _ _)
performed svc (deleting_product product_id) before =
    delete_product-Preserves _ product_id (delete_row-Gated _ _ product_id)
performed svc (setting_client_id app_id client_id) before =
    set_oidc_client_id-Preserves _ svc app_id client_id
performed svc (enabling_sandbox app_id) before =
    Preserves-bind _ _ (enable_sandbox-Preserves _ svc app_id) (λ _. Preserves-pure tt)
performed svc (rotating_sandbox_key app_id) before =
    Preserves-bind _ _ (rotate_sandbox_key-Preserves _ svc app_id) (λ _. Preserves-pure tt)
performed svc (rotating_key app_id) before =
    Preserves-bind _ _ (rotate_key-Preserves _ svc app_id) (λ _. Preserves-pure tt)
performed svc (reprovisioning_route product_id) before =
    reprovision_route-Preserves _ svc product_id []
performed svc (reprovisioning_sandbox_route product_id) before =
    reprovision_sandbox_route-Preserves _ svc product_id []
performed svc (reprovisioning_plan plan_id) before = reprovision_plan-Preserves _ svc plan_id

-- Whatever calls fail, a subscription that is active after an operation of the service, or after the
-- removal of a product, was the same active
-- subscription before it, or the operation is the approval of that subscription.
pub only_approve_activates :
    (svc : Service) (o : Operation) (faults : List Fault) (s : State) (r : SubscriptionRow)
    → Memᴰ r (after svc o faults s).db.subscriptions
    → is_active r ≡ true
    → Memᴰ r s.db.subscriptions ⊎ (o ≡ approving r.id)
only_approve_activates svc o faults s =
    (performed svc o s.db.subscriptions).at (record { state = s; faults = faults }) (λ r m _. inl m)
