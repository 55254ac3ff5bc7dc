-- ===== src/Subscriptions/Provisioning/Removing.antt =====
-- internal/admin/service.go, `Delete`: a product goes, and the portal's call of `DeprovisionRoute`
-- takes its route from the gateway.
use apisix_developer_portal.Common.{
  ℕ, false, some, List, [], ◌∷◌, Memᴰ, ◌≡◌, inl, inr, ltb, ◌==◌, ==_iff, arith, find, any,
  delete_where, delete_where-mem, Bool-cases,
}
use apisix_developer_portal.Db.{PlanRow, ProductRow, CredentialRow, SubscriptionRow}
use apisix_developer_portal.Apisix.{Gateway, delete_route}
use apisix_developer_portal.Effects.{Result, ok, err, State}
use apisix_developer_portal.Effects.Triple.{
  Post, Triple, Triple-bind, Triple-call, Triple-if, Triple-pure, Triple-raise, Triple-try_total,
}
use apisix_developer_portal.Admin.Products.{has_id, delete_row, count_active_subscriptions, delete}
use apisix_developer_portal.Subscriptions.Model.{route_id}
use apisix_developer_portal.Subscriptions.Repo.{remove_subscriptions}
use apisix_developer_portal.Subscriptions.Service.{on_gateway}
use apisix_developer_portal.Subscriptions.Service.Routes.{deprovision_route}
use apisix_developer_portal.Subscriptions.Provisioning.{IsProvisioned, Holds}
use apisix_developer_portal.Subscriptions.Provisioning.Tables.{delete-IsProvisioned}
use apisix_developer_portal.Subscriptions.Provisioning.Gateways.{delete_route-IsProvisioned}
use apisix_developer_portal.Subscriptions.Provisioning.Quiet.{IsQuiet-query}
use apisix_developer_portal.Subscriptions.Provisioning.Requests.{Keeps, Keeps-quiet}

found_before :
    (id other : ℕ) (products : List ProductRow) (row : ProductRow)
    → (other == id) ≡ false
    → find (λ (p : ProductRow). p.id == other) (delete_where (has_id id) products) ≡ some row
    → find (λ (p : ProductRow). p.id == other) products ≡ some row
found_before id other [] row apart found = found
found_before id other (p ∷ products) row apart found =
    let rest = found_before id other products row apart in
    elim (Bool-cases (p.id == id)) [
      | inl t ↦
          let skipped : (p.id == other) ≡ false = ground arith in rw skipped (rest (rw t at found))
      | inr t ↦ elim (Bool-cases (p.id == other)) [
        | inl u ↦ rw u (rw (t, u) at found)
        | inr u ↦ rw u (rest (rw (t, u) at found))
      ]
    ]

-- The row of a product goes with its subscriptions.
removed-IsProvisioned :
    {subscriptions : List SubscriptionRow} {next : ℕ} {plans : List PlanRow}
    {products : List ProductRow} {credentials : List CredentialRow} {gw : Gateway} (id : ℕ)
    → IsProvisioned subscriptions next plans products credentials gw
    → IsProvisioned
        (delete_where (λ (s : SubscriptionRow). s.api_product_id == id) subscriptions)
        next
        plans
        (delete_where (has_id id) products)
        credentials
        gw
removed-IsProvisioned {subscriptions} {products} id h =
    let rows = delete-IsProvisioned (λ (s : SubscriptionRow). s.api_product_id == id) h in
    record {
      named = rows.named;
      below = rows.below;
      unique = rows.unique;
      paired = rows.paired;
      planned = rows.planned;
      served = λ r m a (row, found, keyed).
          let (_, apart) =
            delete_where-mem (λ (s : SubscriptionRow). s.api_product_id == id) r subscriptions m in
          rows.served r m a (row, found_before id r.api_product_id products row apart found, keyed);
    }

-- No subscription to the product is left.
abbrev IsFree : ℕ → State → Type 0
IsFree id s = (r : SubscriptionRow) → Memᴰ r s.db.subscriptions → (r.api_product_id == id) ≡ false

delete_row-IsFree : (id : ℕ) → Triple Holds (delete_row id) (λ _ s. Holds s × IsFree id s) Holds
unfolding delete_row remove_subscriptions
delete_row-IsFree id =
    Triple-call _ (λ s h. h)
      (λ s h. elim (Bool-cases (any (has_id id) s.db.products)) [
        | inl t ↦ rw t (removed-IsProvisioned id h)
        | inr t ↦ rw t h
      ])
      (λ s h. elim (Bool-cases (any (has_id id) s.db.products)) [
        | inl t ↦ rw t (
          removed-IsProvisioned id h,
          λ r m.
              (delete_where-mem (λ (s : SubscriptionRow). s.api_product_id == id) r
                s.db.subscriptions m).1,
        )
        | inr t ↦ rw t h
      ])

deprovision_route-Holds :
    (id : ℕ) → Triple (λ s. Holds s × IsFree id s) (deprovision_route id) (λ _. Holds) Holds
unfolding deprovision_route on_gateway
deprovision_route-Holds id = Triple-call _ (λ s p. p.0) (λ s p. gone s p) (λ s p. gone s p)
  where
    gone :
        (s : State)
        → Holds s × IsFree id s
        → Holds (record s { gw = delete_route (route_id id) s.gw })
    gone s p =
        delete_route-IsProvisioned id
          (λ r m a same k c.
            let apart = p.1 r m in let e = (==_iff r.api_product_id id).1 same in cc)
          p.0

tried : (x : Result (Unit {0})) (s : State) → Post (λ _. Holds) Holds x s → Holds s
tried (ok _) s h = h
tried (err _) s h = h

pub delete-Keeps : (id : ℕ) → Keeps (delete id)
unfolding delete count_active_subscriptions
delete-Keeps id = record {
  holds = Triple-bind _ _ (Keeps-quiet _ (IsQuiet-query _)).holds λ n.
      Triple-if (ltb 0 n) _ _ (λ used. Triple-raise _ (λ s h. h))
        λ unused. Triple-bind _ _ (delete_row-IsFree id) λ _.
          Triple-bind _ _ (Triple-try_total _ (deprovision_route-Holds id))
            (λ x. Triple-pure {P = Post (λ _. Holds) Holds x} tt (λ s h. tried x s h));
}
