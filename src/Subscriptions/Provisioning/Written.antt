-- ===== src/Subscriptions/Provisioning/Written.antt =====
-- The invariant after a write of a product's route, for each of the writes that rebuilding makes.
use apisix_developer_portal.Common.{
  ℕ, String, true, false, some, List, Memᴰ, ◌≡◌, refl, sym, ap, inl, inr, ◌∙◌, ◌==◌, ==_iff, str_eq,
  find, find-mem, Option-cases, is_empty,
}
use apisix_developer_portal.Apisix.{Route, ensure_route, ensure_oauth_route, delete_route}
use apisix_developer_portal.Db.{ProductRow, SubscriptionRow, Db}
use apisix_developer_portal.Effects.{State, ok}
use apisix_developer_portal.Subscriptions.Model.{ProductInfo, consumer_name, route_id}
use apisix_developer_portal.Subscriptions.Repo.{is_active, product_info, find_product}
use apisix_developer_portal.Subscriptions.Repo.Whitelists.{whitelist}
use apisix_developer_portal.Subscriptions.Service.{add_missing}
use apisix_developer_portal.Subscriptions.Provisioning.{IsKeyProduct, HasCredential, Admits, Holds}
use apisix_developer_portal.Subscriptions.Provisioning.Gateways.{
  put_key_self, whitelist-has, put_route-IsProvisioned, delete_route-IsProvisioned,
  mem-add_missing_left, empty-mem,
}

-- What the product query answers about the tables.
pub find_product-row :
    (d : Db) (id : ℕ) (prod : ProductInfo)
    → find_product d id ≡ ok prod
    → (row : ProductRow) × (find (λ (p : ProductRow). p.id == id) d.products ≡ some row)
      × (prod ≡ product_info row)
      × (row.id ≡ id)
find_product-row d id prod h =
    elim (Option-cases (find (λ (p : ProductRow). p.id == id) d.products)) [
      | inl e ↦ let k = rw (e, find_product) at h in cc
      | inr (row, e) ↦
          let k : ok (product_info row) ≡ ok prod = rw (e, find_product) at h in
          (
            row,
            e,
            cc,
            (==_iff row.id id).0 (find-mem (λ (p : ProductRow). p.id == id) d.products e).1,
          )
    ]

pub IsKeyProduct-auth :
    (d : Db) (id : ℕ) (prod : ProductInfo)
    → find_product d id ≡ ok prod
    → IsKeyProduct d.products id
    → str_eq prod.auth_type "oauth2" ≡ false
IsKeyProduct-auth d id prod h (row, e, k) =
    let (row', e', q, _) = find_product-row d id prod h in
    let same : row ≡ row' = (let both = sym e ∙ e' in cc) in rw (q, ← same) k

module _ (product_id : ℕ) (prod : ProductInfo) (extra : List String) (s : State) (h : Holds s)
    (found : find_product s.db product_id ≡ ok prod) where
  same_route : route_id prod.id ≡ route_id product_id
  same_route =
      let (row, _, e, i) = find_product-row s.db product_id prod found in
      ap route_id (ap (λ (q : ProductInfo). q.id) e ∙ i)

  abbrev pub Covers : List String → Type 0
  Covers allowed =
      (r : SubscriptionRow)
      → Memᴰ r s.db.subscriptions
      → is_active r ≡ true
      → r.api_product_id ≡ product_id
      → HasCredential s.db.credentials r.application_id
      → Memᴰ (consumer_name r.application_id) allowed

  -- The whitelist of the route covers the active subscribers.
  pub whitelist-Covers :
      (consumers : List String)
      → ok (whitelist s.db product_id) ≡ ok consumers
      → Covers (add_missing consumers extra)
  whitelist-Covers consumers e r m a p (c, n, o) =
      let same : whitelist s.db product_id ≡ consumers = cc in
      let known = whitelist-has s.db r c m a p n o in
      mem-add_missing_left _ extra consumers (rw (← same, ← o, ← h.named c n) known)

  pub keys_deleted :
      (allowed : List String)
      → Covers allowed
      → is_empty allowed ≡ true
      → Holds (record s { gw = delete_route (route_id prod.id) s.gw })
  keys_deleted allowed covers none_left = rw same_route (
      delete_route-IsProvisioned product_id
        (λ r m a p k c. empty-mem _ allowed none_left (covers r m a p c)) h)

  pub keys_written :
      (allowed : List String)
      → Covers allowed
      → Holds (record s {
        gw = ensure_route (route_id prod.id) prod.context_path prod.upstream allowed s.gw;
      })
  unfolding ensure_route
  keys_written allowed covers = rw same_route (
      put_route-IsProvisioned product_id
        (record {
          uri = prod.context_path;
          upstream = prod.upstream;
          allowed = allowed;
          oauth = false;
        })
        (λ r m a p k c. (covers r m a p c, refl)) h)

  pub oauth_deleted :
      str_eq prod.auth_type "oauth2" ≡ true
      → Holds (record s { gw = delete_route (route_id prod.id) s.gw })
  oauth_deleted oauth = rw same_route (
      delete_route-IsProvisioned product_id
        (λ r m a p k c. let key = IsKeyProduct-auth s.db product_id prod found k in cc) h)

  pub oauth_written :
      (issuer claim : String) (allowed : List String)
      → str_eq prod.auth_type "oauth2" ≡ true
      → Holds (record s {
        gw =
            ensure_oauth_route
              (route_id prod.id)
              prod.context_path
              prod.upstream
              issuer
              claim
              allowed
              s.gw;
      })
  unfolding ensure_oauth_route
  oauth_written issuer claim allowed oauth = rw same_route (
      put_route-IsProvisioned product_id
        (record {
          uri = prod.context_path;
          upstream = prod.upstream;
          allowed = allowed;
          oauth = true;
        })
        (λ r m a p k c. let key = IsKeyProduct-auth s.db product_id prod found k in cc) h)

  pub written-Admits :
      (allowed : List String) (app_id : ℕ)
      → Memᴰ (consumer_name app_id) allowed
      → Admits
          (ensure_route (route_id prod.id) prod.context_path prod.upstream allowed s.gw).routes
          app_id
          product_id
  unfolding ensure_route
  written-Admits allowed app_id m =
      let route : Route = record {
        uri = prod.context_path;
        upstream = prod.upstream;
        allowed = allowed;
        oauth = false;
      } in
      rw same_route (route, put_key_self s.gw.routes (route_id product_id) route, m, refl)
