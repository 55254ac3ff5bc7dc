-- ===== src/Subscriptions/Provisioning/Routes.antt =====
-- Rebuilding a product's route, with extra consumers, and the invariant.
use apisix_developer_portal.Common.{
  ℕ, String, true, ◌||◌, Option, List, Memᴰ, ◌≡◌, str_eq, is_empty,
}
use apisix_developer_portal.Apisix.{Consumer, ensure_route, ensure_oauth_route, delete_route}
use apisix_developer_portal.Db.{ProductRow, CredentialRow, SubscriptionRow}
use apisix_developer_portal.Effects.{State, ok}
use apisix_developer_portal.Effects.Triple.{
  Triple, Triple-bind, Triple-call, Triple-if, Triple-query,
}
use apisix_developer_portal.Subscriptions.Model.{ProductInfo, consumer_name, route_id}
use apisix_developer_portal.Subscriptions.Repo.{find_product, get_product}
use apisix_developer_portal.Subscriptions.Repo.Whitelists.{
  whitelist, consumers_for_product, oauth_clients, oauth_clients_for_product,
}
use apisix_developer_portal.Subscriptions.Service.{
  Service, on_gateway, add_missing, add_non_empty, dedup, oidc,
}
use apisix_developer_portal.Subscriptions.Service.Routes.{
  provision_oauth, provision_keys, reprovision_route,
}
use apisix_developer_portal.Subscriptions.Provisioning.{IsKeyProduct, Admits, Holds}
use apisix_developer_portal.Subscriptions.Provisioning.Written.{
  IsKeyProduct-auth, whitelist-Covers, keys_deleted, keys_written, oauth_deleted, oauth_written,
  written-Admits,
}
use apisix_developer_portal.Subscriptions.Provisioning.Gateways.{mem-add_missing_right, empty-mem}

-- A fact about the tables and the consumers, which rebuilding a route leaves alone.
abbrev pub Frame : Type 1
Frame =
    List SubscriptionRow
    → List ProductRow
    → List CredentialRow
    → (String → Option Consumer)
    → Type 0

abbrev pub Framed : Frame → State → Type 0
Framed F s = F s.db.subscriptions s.db.products s.db.credentials s.gw.consumers

module _ (F : Frame) where
  -- What is known when the route of the product is written: the product's row.
  abbrev Found : ℕ → ProductInfo → State → Type 0
  Found product_id prod s = (Holds s × Framed F s) × (find_product s.db product_id ≡ ok prod)

  -- The route admits the extra consumers of a product with keys.
  abbrev pub Rebuilt : ℕ → List String → State → Type 0
  Rebuilt product_id extra s =
      Holds s
      × Framed F s
      × ((app_id : ℕ)
          → IsKeyProduct s.db.products product_id
          → Memᴰ (consumer_name app_id) extra
          → Admits s.gw.routes app_id product_id)

  module _ (product_id : ℕ) (prod : ProductInfo) (extra : List String) where
    provision_keys-Rebuilt :
        Triple
          (Found product_id prod)
          (provision_keys product_id prod extra)
          (λ _. Rebuilt product_id extra)
          Holds
    unfolding provision_keys consumers_for_product on_gateway delete_route ensure_route
    provision_keys-Rebuilt =
        Triple-bind (consumers_for_product product_id) _
          (Triple-query (Found product_id prod) Holds (λ d. ok (whitelist d product_id))
            (λ s p. p.0.0))
          λ consumers.
            Triple-if (is_empty (add_missing consumers extra)) _ _
              (λ none_left.
                Triple-call _ (λ s p. p.0.0.0) (λ s p. deleted consumers none_left s p)
                  (λ s p. (
                    deleted consumers none_left s p,
                    p.0.0.1,
                    λ app_id k m. absurd (
                        empty-mem _ _ none_left
                          (mem-add_missing_right (consumer_name app_id) extra consumers m)),
                  )))
              (λ some_left.
                Triple-call _ (λ s p. p.0.0.0) (λ s p. written consumers s p)
                  (λ s p. (
                    written consumers s p,
                    p.0.0.1,
                    λ app_id k m.
                        written-Admits product_id prod extra s p.0.0.0 p.0.1
                          (add_missing consumers extra) app_id
                          (mem-add_missing_right (consumer_name app_id) extra consumers m),
                  )))
      where
        deleted :
            (consumers : List String)
            → is_empty (add_missing consumers extra) ≡ true
            → (s : State)
            → Found product_id prod s × (ok (whitelist s.db product_id) ≡ ok consumers)
            → Holds (record s { gw = delete_route (route_id prod.id) s.gw })
        deleted consumers none_left s (((h, _), found), e) =
            keys_deleted product_id prod extra s h found (add_missing consumers extra)
              (whitelist-Covers product_id prod extra s h found consumers e) none_left

        written :
            (consumers : List String) (s : State)
            → Found product_id prod s × (ok (whitelist s.db product_id) ≡ ok consumers)
            → Holds (record s {
              gw =
                  ensure_route
                    (route_id prod.id)
                    prod.context_path
                    prod.upstream
                    (add_missing consumers extra)
                    s.gw;
            })
        written consumers s (((h, _), found), e) =
            keys_written product_id prod extra s h found (add_missing consumers extra)
              (whitelist-Covers product_id prod extra s h found consumers e)

    provision_oauth-Rebuilt :
        (svc : Service)
        → str_eq prod.auth_type "oauth2" ≡ true
        → Triple
            (Found product_id prod)
            (provision_oauth svc product_id prod extra)
            (λ _. Rebuilt product_id extra)
            Holds
    unfolding provision_oauth oauth_clients_for_product on_gateway delete_route ensure_oauth_route
    provision_oauth-Rebuilt svc oauth =
        Triple-bind (oauth_clients_for_product product_id) _
          (Triple-query (Found product_id prod) Holds (λ d. ok (oauth_clients d product_id))
            (λ s p. p.0.0))
          λ clients.
            Triple-if (is_empty (add_non_empty clients extra) || str_eq (oidc svc).issuer "") _ _
              (λ _.
                Triple-call _ (λ s p. p.0.0.0)
                  (λ s p. oauth_deleted product_id prod extra s p.0.0.0 p.0.1 oauth)
                  (λ s p. (
                    oauth_deleted product_id prod extra s p.0.0.0 p.0.1 oauth,
                    p.0.0.1,
                    λ app_id k m. absurd (not_keyed s p.0.1 k),
                  )))
              (λ _.
                Triple-call _ (λ s p. p.0.0.0)
                  (λ s p.
                    oauth_written product_id prod extra s p.0.0.0 p.0.1 (oidc svc).issuer
                      (oidc svc).claim (dedup (add_non_empty clients extra)) oauth)
                  (λ s p. (
                    oauth_written product_id prod extra s p.0.0.0 p.0.1 (oidc svc).issuer
                        (oidc svc).claim (dedup (add_non_empty clients extra)) oauth,
                    p.0.0.1,
                    λ app_id k m. absurd (not_keyed s p.0.1 k),
                  )))
      where
        not_keyed :
            (s : State)
            → find_product s.db product_id ≡ ok prod
            → IsKeyProduct s.db.products product_id
            → ⊥
        not_keyed s found k = let key = IsKeyProduct-auth s.db product_id prod found k in cc

  -- The route of any product, with any extra consumers, whatever calls fail.
  pub reprovision_route-Rebuilt :
      (svc : Service) (product_id : ℕ) (extra : List String)
      → Triple
          (λ s. Holds s × Framed F s)
          (reprovision_route svc product_id extra)
          (λ _. Rebuilt product_id extra)
          Holds
  unfolding reprovision_route get_product
  reprovision_route-Rebuilt svc product_id extra =
      Triple-bind (get_product product_id) _
        (Triple-query (λ s. Holds s × Framed F s) Holds (λ d. find_product d product_id)
          (λ s p. p.0))
        λ prod.
          Triple-if (str_eq prod.auth_type "oauth2") _ _
            (λ oauth. provision_oauth-Rebuilt product_id prod extra svc oauth)
            (λ _. provision_keys-Rebuilt product_id prod extra)
