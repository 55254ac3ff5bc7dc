-- ===== src/Subscriptions/Provisioning/Revoking.antt =====
-- Cancelling and rejecting, and the product's route afterwards.
use mathlib.Core.List.Memᴰ.{of_map}
use apisix_developer_portal.Common.{
  ℕ, String, true, false, ◌||◌, Option, some, none, List, [], Memᴰ, ◌≡◌, refl, sym, ap, subst, ◌∙◌,
  str_eq, ==_iff, eq_refl, &&-true, select-mem, join-mem, is_empty,
}
use apisix_developer_portal.Apisix.{
  put_key, delete_key, Route, delete_route, ensure_route, ensure_oauth_route,
}
use apisix_developer_portal.Db.{CredentialRow, SubscriptionRow}
use apisix_developer_portal.Effects.{ok, State}
use apisix_developer_portal.Effects.Triple.{
  Triple, Triple-bind, Triple-call, Triple-if, Triple-query,
}
use apisix_developer_portal.Subscriptions.Model.{
  ProductInfo, consumer_name, consumer_name-injective, route_id,
}
use apisix_developer_portal.Subscriptions.Repo.{is_active, find_product, get_product}
use apisix_developer_portal.Subscriptions.Repo.Whitelists.{
  owned_by, whitelist, consumers_for_product, oauth_clients, oauth_clients_for_product,
}
use apisix_developer_portal.Subscriptions.Service.{
  Service, on_gateway, add_missing, add_non_empty, dedup, oidc,
}
use apisix_developer_portal.Subscriptions.Service.Routes.{
  provision_oauth, provision_keys, reprovision_route,
}
use apisix_developer_portal.Subscriptions.Provisioning.{IsProvisioned, Admits}
use apisix_developer_portal.Subscriptions.Provisioning.Gateways.{put_key_self}
use apisix_developer_portal.Subscriptions.Provisioning.Written.{find_product-row}
use apisix_developer_portal.Subscriptions.Provisioning.Quiet.{Core, Cored}

module _ (app_id product_id : ℕ) where
  -- The invariant, and no active subscription of the application to the product.
  abbrev pub Idle : Core
  Idle subscriptions next plans products credentials gw =
      IsProvisioned subscriptions next plans products credentials gw
      × ((r : SubscriptionRow)
          → Memᴰ r subscriptions
          → r.application_id ≡ app_id
          → r.api_product_id ≡ product_id
          → is_active r ≡ false)

  -- The route does not admit the application.
  abbrev pub Barred : Core
  Barred subscriptions next plans products credentials gw = ¬ Admits gw.routes app_id product_id

  whitelist-not :
      (s : State) → Cored Idle s → ¬ Memᴰ (consumer_name app_id) (whitelist s.db product_id)
  whitelist-not s (h, idle) m =
      let ((r, c), joined, name) =
        of_map (λ (x : SubscriptionRow × CredentialRow). x.1.consumer_username) _ m in
      let (mr, mc, owned) = join-mem owned_by (r, c) _ _ joined in
      let (there, chosen) = select-mem _ r s.db.subscriptions mr in
      let (of_product, active) = &&-true _ _ chosen in
      let same_app : c.application_id ≡ app_id =
        consumer_name-injective _ _ (sym (h.named c mc) ∙ name) in
      let not_active =
        idle r there (sym ((==_iff c.application_id r.application_id).0 owned) ∙ same_app)
          ((==_iff r.api_product_id product_id).0 of_product) in
      cc

  no_route-Barred :
      (routes : String → Option Route)
      → routes (route_id product_id) ≡ none
      → ¬ Admits routes app_id product_id
  no_route-Barred routes e (route, there, _, _) = cc

  oauth-Barred :
      (routes : String → Option Route) (route : Route)
      → routes (route_id product_id) ≡ some route
      → route.oauth ≡ true
      → ¬ Admits routes app_id product_id
  oauth-Barred routes route e o (route', there, _, keyed) =
      let both : some route ≡ some route' = sym e ∙ there in
      let same : route ≡ route' = cc in
      let k : route.oauth ≡ false = ap (λ (x : Route). x.oauth) same ∙ keyed in cc

  unlisted-Barred :
      (routes : String → Option Route) (route : Route)
      → routes (route_id product_id) ≡ some route
      → ¬ Memᴰ (consumer_name app_id) route.allowed
      → ¬ Admits routes app_id product_id
  unlisted-Barred routes route e unlisted (route', there, listed, _) =
      let both : some route ≡ some route' = sym e ∙ there in
      let same : route ≡ route' = cc in
      unlisted (subst (λ (x : Route). Memᴰ (consumer_name app_id) x.allowed) (sym same) listed)

  abbrev pub Anything : State → Type 0
  Anything s = Unit {0}

  module _ (prod : ProductInfo) where
    Located : State → Type 0
    Located s = Cored Idle s × (find_product s.db product_id ≡ ok prod)

    same_route : (s : State) → Located s → route_id prod.id ≡ route_id product_id
    unfolding Located
    same_route s (_, found) =
        let (row, _, e, i) = find_product-row s.db product_id prod found in
        ap route_id (ap (λ (q : ProductInfo). q.id) e ∙ i)

    written :
        (s : State) (route : Route)
        → Located s
        → put_key s.gw.routes (route_id prod.id) route (route_id product_id) ≡ some route
    written s route l = rw (same_route s l) (put_key_self s.gw.routes (route_id product_id) route)

    deleted-Barred :
        (s : State)
        → Located s
        → Cored Barred (record s { gw = delete_route (route_id prod.id) s.gw })
    unfolding delete_route
    deleted-Barred s l =
        let gone : delete_key s.gw.routes (route_id prod.id) (route_id product_id) ≡ none =
          rw (same_route s l, eq_refl (route_id product_id)) refl in
        no_route-Barred (delete_key s.gw.routes (route_id prod.id)) gone

    keyed-Barred :
        (s : State) (consumers : List String)
        → Located s × (ok (whitelist s.db product_id) ≡ ok consumers)
        → Cored Barred (record s {
          gw = ensure_route (route_id prod.id) prod.context_path prod.upstream consumers s.gw;
        })
    unfolding ensure_route Located
    keyed-Barred s consumers (l, e) =
        let route : Route = record {
          uri = prod.context_path;
          upstream = prod.upstream;
          allowed = consumers;
          oauth = false;
        } in
        unlisted-Barred (put_key s.gw.routes (route_id prod.id) route) route (written s route l) (
          let same : whitelist s.db product_id ≡ consumers = cc in
          rw (← same) (whitelist-not s l.0))

    oauth_written-Barred :
        (s : State) (issuer claim : String) (allowed : List String)
        → Located s
        → Cored Barred (record s {
          gw =
              ensure_oauth_route
                (route_id prod.id)
                prod.context_path
                prod.upstream
                issuer
                claim
                allowed
                s.gw;
        })
    unfolding ensure_oauth_route
    oauth_written-Barred s issuer claim allowed l =
        let route : Route = record {
          uri = prod.context_path;
          upstream = prod.upstream;
          allowed = allowed;
          oauth = true;
        } in
        oauth-Barred (put_key s.gw.routes (route_id prod.id) route) route (written s route l) refl

    provision_keys-Barred :
        Triple Located (provision_keys product_id prod []) (λ _. Cored Barred) Anything
    unfolding provision_keys consumers_for_product on_gateway delete_route ensure_route add_missing
    provision_keys-Barred =
        Triple-bind (consumers_for_product product_id) _
          (Triple-query Located Anything (λ d. ok (whitelist d product_id)) (λ s l. tt))
          λ consumers.
            Triple-if (is_empty consumers) _ _
              (λ _. Triple-call _ (λ s p. tt) (λ s p. tt) (λ s p. deleted-Barred s p.0))
              (λ _. Triple-call _ (λ s p. tt) (λ s p. tt) (λ s p. keyed-Barred s consumers p))

    provision_oauth-Barred :
        (svc : Service)
        → Triple Located (provision_oauth svc product_id prod []) (λ _. Cored Barred) Anything
    unfolding provision_oauth oauth_clients_for_product on_gateway delete_route ensure_oauth_route
        add_non_empty
    provision_oauth-Barred svc =
        Triple-bind (oauth_clients_for_product product_id) _
          (Triple-query Located Anything (λ d. ok (oauth_clients d product_id)) (λ s l. tt))
          λ clients.
            Triple-if (is_empty clients || str_eq (oidc svc).issuer "") _ _
              (λ _. Triple-call _ (λ s p. tt) (λ s p. tt) (λ s p. deleted-Barred s p.0))
              (λ _.
                Triple-call _ (λ s p. tt) (λ s p. tt)
                  (λ s p.
                    oauth_written-Barred s (oidc svc).issuer (oidc svc).claim (dedup clients) p.0))

  pub reprovision_route-Barred :
      (svc : Service)
      → Triple (Cored Idle) (reprovision_route svc product_id []) (λ _. Cored Barred) Anything
  unfolding reprovision_route get_product Located
  reprovision_route-Barred svc =
      Triple-bind (get_product product_id) _
        (Triple-query (Cored Idle) Anything (λ d. find_product d product_id) (λ s p. tt))
        λ prod.
          Triple-if (str_eq prod.auth_type "oauth2") _ _ (λ _. provision_oauth-Barred prod svc)
            (λ _. provision_keys-Barred prod)
