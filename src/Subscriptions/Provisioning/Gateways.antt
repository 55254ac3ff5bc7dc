-- ===== src/Subscriptions/Provisioning/Gateways.antt =====
-- What a change of the gateway does to the invariant.
use mathlib.Core.List.{Memᴰ}
use mathlib.Core.List.Memᴰ
use mathlib.Core.List.Memᴰ.{head, tail}
use apisix_developer_portal.Common.{
  ℕ, String, true, false, ◌&&◌, Option, some, List, [], ◌∷◌, ◌++◌, ◌≡◌, sym, inl, inr, ◌⊎◌, ◌∙◌,
  str_eq, ◌==◌, ==_self, eq_iff, eq_refl, arith, any, Bool-cases, mem-select, mem-join, is_empty,
  if◌then◌else◌,
}
use apisix_developer_portal.Apisix.{
  Gateway, Route, RateLimit, put_key, delete_key, ensure_consumer, delete_consumer, delete_route,
}
use apisix_developer_portal.Db.{PlanRow, ProductRow, CredentialRow, SubscriptionRow, Db}
use apisix_developer_portal.Subscriptions.Model.{
  consumer_name, consumer_name-injective, route_id, route_id-injective,
}
use apisix_developer_portal.Subscriptions.Repo.{is_active}
use apisix_developer_portal.Subscriptions.Repo.Whitelists.{owned_by, whitelist}
use apisix_developer_portal.Subscriptions.Service.{add_missing}
use apisix_developer_portal.Subscriptions.Provisioning.{
  IsKeyProduct, HasCredential, IsInstalled, IsServed, IsProvisioned,
}

module _ {ℓ} {V : Type ℓ} where
  pub put_key_self : (m : String → Option V) (k : String) (v : V) → put_key m k v k ≡ some v
  put_key_self m k v = rw (eq_refl k)

  pub put_key_cases :
      (m : String → Option V) (k j : String) (v : V)
      → ((k ≡ j) × (put_key m k v j ≡ some v)) ⊎ (put_key m k v j ≡ m j)
  put_key_cases m k j v = elim (Bool-cases (str_eq k j)) [
    | inl e ↦ inl ((eq_iff k j).0 e, rw e)
    | inr e ↦ inr (rw e)
  ]

  pub delete_key_cases : (m : String → Option V) (k j : String) → (k ≡ j) ⊎ (delete_key m k j ≡ m j)
  delete_key_cases m k j = elim (Bool-cases (str_eq k j)) [
    | inl e ↦ inl ((eq_iff k j).0 e)
    | inr e ↦ inr (rw e)
  ]

-- Every subscriber of the product with a credential is on its whitelist.
pub whitelist-has :
    (d : Db) (r : SubscriptionRow) (c : CredentialRow) {product_id : ℕ}
    → Memᴰ r d.subscriptions
    → is_active r ≡ true
    → r.api_product_id ≡ product_id
    → Memᴰ c d.credentials
    → c.application_id ≡ r.application_id
    → Memᴰ c.consumer_username (whitelist d product_id)
whitelist-has d r c {product_id} m a p n o =
    Memᴰ.map (λ (x : SubscriptionRow × CredentialRow). x.1.consumer_username)
      (mem-join owned_by r c _ d.credentials
        (mem-select (λ s. s.api_product_id == product_id && is_active s) r d.subscriptions m
          (ground arith))
        n (rw o (==_self _)))

module _ (gw : Gateway) where
  pub ensure_consumer-IsInstalled :
      (username key : String) (limit : RateLimit) (app_id : ℕ)
      → IsInstalled gw.consumers app_id
      → IsInstalled (ensure_consumer username key limit gw).consumers app_id
  unfolding ensure_consumer
  ensure_consumer-IsInstalled username key limit app_id (c, e) =
      elim (put_key_cases gw.consumers username (consumer_name app_id)
        (record { api_key = key; limit = limit })) [ inl (_, p) ↦ (_, p) | inr p ↦ (c, p ∙ e) ]

module _ {subscriptions : List SubscriptionRow} {next : ℕ} {plans : List PlanRow}
    {products : List ProductRow} {credentials : List CredentialRow} {gw : Gateway} where
  -- Another gateway that serves all that this one serves.
  pub IsProvisioned-gateway :
      (gw' : Gateway)
      → IsProvisioned subscriptions next plans products credentials gw
      → ((r : SubscriptionRow)
          → Memᴰ r subscriptions
          → is_active r ≡ true
          → IsKeyProduct products r.api_product_id
          → IsServed credentials gw r.application_id r.api_product_id
          → IsServed credentials gw' r.application_id r.api_product_id)
      → IsProvisioned subscriptions next plans products credentials gw'
  IsProvisioned-gateway gw' h keep = record {
    named = h.named;
    below = h.below;
    unique = h.unique;
    paired = h.paired;
    planned = h.planned;
    served = λ r m a k. keep r m a k (h.served r m a k);
  }

  pub ensure_consumer-IsProvisioned :
      (username key : String) (limit : RateLimit)
      → IsProvisioned subscriptions next plans products credentials gw
      → IsProvisioned subscriptions next plans products credentials
          (ensure_consumer username key limit gw)
  ensure_consumer-IsProvisioned username key limit h =
      IsProvisioned-gateway (ensure_consumer username key limit gw) h (λ r m a k s. record {
        credential = s.credential;
        admitted = unfold ensure_consumer in s.admitted;
        installed = ensure_consumer-IsInstalled gw username key limit r.application_id s.installed;
      })

  -- A consumer goes whose application has no subscription to a product with keys.
  pub delete_consumer-IsProvisioned :
      (app_id : ℕ)
      → ((r : SubscriptionRow)
          → Memᴰ r subscriptions
          → r.application_id ≡ app_id
          → IsKeyProduct products r.api_product_id
          → ⊥)
      → IsProvisioned subscriptions next plans products credentials gw
      → IsProvisioned subscriptions next plans products credentials
          (delete_consumer (consumer_name app_id) gw)
  unfolding delete_consumer
  delete_consumer-IsProvisioned app_id free h =
      IsProvisioned-gateway (delete_consumer (consumer_name app_id) gw) h (λ r m a k s. record {
        credential = s.credential;
        admitted = s.admitted;
        installed =
            elim (delete_key_cases gw.consumers (consumer_name app_id)
              (consumer_name r.application_id)) [
                | inl e ↦ absurd (free r m (sym (consumer_name-injective _ _ e)) k)
                | inr e ↦ (s.installed.0, e ∙ s.installed.1)
              ];
      })

  -- A route of a product is set, and admits every active subscriber of a product with keys.
  pub put_route-IsProvisioned :
      (product_id : ℕ) (route : Route)
      → ((r : SubscriptionRow)
          → Memᴰ r subscriptions
          → is_active r ≡ true
          → r.api_product_id ≡ product_id
          → IsKeyProduct products product_id
          → HasCredential credentials r.application_id
          → Memᴰ (consumer_name r.application_id) route.allowed × (route.oauth ≡ false))
      → IsProvisioned subscriptions next plans products credentials gw
      → IsProvisioned subscriptions next plans products credentials
          (record gw { routes = put_key gw.routes (route_id product_id) route })
  put_route-IsProvisioned product_id route covers h =
      IsProvisioned-gateway (record gw { routes = put_key gw.routes (route_id product_id) route }) h
        (λ r m a k s. record {
          credential = s.credential;
          admitted =
              elim (put_key_cases gw.routes (route_id product_id) (route_id r.api_product_id)
                route) [
                  | inl (e, p) ↦
                      let same : r.api_product_id ≡ product_id = sym (route_id-injective _ _ e) in
                      let (named, keyed) = covers r m a same (rw same at k) s.credential in
                      (route, p, named, keyed)
                  | inr p ↦ (s.admitted.0, p ∙ s.admitted.1, s.admitted.2, s.admitted.3)
                ];
          installed = s.installed;
        })

  -- A route goes where no application has an active subscription to the product with a key.
  pub delete_route-IsProvisioned :
      (product_id : ℕ)
      → ((r : SubscriptionRow)
          → Memᴰ r subscriptions
          → is_active r ≡ true
          → r.api_product_id ≡ product_id
          → IsKeyProduct products product_id
          → HasCredential credentials r.application_id
          → ⊥)
      → IsProvisioned subscriptions next plans products credentials gw
      → IsProvisioned subscriptions next plans products credentials
          (delete_route (route_id product_id) gw)
  unfolding delete_route
  delete_route-IsProvisioned product_id free h =
      IsProvisioned-gateway (delete_route (route_id product_id) gw) h (λ r m a k s. record {
        credential = s.credential;
        admitted =
            elim (delete_key_cases gw.routes (route_id product_id) (route_id r.api_product_id)) [
              | inl e ↦
                  let same : r.api_product_id ≡ product_id = sym (route_id-injective _ _ e) in
                  absurd (free r m a same (rw same at k) s.credential)
              | inr p ↦ (s.admitted.0, p ∙ s.admitted.1, s.admitted.2, s.admitted.3)
            ];
        installed = s.installed;
      })

-- The loop over the extra names keeps the list and adds them.
pub mem-add_missing_left :
    (a : String) (extra allowed : List String) → Memᴰ a allowed → Memᴰ a (add_missing allowed extra)
unfolding add_missing
mem-add_missing_left a [] allowed m = m
mem-add_missing_left a (e ∷ es) allowed m = elim (Bool-cases (any (λ b. str_eq b e) allowed)) [
  | inl t ↦ rw t (mem-add_missing_left a es allowed m)
  | inr t ↦ rw t (mem-add_missing_left a es (allowed ++ e ∷ []) (Memᴰ.append_left (e ∷ []) m))
]

mem-any : (a : String) (xs : List String) → any (λ b. str_eq b a) xs ≡ true → Memᴰ a xs
mem-any a [] h = cc
mem-any a (x ∷ xs) h = elim (Bool-cases (str_eq x a)) [
  | inl t ↦ head (sym ((eq_iff x a).0 t))
  | inr t ↦ tail (mem-any a xs (rw t at h))
]

pub mem-add_missing_right :
    (a : String) (extra allowed : List String) → Memᴰ a extra → Memᴰ a (add_missing allowed extra)
unfolding add_missing
mem-add_missing_right a [] allowed m = elim m [ ]
mem-add_missing_right a (e ∷ es) allowed (head same) =
    mem-add_missing_left a es (if any (λ b. str_eq b e) allowed then allowed else allowed ++ e ∷ [])
      (elim (Bool-cases (any (λ b. str_eq b e) allowed)) [
        | inl t ↦ rw t (Memᴰ.cast same (mem-any e allowed t))
        | inr t ↦ rw t (Memᴰ.append_right allowed (head same))
      ])
mem-add_missing_right a (e ∷ es) allowed (tail m) =
    mem-add_missing_right a es
      (if any (λ b. str_eq b e) allowed then allowed else allowed ++ e ∷ []) m

pub empty-mem : {A : Type 0} (a : A) (xs : List A) → is_empty xs ≡ true → Memᴰ a xs → ⊥
empty-mem a [] e m = elim m [ ]
empty-mem a (x ∷ xs) e m = cc
