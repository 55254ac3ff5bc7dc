-- ===== src/Subscriptions/Provisioning/Deleting.antt =====
-- Deleting an application: the routes that admit it are rebuilt before its consumer goes.
use mathlib.Core.List.Memᴰ
use apisix_developer_portal.Common.{
  ℕ, some, none, List, Memᴰ, ◌≡◌, refl, sym, ap, inl, inr, ◌∙◌, subst, ◌==◌, ==_iff, find, find-mem,
  select, delete_where, delete_where-mem, mem-delete_where, mem-select, mem-join, mem-order_by,
  Option-cases,
}
use apisix_developer_portal.Apisix.{delete_consumer}
use apisix_developer_portal.Crypto.{Cipher}
use apisix_developer_portal.Db.{ProductRow, PlanRow, CredentialRow, SubscriptionRow}
use apisix_developer_portal.Effects.{not_found, Result, ok, err, State, pure, raise}
use apisix_developer_portal.Effects.Triple.{
  Post, Triple, Triple-bind, Triple-call, Triple-lift, Triple-pure, Triple-raise, Triple-query,
  Triple-try, Triple-weaken,
}
use apisix_developer_portal.Subscriptions.Model.{Credential, SubscriptionView, consumer_name}
use apisix_developer_portal.Subscriptions.Repo.{delete_application}
use apisix_developer_portal.Subscriptions.Repo.Keys.{of_app, open_key, get_credential}
use apisix_developer_portal.Subscriptions.Repo.Whitelists.{view, app_views, subscriptions_for_app}
use apisix_developer_portal.Subscriptions.Service.{Service, on_gateway}
use apisix_developer_portal.Subscriptions.Service.Lifecycle.{
  remove_consumers, delete_application_and_routes,
}
use apisix_developer_portal.Subscriptions.Provisioning.{IsKeyProduct, Holds}
use apisix_developer_portal.Subscriptions.Provisioning.Tables.{
  delete-IsProvisioned, credentials-IsProvisioned,
}
use apisix_developer_portal.Subscriptions.Provisioning.Gateways.{delete_consumer-IsProvisioned}
use apisix_developer_portal.Subscriptions.Provisioning.Quiet.{
  quiet_rules, on_sandbox-IsQuiet, get_sandbox_key-IsQuiet,
}
use apisix_developer_portal.Subscriptions.Provisioning.Requests.{Keeps, Keeps-quiet, Keeps-call}
use apisix_developer_portal.Subscriptions.Provisioning.Credentials.{KnownRows, Rows}
use apisix_developer_portal.Subscriptions.Provisioning.Cancelling.{
  NoRows, Survives, unsubscribe_all-NoRows,
}

module _ (svc : Service) (app_id : ℕ) where
  -- Every subscription of the application to a product with keys has a view in the list.
  abbrev Listed : List SubscriptionView → KnownRows
  Listed views ss ps =
      (r : SubscriptionRow)
      → Memᴰ r ss
      → r.application_id ≡ app_id
      → IsKeyProduct ps r.api_product_id
      → (v : SubscriptionView) × Memᴰ v views × (v.product_id ≡ r.api_product_id)

  abbrev Free : KnownRows
  Free ss ps =
      (r : SubscriptionRow)
      → Memᴰ r ss
      → r.application_id ≡ app_id
      → IsKeyProduct ps r.api_product_id
      → ⊥

  app_views-Listed :
      (s : State)
      → Holds s
      → Listed (app_views svc.collate s.db app_id) s.db.subscriptions s.db.products
  app_views-Listed s h r m a (product, e, _) =
      let (plan, n, i) = h.planned r m in
      let (k, t) = find-mem (λ (p : ProductRow). p.id == r.api_product_id) s.db.products e in
      let pair =
        mem-join (λ (x : SubscriptionRow) (p : ProductRow). p.id == x.api_product_id) r product
          (select (λ x. x.application_id == app_id) s.db.subscriptions) s.db.products
          (mem-select (λ x. x.application_id == app_id) r s.db.subscriptions m
            ((==_iff r.application_id app_id).1 a))
          k t in
      let row =
        mem-join (λ (x : SubscriptionRow × ProductRow) (p : PlanRow). p.id == x.0.plan_id)
          (r, product) plan _ s.db.plans pair n ((==_iff plan.id r.plan_id).1 i) in
      (view ((r, product), plan), Memᴰ.map view (mem-order_by _ ((r, product), plan) _ row), refl)

  get_credential-named :
      (D : KnownRows) (cipher : Cipher)
      → Triple
          (λ s. Holds s × Rows D s)
          (get_credential cipher app_id)
          (λ c s. (Holds s × Rows D s) × (c.consumer_username ≡ consumer_name app_id))
          (λ s. Holds s × Rows D s)
  unfolding get_credential
  get_credential-named D cipher =
      Triple-bind _ _
        (Triple-query (λ s. Holds s × Rows D s) (λ s. Holds s × Rows D s)
          (λ d. elim (find (of_app app_id) d.credentials) [ none ↦ err not_found | some c ↦ ok c ])
          (λ s p. p))
        λ row. Triple-lift (open_key cipher row.api_key row) (λ s p. opened row s p.0 p.1)
    where
      opened :
          (row : CredentialRow) (s : State)
          → Holds s × Rows D s
          → elim (find (of_app app_id) s.db.credentials) as (λ _. Result CredentialRow) [
            | none ↦ err not_found
            | some c ↦ ok c
          ]
            ≡ ok row
          → Post
              (λ c s. (Holds s × Rows D s) × (c.consumer_username ≡ consumer_name app_id))
              (λ s. Holds s × Rows D s)
              (open_key cipher row.api_key row)
              s
      opened row s p found = elim (Option-cases (find (of_app app_id) s.db.credentials)) [
        | inl e ↦ let k = rw e at found in cc
        | inr (c, e) ↦
            let k : ok c ≡ ok row = rw e at found in
            let same : c ≡ row = cc in
            let (m, t) = find-mem (of_app app_id) s.db.credentials e in
            let named : c.consumer_username ≡ consumer_name app_id =
              p.0.named c m ∙ ap consumer_name ((==_iff c.application_id app_id).0 t) in
            elim (Option-cases (cipher.decrypt row.api_key)) [
              | inl f ↦ rw (f, Post) p
              | inr (plain, f) ↦
                  rw (f, Post)
                    (p, ap (λ (x : CredentialRow). x.consumer_username) (sym same) ∙ named)
            ]
      ]

  remove_consumers-Holds :
      (c : Credential)
      → c.consumer_username ≡ consumer_name app_id
      → Triple (λ s. Holds s × Rows Free s) (remove_consumers svc app_id c) (λ _. Holds) Holds
  unfolding remove_consumers on_gateway
  remove_consumers-Holds c e =
      Triple-bind {Q = λ _. Holds} _ _
        (Triple-call _ (λ s p. p.0) (λ s p. gone s p) (λ s p. gone s p))
        λ _.
          (Keeps-quiet _ (search (quiet_rules, get_sandbox_key-IsQuiet, on_sandbox-IsQuiet))).holds
    where
      gone :
          (s : State)
          → Holds s × Rows Free s
          → Holds (record s { gw = delete_consumer c.consumer_username s.gw })
      gone s p = rw e (delete_consumer-IsProvisioned app_id p.1 p.0)

  delete_application-Keeps : Keeps (delete_application app_id)
  unfolding delete_application
  delete_application-Keeps = Keeps-call _ λ s h.
      credentials-IsProvisioned (delete_where (λ c. c.application_id == app_id) s.db.credentials)
        (λ c m.
          h.named c (delete_where-mem (λ c. c.application_id == app_id) c s.db.credentials m).0)
        (λ r m a (c, n, o).
          let f = (delete_where-mem (λ r. r.application_id == app_id) r s.db.subscriptions m).1 in
          (c, mem-delete_where (λ c. c.application_id == app_id) s.db.credentials n (rw o f), o))
        (delete-IsProvisioned (λ r. r.application_id == app_id) h)

  pub delete_application_and_routes-Keeps : Keeps (delete_application_and_routes svc app_id)
  unfolding delete_application_and_routes subscriptions_for_app
  delete_application_and_routes-Keeps = record {
    holds =
        Triple-bind _ _
          (Triple-query Holds Holds (λ d. ok (app_views svc.collate d app_id)) (λ s h. h))
          λ views.
            Triple-bind _ _
              (Triple-weaken _
                (unsubscribe_all-NoRows svc app_id views (Listed views) (stays views))
                (λ s p. (p.0, listed views s p.0 p.1))
                (λ _ s p. (p.0, λ r m a k. freed views s p.1 r m a k)) (λ s h. h))
              λ _.
                Triple-bind _ _
                  (Triple-weaken _ (Triple-try _ (get_credential-named Free svc.cipher)) (λ s p. p)
                    (λ _ s p. p) (λ s p. p.0))
                  λ found. Triple-bind _ _ (removed found) (λ _. delete_application-Keeps.holds);
  }
    where
      stays : (views : List SubscriptionView) → Survives (Listed views)
      stays views p ss ps d r m = d r (delete_where-mem p r ss m).0

      listed :
          (views : List SubscriptionView) (s : State)
          → Holds s
          → ok (app_views svc.collate s.db app_id) ≡ ok views
          → Listed views s.db.subscriptions s.db.products
      listed views s h e =
          let same : app_views svc.collate s.db app_id ≡ views = cc in
          subst (λ vs. Listed vs s.db.subscriptions s.db.products) same (app_views-Listed s h)

      freed :
          (views : List SubscriptionView) (s : State)
          → Rows
              (λ ss ps.
                Listed views ss ps
                × ((v : SubscriptionView) → Memᴰ v views → NoRows app_id v.product_id ss))
              s
          → Free s.db.subscriptions s.db.products
      freed views s p r m a k = let (v, n, e) = p.0 r m a k in p.1 v n r m a (sym e)

      removed :
          (found : Result Credential)
          → Triple
              (Post
                (λ c s. (Holds s × Rows Free s) × (c.consumer_username ≡ consumer_name app_id))
                (λ s. Holds s × Rows Free s)
                found)
              (elim found [
                | err not_found ↦ pure tt
                | err e ↦ raise e
                | ok c ↦ remove_consumers svc app_id c
              ])
              (λ _. Holds)
              Holds
      removed (ok c) = record { at = λ r p. (remove_consumers-Holds c p.1).at r p.0 }
      removed (err not_found) = Triple-pure tt (λ s p. p.0)
      removed (err _) = Triple-raise _ (λ s p. p.0)
