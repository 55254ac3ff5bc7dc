-- ===== src/Subscriptions/Provisioning/Approving.antt =====
-- Approving and rejecting, and the invariant.
use mathlib.Core.List.Memᴰ.{head}
use apisix_developer_portal.Common.{
  ℕ, String, true, List, [], ◌∷◌, ◌≡◌, refl, sym, ap, inl, inr, str_eq, ◌==◌, find, find-mem,
  Option-cases,
}
use apisix_developer_portal.Apisix.{Gateway, Consumer, ensure_consumer}
use apisix_developer_portal.Db.{ProductRow, CredentialRow, SubscriptionRow, Db}
use apisix_developer_portal.Effects.{ok, State, M, try, ◌>>◌}
use apisix_developer_portal.Effects.Triple.{
  Triple, Triple-bind, Triple-call, Triple-if, Triple-query, Triple-raise, Triple-weaken,
}
use apisix_developer_portal.Subscriptions.Model.{
  Credential, PlanInfo, ProductInfo, SubscriptionRecord, consumer_name, status_active,
  status_rejected,
}
use apisix_developer_portal.Subscriptions.Repo.{
  subscription_record, found_subscription, find_product, get_product, get_plan, get_subscription,
  get_app_oidc_client_id, set_subscription_status,
}
use apisix_developer_portal.Subscriptions.Repo.Keys.{get_or_create_credential}
use apisix_developer_portal.Subscriptions.Service.{Service, new_key, on_gateway}
use apisix_developer_portal.Subscriptions.Service.Routes.{reprovision_route}
use apisix_developer_portal.Subscriptions.Service.Approval.{
  install, limit_of, or_empty, announce, approve_oauth, approve_keys, approve, reject,
}
use apisix_developer_portal.Subscriptions.Provisioning.{
  IsKeyProduct, HasCredential, IsInstalled, IsProvisioned, Holds,
}
use apisix_developer_portal.Subscriptions.Provisioning.Gateways.{
  put_key_self, ensure_consumer-IsProvisioned,
}
use apisix_developer_portal.Subscriptions.Provisioning.Written.{IsKeyProduct-auth}
use apisix_developer_portal.Subscriptions.Provisioning.Routes.{reprovision_route-Rebuilt}
use apisix_developer_portal.Subscriptions.Provisioning.Quiet.{
  IsQuiet, IsQuiet-raise, IsQuiet-try, IsQuiet-query, quiet_rules, new_key-IsQuiet,
  announce-IsQuiet, grant_sandbox-IsQuiet, log_event-IsQuiet, notify-IsQuiet,
  reprovision_sandbox_route-IsQuiet,
}
use apisix_developer_portal.Subscriptions.Provisioning.Requests.{
  Keeps, Keeps-bind, Keeps-if, Keeps-quiet, Known, Ready, set_active-Holds,
  set_subscription_status-Keeps,
}
use apisix_developer_portal.Subscriptions.Provisioning.Credentials.{
  Issued, get_or_create_credential-Issued,
}

-- Rebuilding a route, the extra consumers left aside.
pub reprovision_route-Keeps :
    (svc : Service) (product_id : ℕ) (extra : List String)
    → Keeps (reprovision_route svc product_id extra)
reprovision_route-Keeps svc product_id extra = record {
  holds =
      Triple-weaken _ (reprovision_route-Rebuilt (λ _ _ _ _. Unit {0}) svc product_id extra)
        (λ s h. (h, tt)) (λ _ s r. r.0) (λ s h. h);
}

-- A quiet action under a fact that it leaves alone.
quietly :
    {A : Type 0} (m : M A)
    (C : List SubscriptionRow → List ProductRow → List CredentialRow → Gateway → Type 0)
    → IsQuiet m
    → Triple
        (λ s. Holds s × C s.db.subscriptions s.db.products s.db.credentials s.gw)
        m
        (λ _ s. Holds s × C s.db.subscriptions s.db.products s.db.credentials s.gw)
        Holds
quietly m C q =
    Triple-weaken m (q.keeps (λ ss n pl ps cs gw. IsProvisioned ss n pl ps cs gw × C ss ps cs gw))
      (λ s p. p) (λ _ s p. p) (λ s p. p.0)

module _ (svc : Service) (sub : SubscriptionRecord) where
  finish :
      (f : M (Unit {0}))
      → Keeps f
      → Triple (Ready sub) (set_subscription_status sub.id status_active >> f) (λ _. Holds) Holds
  finish f k = Triple-bind _ _ (set_active-Holds sub) (λ _. k.holds)

  approve_oauth-Holds :
      (prod : ProductInfo)
      → str_eq prod.auth_type "oauth2" ≡ true
      → Triple
          (λ s.
            (Holds s × Known sub s.db.subscriptions) × (find_product s.db sub.product_id ≡ ok prod))
          (approve_oauth svc sub)
          (λ _. Holds)
          Holds
  unfolding approve_oauth get_app_oidc_client_id
  approve_oauth-Holds prod oauth =
      Triple-bind _ _
        (Triple-weaken _
          (quietly (try (get_app_oidc_client_id sub.app_id))
            (λ ss ps cs gw. Known sub ss × (IsKeyProduct ps sub.product_id → ⊥))
            (IsQuiet-try _ (IsQuiet-query _)))
          (λ s p. (p.0.0, (p.0.1, λ k. not_keyed s p.1 k))) (λ _ s p. p) (λ s h. h))
        λ client_id.
          Triple-bind (reprovision_route svc sub.product_id (or_empty client_id ∷ [])) _
            (Triple-weaken _
              (reprovision_route-Rebuilt
                (λ ss ps cs g. Known sub ss × (IsKeyProduct ps sub.product_id → ⊥)) svc
                sub.product_id (or_empty client_id ∷ []))
              (λ s p. p) (λ _ s r. (r.0, r.1.0, λ k. absurd (r.1.1 k))) (λ s h. h))
            λ _. finish (announce svc sub) (Keeps-quiet _ (announce-IsQuiet svc sub))
    where
      not_keyed :
          (s : State)
          → find_product s.db sub.product_id ≡ ok prod
          → IsKeyProduct s.db.products sub.product_id
          → ⊥
      not_keyed s found k = let key = IsKeyProduct-auth s.db sub.product_id prod found k in cc

  -- The consumer is installed under the application's name.
  install-Holds :
      (cred : Credential) (plan : PlanInfo)
      → Triple
          (Issued (λ ss _. Known sub ss) sub.app_id cred)
          (on_gateway (install cred plan))
          (λ _ s.
            Holds s
            × Known sub s.db.subscriptions
            × HasCredential s.db.credentials sub.app_id
            × IsInstalled s.gw.consumers sub.app_id
            × (cred.consumer_username ≡ consumer_name sub.app_id))
          Holds
  unfolding on_gateway ensure_consumer
  install-Holds cred plan =
      Triple-call _ (λ s p. p.0) (λ s p. after s p)
        (λ s p. (after s p, p.1, p.2, installed s p.3, p.3))
    where
      after :
          (s : State)
          → Issued (λ ss _. Known sub ss) sub.app_id cred s
          → Holds (record s { gw = install cred plan s.gw })
      after s p =
          ensure_consumer-IsProvisioned cred.consumer_username cred.api_key (limit_of plan) p.0

      installed :
          (s : State)
          → cred.consumer_username ≡ consumer_name sub.app_id
          → IsInstalled (install cred plan s.gw).consumers sub.app_id
      installed s e =
          let consumer : Consumer = record { api_key = cred.api_key; limit = limit_of plan } in
          (consumer, rw e (put_key_self s.gw.consumers (consumer_name sub.app_id) consumer))

  approve_keys-Holds :
      Triple (λ s. Holds s × Known sub s.db.subscriptions) (approve_keys svc sub) (λ _. Holds) Holds
  unfolding approve_keys get_plan
  approve_keys-Holds =
      Triple-bind (get_plan sub.plan_id) _ (quietly _ (λ ss _ _ _. Known sub ss) (IsQuiet-query _))
        λ plan.
          Triple-bind (get_or_create_credential svc.cipher sub.app_id (new_key svc)) _
            (get_or_create_credential-Issued (λ ss _. Known sub ss) sub.app_id svc.cipher
              (new_key svc) (new_key-IsQuiet svc))
            λ cred. Triple-bind (on_gateway (install cred plan)) _ (install-Holds cred plan) λ _.
              Triple-bind (reprovision_route svc sub.product_id (cred.consumer_username ∷ [])) _
                (Triple-weaken _
                  (reprovision_route-Rebuilt
                    (λ ss ps cs g.
                      Known sub ss
                      × HasCredential cs sub.app_id
                      × IsInstalled g sub.app_id
                      × (cred.consumer_username ≡ consumer_name sub.app_id))
                    svc sub.product_id (cred.consumer_username ∷ []))
                  (λ s p. (p.0, (p.1, p.2, p.3, p.4)))
                  (λ _ s r. (
                    r.0,
                    r.1.0,
                    λ k. record {
                      credential = r.1.1;
                      admitted = r.2 sub.app_id k (head (sym r.1.3));
                      installed = r.1.2;
                    },
                  ))
                  (λ s h. h))
                λ _.
                  finish _
                    (Keeps-quiet _ (search (quiet_rules, grant_sandbox-IsQuiet, announce-IsQuiet)))

find-Known :
    (d : Db) (sub_id : ℕ) (sub : SubscriptionRecord)
    → found_subscription d sub_id ≡ ok sub
    → Known sub d.subscriptions
find-Known d sub_id sub e =
    elim (Option-cases (find (λ (s : SubscriptionRow). s.id == sub_id) d.subscriptions)) [
      | inl n ↦ let k = rw (n, found_subscription) at e in cc
      | inr (row, f) ↦
          let k : ok (subscription_record row) ≡ ok sub = rw (f, found_subscription) at e in
          let same : subscription_record row ≡ sub = cc in
          (
            row,
            (find-mem (λ (s : SubscriptionRow). s.id == sub_id) d.subscriptions f).0,
            ap (λ (r : SubscriptionRecord). r.id) same,
            ap (λ (r : SubscriptionRecord). r.app_id) same,
            ap (λ (r : SubscriptionRecord). r.product_id) same,
          )
    ]

pub approve-Keeps : (svc : Service) (sub_id : ℕ) → Keeps (approve svc sub_id)
unfolding approve get_subscription get_product
approve-Keeps svc sub_id = record {
  holds =
      Triple-bind (get_subscription sub_id) _
        (Triple-query Holds Holds (λ d. found_subscription d sub_id) (λ s h. h))
        λ sub.
          Triple-if (str_eq sub.status status_rejected) _ _ (λ _. Triple-raise _ (λ s p. p.0))
            (λ _.
              Triple-bind (get_product sub.product_id) _
                (Triple-weaken _
                  (Triple-query (λ s. Holds s × Known sub s.db.subscriptions) Holds
                    (λ d. find_product d sub.product_id) (λ s p. p.0))
                  (λ s p. (p.0, find-Known s.db sub_id sub p.1)) (λ _ s p. p) (λ s h. h))
                λ prod.
                  Triple-if (str_eq prod.auth_type "oauth2") _ _
                    (λ oauth. approve_oauth-Holds svc sub prod oauth)
                    (λ _.
                      Triple-weaken _ (approve_keys-Holds svc sub) (λ s p. p.0) (λ _ s h. h)
                        (λ s h. h)));
}

pub reject-Keeps : (svc : Service) (sub_id : ℕ) → Keeps (reject svc sub_id)
unfolding reject get_subscription
reject-Keeps svc sub_id = Keeps-bind _ _ (Keeps-quiet _ (IsQuiet-query _)) λ sub.
    Keeps-if _ _ _ (Keeps-quiet _ (IsQuiet-raise _)) (
      Keeps-bind _ _ (set_subscription_status-Keeps status_rejected sub_id refl) λ _.
        Keeps-bind _ _ (Keeps-quiet _ (log_event-IsQuiet svc _ _ _ _)) λ _.
          Keeps-bind _ _ (Keeps-quiet _ (notify-IsQuiet svc _)) λ _.
            Keeps-bind _ _ (reprovision_route-Keeps svc sub.product_id [])
              λ _. Keeps-quiet _ (reprovision_sandbox_route-IsQuiet svc sub.product_id []))
