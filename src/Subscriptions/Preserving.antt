-- ===== src/Subscriptions/Preserving.antt =====
-- Facts of the subscriptions and the invoices alone, and the operations of the service that write
-- neither.
pub mod Operations
pub mod Gate
pub mod Billed
use apisix_developer_portal.Common.{
  ℕ, String, Bool, true, false, not, Option, some, none, List, [], ◌∷◌, ◌≡◌, str_eq, ◌==◌,
  if◌then◌else◌, find, any, Bool-cases, Option-cases, inl, inr, is_empty,
}
use apisix_developer_portal.Apisix.{Gateway}
use apisix_developer_portal.Billing.{ensure_account}
use apisix_developer_portal.Crypto.{Cipher}
use apisix_developer_portal.Db.{
  SubscriptionRow, InvoiceRow, ApplicationRow, EventRow, AccountRow, CredentialRow, Db,
}
use apisix_developer_portal.Effects.{
  Error, failure, Result, ok, err, Notice, State, M, pure, raise, try, call, step, ◌>>=◌, ◌>>◌,
}
use apisix_developer_portal.Effects.Preserves.{
  Preserves, Preserves-pure, Preserves-lift, Preserves-call, Preserves-step, Preserves-if,
  Preserves-bind, preserves_rules,
}
use apisix_developer_portal.Subscriptions.Model.{ProductInfo, PlanInfo, Credential}
use apisix_developer_portal.Subscriptions.Repo.{
  get_product, get_app_oidc_client_id, set_app_oidc_client_id,
}
use apisix_developer_portal.Subscriptions.Repo.Keys.{
  encrypt, upsert_credential, get_or_create_credential, get_credential, update_credential_key,
  get_sandbox_key, update_sandbox_key, of_app,
}
use apisix_developer_portal.Subscriptions.Repo.Whitelists.{
  consumers_for_product, sandbox_consumers_for_product, oauth_clients_for_product,
  oauth_products_for_app,
}
use apisix_developer_portal.Subscriptions.Service.{
  Service, sandbox_enabled, new_key, log, log_event, notify, on_gateway, on_sandbox,
}
use apisix_developer_portal.Subscriptions.Service.Routes.{
  provision_oauth, provision_keys, reprovision_route, reprovision_sandbox_route, provision_sandbox,
  reprovision_all, set_oidc_client_id,
}

-- A fact of the subscriptions and the invoices.
abbrev pub Fact : Type 1
Fact = List SubscriptionRow → List InvoiceRow → Type 0

abbrev pub OfRows : Fact → State → Type 0
OfRows F s = F s.db.subscriptions s.db.invoices

module _ (F : Fact) where
  pub new_key-Preserves : (svc : Service) → Preserves (OfRows F) (new_key svc)
  unfolding new_key
  new_key-Preserves svc = Preserves-step _ (λ s p. p)

  log-Preserves : (e : EventRow) → Preserves (OfRows F) (log e)
  unfolding log
  log-Preserves e = Preserves-call _ λ s p.
      elim (Bool-cases (any (λ (a : ApplicationRow). a.id == e.application_id) s.db.applications)) [
        | inl t ↦ rw t p
        | inr t ↦ rw t p
      ]

  pub log_event-Preserves :
      (svc : Service) (app_id : ℕ) (kind : String) (product_id plan_id : Option ℕ)
      → Preserves (OfRows F) (log_event svc app_id kind product_id plan_id)
  unfolding log_event
  log_event-Preserves svc app_id kind product_id plan_id = search (preserves_rules, log-Preserves)

  pub notify-Preserves : (svc : Service) (n : Notice) → Preserves (OfRows F) (notify svc n)
  unfolding notify
  notify-Preserves svc n =
      Preserves-if svc.notifier _ _ (Preserves-step _ (λ s p. p)) (Preserves-pure tt)

  pub on_gateway-Preserves : (change : Gateway → Gateway) → Preserves (OfRows F) (on_gateway change)
  unfolding on_gateway
  on_gateway-Preserves change = Preserves-call _ (λ s p. p)

  pub on_sandbox-Preserves : (change : Gateway → Gateway) → Preserves (OfRows F) (on_sandbox change)
  unfolding on_sandbox
  on_sandbox-Preserves change = Preserves-call _ (λ s p. p)

  encrypt-Preserves :
      (cipher : Cipher) (plain : String) → Preserves (OfRows F) (encrypt cipher plain)
  unfolding encrypt
  encrypt-Preserves cipher plain = Preserves-call _ (λ s p. p)

  pub get_or_create_credential-Preserves :
      (cipher : Cipher) (app_id : ℕ) (gen : M String)
      → Preserves (OfRows F) gen
      → Preserves (OfRows F) (get_or_create_credential cipher app_id gen)
  unfolding get_or_create_credential upsert_credential
  get_or_create_credential-Preserves cipher app_id gen drawn = Preserves-bind _ _ drawn λ plain.
      Preserves-bind _ _ (encrypt-Preserves cipher plain) λ text.
        Preserves-bind _ _
          (Preserves-call _ λ s p.
            elim (Bool-cases (any (λ (a : ApplicationRow). a.id == app_id) s.db.applications)) [
              | inl t ↦ elim (Option-cases (find (of_app app_id) s.db.credentials)) [
                | inl e ↦ rw (t, upsert_credential, e) p
                | inr (c, e) ↦ rw (t, upsert_credential, e) p
              ]
              | inr t ↦ rw t p
            ])
          λ row. Preserves-lift _

  pub get_credential-Preserves :
      (cipher : Cipher) (app_id : ℕ) → Preserves (OfRows F) (get_credential cipher app_id)
  unfolding get_credential
  get_credential-Preserves cipher app_id = search preserves_rules depth 7

  pub get_sandbox_key-Preserves :
      (cipher : Cipher) (app_id : ℕ) → Preserves (OfRows F) (get_sandbox_key cipher app_id)
  unfolding get_sandbox_key
  get_sandbox_key-Preserves cipher app_id = search preserves_rules depth 7

  pub update_credential_key-Preserves :
      (cipher : Cipher) (app_id : ℕ) (key : String)
      → Preserves (OfRows F) (update_credential_key cipher app_id key)
  unfolding update_credential_key
  update_credential_key-Preserves cipher app_id key =
      Preserves-bind _ _ (encrypt-Preserves cipher key) λ stored. Preserves-call _ λ s p.
        elim (Bool-cases (any (of_app app_id) s.db.credentials)) [ inl t ↦ rw t p | inr t ↦ rw t p ]

  pub update_sandbox_key-Preserves :
      (cipher : Cipher) (app_id : ℕ) (key : String)
      → Preserves (OfRows F) (update_sandbox_key cipher app_id key)
  unfolding update_sandbox_key
  update_sandbox_key-Preserves cipher app_id key =
      Preserves-bind _ _ (encrypt-Preserves cipher key) λ stored. Preserves-call _ λ s p.
        elim (Bool-cases (any (of_app app_id) s.db.credentials)) [ inl t ↦ rw t p | inr t ↦ rw t p ]

  set_app_oidc_client_id-Preserves :
      (app_id : ℕ) (client_id : String)
      → Preserves (OfRows F) (set_app_oidc_client_id app_id client_id)
  unfolding set_app_oidc_client_id
  set_app_oidc_client_id-Preserves app_id client_id = Preserves-call _ λ s p.
      elim (Bool-cases (any (λ (a : ApplicationRow). a.id == app_id) s.db.applications)) [
        | inl t ↦ rw t p
        | inr t ↦ rw t p
      ]

  pub reprovision_route-Preserves :
      (svc : Service) (product_id : ℕ) (extra : List String)
      → Preserves (OfRows F) (reprovision_route svc product_id extra)
  unfolding reprovision_route provision_oauth provision_keys get_product consumers_for_product
      oauth_clients_for_product
  reprovision_route-Preserves svc product_id extra =
      search (preserves_rules, on_gateway-Preserves) depth 14

  pub reprovision_sandbox_route-Preserves :
      (svc : Service) (product_id : ℕ) (extra : List String)
      → Preserves (OfRows F) (reprovision_sandbox_route svc product_id extra)
  unfolding reprovision_sandbox_route get_product sandbox_consumers_for_product
  reprovision_sandbox_route-Preserves svc product_id extra =
      search (preserves_rules, on_sandbox-Preserves) depth 9

  reprovision_all-Preserves :
      (svc : Service) (prods : List ProductInfo) → Preserves (OfRows F) (reprovision_all svc prods)
  unfolding reprovision_all
  reprovision_all-Preserves svc [] = Preserves-pure tt
  reprovision_all-Preserves svc (p ∷ ps) =
      Preserves-bind _ _ (reprovision_route-Preserves svc p.id [])
        (λ _. reprovision_all-Preserves svc ps)

  pub set_oidc_client_id-Preserves :
      (svc : Service) (app_id : ℕ) (client_id : String)
      → Preserves (OfRows F) (set_oidc_client_id svc app_id client_id)
  unfolding set_oidc_client_id oauth_products_for_app
  set_oidc_client_id-Preserves svc app_id client_id =
      search (preserves_rules, set_app_oidc_client_id-Preserves, reprovision_all-Preserves) depth 12

  pub ensure_account-Preserves : (team_id : ℕ) → Preserves (OfRows F) (ensure_account team_id)
  unfolding ensure_account
  ensure_account-Preserves team_id = Preserves-call _ λ s p.
      elim (Option-cases (find (λ (a : AccountRow). a.team_id == team_id) s.db.accounts)) [
        | inl e ↦ rw e p
        | inr (a, e) ↦ rw e p
      ]
