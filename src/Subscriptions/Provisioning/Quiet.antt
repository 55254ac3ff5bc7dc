-- ===== src/Subscriptions/Provisioning/Quiet.antt =====
-- The class of actions that leave alone all that the invariant reads, and the queries, the log, the
-- notices, the sandbox gateway, the drawing of random values, and billing as such actions.
use apisix_developer_portal.Common.{
  ℕ, String, Bool, true, false, Option, List, ◌==◌, if◌then◌else◌, any, Bool-cases, Option-cases,
  inl, inr, find,
}
use apisix_developer_portal.Apisix.{Gateway}
use apisix_developer_portal.Billing.{
  plan_pricing, pending_invoice_exists, team_for_app, ensure_account, create_invoice,
  subscription_activated,
}
use apisix_developer_portal.Crypto.{Cipher}
use apisix_developer_portal.Db.{
  PlanRow, ProductRow, CredentialRow, SubscriptionRow, ApplicationRow, EventRow, AccountRow, Db,
}
use apisix_developer_portal.Effects.{
  Error, Result, ok, err, Notice, State, M, pure, raise, lift, try, query, call, ◌>>=◌,
}
use apisix_developer_portal.Effects.Triple.{
  Post, Triple, Triple-bind, Triple-call, Triple-pure, Triple-raise, Triple-lift, Triple-step,
  Triple-try, Triple-weaken,
}
use apisix_developer_portal.Subscriptions.Model.{SubscriptionRecord}
use apisix_developer_portal.Subscriptions.Repo.{get_product}
use apisix_developer_portal.Subscriptions.Repo.Keys.{get_sandbox_key, encrypt}
use apisix_developer_portal.Subscriptions.Repo.Whitelists.{sandbox_consumers_for_product}
use apisix_developer_portal.Subscriptions.Service.{
  Service, new_key, log, log_event, notify, on_sandbox,
}
use apisix_developer_portal.Subscriptions.Service.Routes.{reprovision_sandbox_route}
use apisix_developer_portal.Subscriptions.Service.Approval.{announce, grant_sandbox}

-- A fact about what the invariant reads.
abbrev pub Core : Type 1
Core =
    List SubscriptionRow
    → ℕ
    → List PlanRow
    → List ProductRow
    → List CredentialRow
    → Gateway
    → Type 0

abbrev pub Cored : Core → State → Type 0
Cored C s =
    C s.db.subscriptions s.db.next_subscription s.db.plans s.db.products s.db.credentials s.gw

pub record IsQuiet {A : Type 0} (m : M A) : Type 1 where
  pub keeps : (C : Core) → Triple (Cored C) m (λ _. Cored C) (Cored C)

module _ {A : Type 0} where
  pub IsQuiet-pure : (a : A) → IsQuiet (pure a)
  IsQuiet-pure a = record { keeps = λ C. Triple-pure a (λ s h. h) }

  pub IsQuiet-raise : (e : Error) → IsQuiet (raise {A = A} e)
  IsQuiet-raise e = record { keeps = λ C. Triple-raise e (λ s h. h) }

  either : (C : Core) (x : Result A) (s : State) → Cored C s → Post (λ _. Cored C) (Cored C) x s
  either C (ok a) s h = h
  either C (err e) s h = h

  pub IsQuiet-lift : (x : Result A) → IsQuiet (lift x)
  IsQuiet-lift x = record { keeps = λ C. Triple-lift x (λ s h. either C x s h) }

  pub IsQuiet-call :
      (op : State → Result A × State)
      → ((C : Core) (s : State) → Cored C s → Cored C (op s).1)
      → IsQuiet (call op)
  IsQuiet-call op same = record {
    keeps = λ C.
        Triple-call op (λ s h. h) (λ s h. same C s h)
          (λ s h. either C (op s).0 (op s).1 (same C s h));
  }

  pub IsQuiet-query : (f : Db → Result A) → IsQuiet (query f)
  IsQuiet-query f = IsQuiet-call (λ s. (f s.db, s)) (λ C s h. h)

  pub IsQuiet-if : (b : Bool) (m n : M A) → IsQuiet m → IsQuiet n → IsQuiet (if b then m else n)
  IsQuiet-if true m n qm qn = qm
  IsQuiet-if false m n qm qn = qn

  pub IsQuiet-try : (m : M A) → IsQuiet m → IsQuiet (try m)
  IsQuiet-try m q = record {
    keeps = λ C.
        Triple-weaken (try m) (Triple-try m (q.keeps C)) (λ s h. h) (λ x s h. whole C x s h)
          (λ s h. h);
  }
    where
      whole : (C : Core) (x : Result A) (s : State) → Post (λ _. Cored C) (Cored C) x s → Cored C s
      whole C (ok a) s h = h
      whole C (err e) s h = h

module _ {A B : Type 0} where
  pub IsQuiet-bind :
      (m : M A) (f : A → M B) → IsQuiet m → ((a : A) → IsQuiet (f a)) → IsQuiet (m >>= f)
  IsQuiet-bind m f qm qf = record {
    keeps = λ C. Triple-bind m f (qm.keeps C) (λ a. (qf a).keeps C);
  }

pub ruleset quiet_rules = (
  IsQuiet-pure, IsQuiet-raise, IsQuiet-lift, IsQuiet-query, IsQuiet-if, IsQuiet-try, IsQuiet-bind,
)

pub new_key-IsQuiet : (svc : Service) → IsQuiet (new_key svc)
unfolding new_key
new_key-IsQuiet svc = record { keeps = λ C. Triple-step _ (λ s h. h) }

log-IsQuiet : (e : EventRow) → IsQuiet (log e)
unfolding log
log-IsQuiet e = IsQuiet-call _ λ C s h.
    elim (Bool-cases (any (λ (a : ApplicationRow). a.id == e.application_id) s.db.applications)) [
      | inl t ↦ rw t h
      | inr t ↦ rw t h
    ]

pub log_event-IsQuiet :
    (svc : Service) (app_id : ℕ) (kind : String) (product_id plan_id : Option ℕ)
    → IsQuiet (log_event svc app_id kind product_id plan_id)
unfolding log_event
log_event-IsQuiet svc app_id kind product_id plan_id = search (quiet_rules, log-IsQuiet)

pub notify-IsQuiet : (svc : Service) (n : Notice) → IsQuiet (notify svc n)
unfolding notify
notify-IsQuiet svc n =
    IsQuiet-if svc.notifier _ _ (record { keeps = λ C. Triple-step _ (λ s h. h) }) (IsQuiet-pure tt)

pub on_sandbox-IsQuiet : (change : Gateway → Gateway) → IsQuiet (on_sandbox change)
unfolding on_sandbox
on_sandbox-IsQuiet change = IsQuiet-call _ (λ C s h. h)

pub reprovision_sandbox_route-IsQuiet :
    (svc : Service) (product_id : ℕ) (extra : List String)
    → IsQuiet (reprovision_sandbox_route svc product_id extra)
unfolding reprovision_sandbox_route get_product sandbox_consumers_for_product
reprovision_sandbox_route-IsQuiet svc product_id extra =
    search (quiet_rules, on_sandbox-IsQuiet) depth 9

create_invoice-IsQuiet :
    (account_id team_id sub_id : ℕ) (name : String) (price_cents : ℕ) (currency : String)
    → IsQuiet (create_invoice account_id team_id sub_id name price_cents currency)
unfolding create_invoice
create_invoice-IsQuiet account_id team_id sub_id name price_cents currency =
    IsQuiet-call _ (λ C s h. h)

ensure_account-IsQuiet : (team_id : ℕ) → IsQuiet (ensure_account team_id)
unfolding ensure_account
ensure_account-IsQuiet team_id = IsQuiet-call _ λ C s h.
    elim (Option-cases (find (λ (a : AccountRow). a.team_id == team_id) s.db.accounts)) [
      | inl e ↦ rw e h
      | inr (a, e) ↦ rw e h
    ]

pub subscription_activated-IsQuiet :
    (app_id sub_id plan_id : ℕ) → IsQuiet (subscription_activated app_id sub_id plan_id)
unfolding subscription_activated plan_pricing pending_invoice_exists team_for_app
subscription_activated-IsQuiet app_id sub_id plan_id =
    search (quiet_rules, create_invoice-IsQuiet, ensure_account-IsQuiet) depth 16

pub announce-IsQuiet : (svc : Service) (sub : SubscriptionRecord) → IsQuiet (announce svc sub)
unfolding announce
announce-IsQuiet svc sub =
    search (quiet_rules, log_event-IsQuiet, notify-IsQuiet, subscription_activated-IsQuiet) depth 9

pub get_sandbox_key-IsQuiet :
    (cipher : Cipher) (app_id : ℕ) → IsQuiet (get_sandbox_key cipher app_id)
unfolding get_sandbox_key
get_sandbox_key-IsQuiet cipher app_id = search quiet_rules depth 7

pub grant_sandbox-IsQuiet :
    (svc : Service) (sub : SubscriptionRecord) (username : String)
    → IsQuiet (grant_sandbox svc sub username)
unfolding grant_sandbox
grant_sandbox-IsQuiet svc sub username =
    search (quiet_rules, get_sandbox_key-IsQuiet, reprovision_sandbox_route-IsQuiet) depth 9

pub encrypt-IsQuiet : (cipher : Cipher) (plain : String) → IsQuiet (encrypt cipher plain)
unfolding encrypt
encrypt-IsQuiet cipher plain = IsQuiet-call _ (λ C s h. h)
