-- ===== src/Subscriptions/Provisioning/Requests.antt =====
-- The writes of the tables and the invariant: a request, a cancellation, a change of status, and a
-- new credential.
use apisix_developer_portal.Common.{
  any-mem, any-false, &&-true, ℕ, String, Bool, true, false, List, Memᴰ, ◌≡◌, refl, sym, inl, inr,
  ◌∙◌, str_eq, ◌==◌, ==_iff, arith, any, update_where, if◌then◌else◌, Bool-cases,
}
use apisix_developer_portal.Db.{PlanRow, SubscriptionRow, Db}
use apisix_developer_portal.Effects.{not_found, Result, ok, err, State, M, call, ◌>>=◌}
use apisix_developer_portal.Effects.Triple.{Post, Triple, Triple-bind, Triple-call}
use apisix_developer_portal.Subscriptions.Model.{SubscriptionRecord, status_active}
use apisix_developer_portal.Subscriptions.Repo.{
  of_pair, pend, references_exist, upsert_subscription, save_subscription, delete_subscription,
  set_subscription_status,
}
use apisix_developer_portal.Subscriptions.Provisioning.{
  IsKeyProduct, HasPlan, IsServed, IsProvisioned, Holds,
}
use apisix_developer_portal.Subscriptions.Provisioning.Tables.{
  delete-IsProvisioned, insert-IsProvisioned, update-IsProvisioned,
}
use apisix_developer_portal.Subscriptions.Provisioning.Quiet.{IsQuiet}

-- `m` keeps the invariant, whichever of its calls fail.
pub record Keeps {A : Type 0} (m : M A) : Type 0 where
  pub holds : Triple Holds m (λ _. Holds) Holds

module _ {A : Type 0} where
  pub Keeps-quiet : (m : M A) → IsQuiet m → Keeps m
  Keeps-quiet m q = record { holds = q.keeps IsProvisioned }

  pub Keeps-if : (b : Bool) (m n : M A) → Keeps m → Keeps n → Keeps (if b then m else n)
  Keeps-if true m n km kn = km
  Keeps-if false m n km kn = kn

  either : (x : Result A) (s : State) → Holds s → Post (λ _. Holds) Holds x s
  either (ok a) s h = h
  either (err e) s h = h

  pub Keeps-call :
      (op : State → Result A × State) → ((s : State) → Holds s → Holds (op s).1) → Keeps (call op)
  Keeps-call op same = record {
    holds =
        Triple-call op (λ s h. h) (λ s h. same s h) (λ s h. either (op s).0 (op s).1 (same s h));
  }

module _ {A B : Type 0} where
  pub Keeps-bind : (m : M A) (f : A → M B) → Keeps m → ((a : A) → Keeps (f a)) → Keeps (m >>= f)
  Keeps-bind m f km kf = record { holds = Triple-bind m f km.holds (λ a. (kf a).holds) }

pub ruleset keeps_rules = (Keeps-if, Keeps-bind, Keeps-quiet)

upsert_subscription-Holds :
    (app_id product_id plan_id : ℕ) (s : State)
    → HasPlan s.db.plans plan_id
    → Holds s
    → Holds (record s { db = upsert_subscription app_id product_id plan_id s.db })
unfolding upsert_subscription
upsert_subscription-Holds app_id product_id plan_id s plan h =
    elim (Bool-cases (any (of_pair app_id product_id) s.db.subscriptions)) [
      | inl t ↦ rw t (
          update-IsProvisioned (of_pair app_id product_id) (pend plan_id) (λ r. (refl, refl, refl))
            (λ r m p. plan) (λ r m p a k. cc) h)
      | inr t ↦ rw t (insert-IsProvisioned _ refl refl plan (λ r m a p. other t r m a p) h)
    ]
  where
    other :
        any (of_pair app_id product_id) s.db.subscriptions ≡ false
        → (r : SubscriptionRow) → Memᴰ r s.db.subscriptions
        → r.application_id ≡ app_id
        → r.api_product_id ≡ product_id
        → ⊥
    other t r m a p =
        let f = any-false (of_pair app_id product_id) s.db.subscriptions t m in ground arith

references-HasPlan :
    (d : Db) (app_id product_id plan_id : ℕ)
    → references_exist d app_id product_id plan_id ≡ true
    → HasPlan d.plans plan_id
references-HasPlan d app_id product_id plan_id t =
    let (p, m, e) = any-mem (λ (p : PlanRow). p.id == plan_id) d.plans (&&-true _ _ t).1 in
    (p, m, (==_iff p.id plan_id).0 e)

pub save_subscription-Keeps :
    (app_id product_id plan_id : ℕ) → Keeps (save_subscription app_id product_id plan_id)
unfolding save_subscription
save_subscription-Keeps app_id product_id plan_id = Keeps-call _ λ s h.
    elim (Bool-cases (references_exist s.db app_id product_id plan_id)) [
      | inl t ↦ rw t (
          upsert_subscription-Holds app_id product_id plan_id s
            (references-HasPlan s.db app_id product_id plan_id t) h)
      | inr t ↦ rw t h
    ]

pub delete_subscription-Keeps :
    (app_id product_id : ℕ) → Keeps (delete_subscription app_id product_id)
unfolding delete_subscription
delete_subscription-Keeps app_id product_id =
    Keeps-call _ (λ s h. delete-IsProvisioned (of_pair app_id product_id) h)

-- The record that `GetSubscription` answered still names a row.
abbrev pub Known : SubscriptionRecord → List SubscriptionRow → Type 0
Known sub subscriptions =
    (row : SubscriptionRow) × Memᴰ row subscriptions
    × (row.id ≡ sub.id)
    × (row.application_id ≡ sub.app_id)
    × (row.api_product_id ≡ sub.product_id)

module _ (status : String) where
  -- A status that is not "active" may be set at any time.
  pub set_subscription_status-Keeps :
      (sub_id : ℕ)
      → str_eq status status_active ≡ false
      → Keeps (set_subscription_status sub_id status)
  unfolding set_subscription_status
  set_subscription_status-Keeps sub_id idle = Keeps-call _ λ s h.
      elim (Bool-cases (any (λ (r : SubscriptionRow). r.id == sub_id) s.db.subscriptions)) [
        | inl t ↦ rw t (
            update-IsProvisioned (λ r. r.id == sub_id)
              (λ (r : SubscriptionRow). record r { status = status }) (λ r. (refl, refl, refl))
              (λ r m p. h.planned r m) (λ r m p a k. cc) h)
        | inr t ↦ rw t h
      ]

-- The application of the record can call the product, if the product takes keys.
abbrev pub Ready : SubscriptionRecord → State → Type 0
Ready sub s =
    Holds s
    × Known sub s.db.subscriptions
    × (IsKeyProduct s.db.products sub.product_id
        → IsServed s.db.credentials s.gw sub.app_id sub.product_id)

activate-Holds :
    (sub : SubscriptionRecord) (s : State)
    → Ready sub s
    → Holds (record s {
      db = record s.db {
        subscriptions =
            update_where
              (λ (r : SubscriptionRow). r.id == sub.id)
              (λ (r : SubscriptionRow). record r { status = status_active })
              s.db.subscriptions;
      };
    })
activate-Holds sub s (h, (row, m, i, a, p), served) =
    update-IsProvisioned (λ r. r.id == sub.id)
      (λ (r : SubscriptionRow). record r { status = status_active }) (λ r. (refl, refl, refl))
      (λ r n t. h.planned r n)
      (λ r n t _ k.
        let same : r ≡ row = h.unique r row n m ((==_iff r.id sub.id).0 t ∙ sym i) in
        rw (same, a, p) (served (rw (same, p) at k)))
      h

-- Only a subscription whose application is served may become active.
pub set_active-Holds :
    (sub : SubscriptionRecord)
    → Triple (Ready sub) (set_subscription_status sub.id status_active) (λ _. Holds) Holds
unfolding set_subscription_status
set_active-Holds sub = Triple-call _ (λ s r. r.0) (λ s r. (effect s r).0) (λ s r. (effect s r).1)
  where
    effect :
        (s : State)
        → Ready sub s
        → let hit = any (λ (r : SubscriptionRow). r.id == sub.id) s.db.subscriptions in
          let db = record s.db {
            subscriptions =
                update_where
                  (λ (r : SubscriptionRow). r.id == sub.id)
                  (λ (r : SubscriptionRow). record r { status = status_active })
                  s.db.subscriptions;
          } in
          let (x, d) : Result (Unit {0}) × Db =
            if hit then (ok tt, db) else (err not_found, s.db) in
          Holds (record s { db = d }) × Post (λ _. Holds) Holds x (record s { db = d })
    effect s r =
        elim (Bool-cases (any (λ (r : SubscriptionRow). r.id == sub.id) s.db.subscriptions)) [
          | inl t ↦ rw t (activate-Holds sub s r, activate-Holds sub s r)
          | inr t ↦ rw t (r.0, r.0)
        ]
