-- ===== src/Subscriptions/Provisioning/Revoked.antt =====
-- `Unsubscribe` and `Reject` (internal/subscriptions/service.go) as revocations.
use apisix_developer_portal.Common.{
  ℕ, true, false, [], Memᴰ, ◌≡◌, refl, sym, ap, subst, inl, inr, ◌∙◌, str_eq, ◌==◌, ==_iff, ==_self,
  any, find, find-mem, Option-cases, Bool-cases, some, none, delete_where-mem, update_where,
  update_where-mem,
}
use apisix_developer_portal.Db.{SubscriptionRow}
use apisix_developer_portal.Effects.{
  Result, ok, err, State, Run, M, not_found, subscription_rejected, ◌>>◌,
}
use apisix_developer_portal.Effects.Triple.{
  Post, Triple, Triple-bind, Triple-call, Triple-if, Triple-query, Triple-weaken, Triple-raise,
}
use apisix_developer_portal.Subscriptions.Model.{SubscriptionRecord, status_rejected}
use apisix_developer_portal.Subscriptions.Repo.{
  is_active, of_pair, found_subscription, subscription_record, get_subscription,
  delete_subscription, remove_subscriptions, set_subscription_status,
}
use apisix_developer_portal.Subscriptions.Service.{Service, log_event, notify}
use apisix_developer_portal.Subscriptions.Service.Routes.{
  reprovision_route, reprovision_sandbox_route,
}
use apisix_developer_portal.Subscriptions.Service.Lifecycle.{unsubscribe}
use apisix_developer_portal.Subscriptions.Service.Approval.{reject}
use apisix_developer_portal.Subscriptions.Provisioning.{Admits, Holds}
use apisix_developer_portal.Subscriptions.Provisioning.Tables.{
  delete-IsProvisioned, update-IsProvisioned,
}
use apisix_developer_portal.Subscriptions.Provisioning.Quiet.{
  Core, Cored, IsQuiet, log_event-IsQuiet, notify-IsQuiet, reprovision_sandbox_route-IsQuiet,
}
use apisix_developer_portal.Subscriptions.Provisioning.Revoking.{
  Idle, Barred, Anything, reprovision_route-Barred,
}

module _ (app_id product_id : ℕ) where
  -- A quiet action between the steps of a revocation.
  passing :
      {A : Type 0} (C : Core) (m : M A)
      → IsQuiet m
      → Triple (Cored C) m (λ _. Cored C) (Anything app_id product_id)
  passing C m q = Triple-weaken m (q.keeps C) (λ s h. h) (λ a s h. h) (λ s h. tt)

  -- Both operations end so.
  rebuilt :
      (svc : Service)
      → Triple
          (Cored (Idle app_id product_id))
          (reprovision_route svc product_id [] >> reprovision_sandbox_route svc product_id [])
          (λ _. Cored (Barred app_id product_id))
          (Anything app_id product_id)
  rebuilt svc = Triple-bind _ _ (reprovision_route-Barred app_id product_id svc) (λ _.
      passing (Barred app_id product_id) _ (reprovision_sandbox_route-IsQuiet svc product_id []))

  deleted-Idle :
      Triple Holds
        (delete_subscription app_id product_id)
        (λ _. Cored (Idle app_id product_id))
        (Anything app_id product_id)
  unfolding delete_subscription remove_subscriptions
  deleted-Idle =
      Triple-call _ (λ s h. tt) (λ s h. tt)
        λ s h. (
          delete-IsProvisioned (of_pair app_id product_id) h,
          λ r m a p.
              let gone = (delete_where-mem (of_pair app_id product_id) r s.db.subscriptions m).1 in
              absurd (
                let k : of_pair app_id product_id r ≡ true =
                  rw (a, p, ==_self app_id) (==_self product_id) in
                cc),
        )

  unsubscribe-Barred :
      (svc : Service)
      → Triple Holds
          (unsubscribe svc app_id product_id)
          (λ _. Cored (Barred app_id product_id))
          (Anything app_id product_id)
  unfolding unsubscribe
  unsubscribe-Barred svc = Triple-bind _ _ deleted-Idle λ _.
      Triple-bind _ _ (passing (Idle app_id product_id) _ (log_event-IsQuiet svc app_id _ _ _))
        (λ _. rebuilt svc)

  answered :
      (x : Result (Unit {0})) (s : State)
      → Post (λ _. Cored (Barred app_id product_id)) (Anything app_id product_id) x s
      → x ≡ ok tt
      → ¬ Admits s.gw.routes app_id product_id
  answered (ok _) s h e = h
  answered (err _) s h e = absurd cc

-- A cancellation that answers without an error leaves the product's route closed to the
-- application's consumer, if the invariant held before it.
pub unsubscribe_revokes :
    (svc : Service) (app_id product_id : ℕ) (r : Run)
    → Holds r.state
    → (unsubscribe svc app_id product_id r).0 ≡ ok tt
    → ¬ Admits (unsubscribe svc app_id product_id r).1.state.gw.routes app_id product_id
unsubscribe_revokes svc app_id product_id r h =
    answered app_id product_id (unsubscribe svc app_id product_id r).0
      (unsubscribe svc app_id product_id r).1.state
      ((unsubscribe-Barred app_id product_id svc).at r h)

-- A rejection of the subscription in `row`.
module _ (row : SubscriptionRow) where
  Stored : State → Type 0
  Stored s = Holds s × Memᴰ row s.db.subscriptions

  -- The answer of `GetSubscription` is the record of the row with its id.
  found_row :
      (s : State) (sub : SubscriptionRecord)
      → Stored s
      → found_subscription s.db row.id ≡ ok sub
      → sub ≡ subscription_record row
  unfolding Stored
  found_row s sub (h, m) e =
      elim (Option-cases (find (λ (s : SubscriptionRow). s.id == row.id) s.db.subscriptions)) [
        | inl missing ↦
            let k : err not_found ≡ ok sub = rw (missing, found_subscription) at e in absurd cc
        | inr (r, there) ↦
            let k : ok (subscription_record r) ≡ ok sub = rw (there, found_subscription) at e in
            let same : subscription_record r ≡ sub = cc in
            let (mr, t) =
              find-mem (λ (s : SubscriptionRow). s.id == row.id) s.db.subscriptions there in
            sym same ∙ ap subscription_record (h.unique r row mr m ((==_iff r.id row.id).0 t))
      ]

  idle_after :
      (s : State)
      → Holds s
      → Memᴰ row s.db.subscriptions
      → (r : SubscriptionRow)
      → Memᴰ r (
          update_where
            (λ (s : SubscriptionRow). s.id == row.id)
            (λ (s : SubscriptionRow). record s { status = status_rejected })
            s.db.subscriptions)
      → r.application_id ≡ row.application_id
      → r.api_product_id ≡ row.api_product_id
      → is_active r ≡ false
  idle_after s h m r mr a p =
      let (b, mb, from) =
        update_where-mem (λ (s : SubscriptionRow). s.id == row.id)
          (λ (s : SubscriptionRow). record s { status = status_rejected }) r s.db.subscriptions
          mr in
      elim from [
        | inl (_, e) ↦ rw e refl
        | inr (other, e) ↦
            let same : r ≡ row =
              h.paired r row (subst (λ x. Memᴰ x s.db.subscriptions) (sym e) mb) m a p in
            let k : (b.id == row.id) ≡ true = rw (← e, same) (==_self row.id) in absurd cc
      ]

  rejected-Idle :
      Triple Stored
        (set_subscription_status row.id status_rejected)
        (λ _. Cored (Idle row.application_id row.api_product_id))
        (Anything row.application_id row.api_product_id)
  unfolding set_subscription_status Stored
  rejected-Idle =
      Triple-call _ (λ s p. tt) (λ s p. tt)
        λ s (h, m).
          elim (Bool-cases (any (λ (r : SubscriptionRow). r.id == row.id) s.db.subscriptions)) [
            | inr t ↦ rw t tt
            | inl t ↦ rw t (
              update-IsProvisioned (λ r. r.id == row.id)
                  (λ (r : SubscriptionRow). record r { status = status_rejected })
                  (λ r. (refl, refl, refl)) (λ r m p. h.planned r m) (λ r m p a k. cc) h,
              λ r mr a p. idle_after s h m r mr a p,
            )
          ]

  -- `Reject` behind its guard.
  abbrev rejection : Service → SubscriptionRecord → M (Unit {0})
  rejection svc sub = do
    set_subscription_status row.id status_rejected
    log_event svc sub.app_id "rejected" (some sub.product_id) none
    notify svc (subscription_rejected sub.app_id sub.product_id)
    reprovision_route svc sub.product_id []
    reprovision_sandbox_route svc sub.product_id []

  rejection-Barred :
      (svc : Service)
      → Triple Stored
          (rejection svc (subscription_record row))
          (λ _. Cored (Barred row.application_id row.api_product_id))
          (Anything row.application_id row.api_product_id)
  rejection-Barred svc = Triple-bind _ _ rejected-Idle λ _.
      Triple-bind _ _
        (passing row.application_id row.api_product_id (Idle row.application_id row.api_product_id)
          _ (log_event-IsQuiet svc row.application_id _ _ _))
        λ _.
          Triple-bind _ _
            (passing row.application_id row.api_product_id
              (Idle row.application_id row.api_product_id) _ (notify-IsQuiet svc _))
            (λ _. rebuilt row.application_id row.api_product_id svc)

  reject-Barred :
      (svc : Service)
      → Triple Stored
          (reject svc row.id)
          (λ _. Cored (Barred row.application_id row.api_product_id))
          (Anything row.application_id row.api_product_id)
  unfolding reject get_subscription
  reject-Barred svc =
      Triple-bind _ _
        (Triple-query Stored (Anything row.application_id row.api_product_id)
          (λ d. found_subscription d row.id) (λ s p. tt))
        λ sub.
          Triple-if (str_eq sub.status status_rejected) _ _ (λ _. Triple-raise _ (λ s p. tt))
            (λ _. record { at = λ r (p, e). (of_row sub (found_row r.state sub p e)).at r p })
    where
      of_row :
          (sub : SubscriptionRecord)
          → sub ≡ subscription_record row
          → Triple Stored
              (rejection svc sub)
              (λ _. Cored (Barred row.application_id row.api_product_id))
              (Anything row.application_id row.api_product_id)
      of_row sub e =
          subst
            (λ x.
              Triple Stored (rejection svc x)
                (λ _. Cored (Barred row.application_id row.api_product_id))
                (Anything row.application_id row.api_product_id))
            (sym e) (rejection-Barred svc)

-- A rejection that answers without an error leaves the product's route closed to the subscription's
-- application, if the invariant held before it.
pub reject_revokes :
    (svc : Service) (row : SubscriptionRow) (r : Run)
    → Holds r.state
    → Memᴰ row r.state.db.subscriptions
    → (reject svc row.id r).0 ≡ ok tt
    → ¬ Admits (reject svc row.id r).1.state.gw.routes row.application_id row.api_product_id
unfolding Stored
reject_revokes svc row r h m =
    answered row.application_id row.api_product_id (reject svc row.id r).0
      (reject svc row.id r).1.state ((reject-Barred row svc).at r (h, m))
