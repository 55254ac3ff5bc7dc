-- ===== src/Subscriptions/Provisioning/Cancelling.antt =====
-- Cancelling the subscriptions of an application one after the other.

use mathlib.Core.List.Memᴰ.{head, tail}
use apisix_developer_portal.Common.{
  ℕ, Bool, List, [], ◌∷◌, Memᴰ, ◌≡◌, arith, delete_where, delete_where-mem,
}
use apisix_developer_portal.Db.{ProductRow, SubscriptionRow}
use apisix_developer_portal.Effects.{State, M}
use apisix_developer_portal.Effects.Triple.{
  Triple, Triple-bind, Triple-call, Triple-pure, Triple-weaken,
}
use apisix_developer_portal.Subscriptions.Model.{SubscriptionView}
use apisix_developer_portal.Subscriptions.Repo.{of_pair, delete_subscription}
use apisix_developer_portal.Subscriptions.Service.{Service}
use apisix_developer_portal.Subscriptions.Service.Lifecycle.{unsubscribe, unsubscribe_all}
use apisix_developer_portal.Subscriptions.Provisioning.{IsProvisioned, Holds}
use apisix_developer_portal.Subscriptions.Provisioning.Tables.{delete-IsProvisioned}
use apisix_developer_portal.Subscriptions.Provisioning.Routes.{reprovision_route-Rebuilt}
use apisix_developer_portal.Subscriptions.Provisioning.Quiet.{
  IsQuiet, log_event-IsQuiet, reprovision_sandbox_route-IsQuiet,
}
use apisix_developer_portal.Subscriptions.Provisioning.Credentials.{KnownRows, Rows}

-- A quiet action under a fact about the subscriptions and products.
pub calm :
    {A : Type 0} (D : KnownRows) (m : M A)
    → IsQuiet m
    → Triple (λ s. Holds s × Rows D s) m (λ _ s. Holds s × Rows D s) Holds
calm D m q =
    Triple-weaken m (q.keeps (λ ss next pl ps cs gw. IsProvisioned ss next pl ps cs gw × D ss ps))
      (λ s p. p) (λ _ s p. p) (λ s p. p.0)

abbrev pub NoRows : ℕ → ℕ → List SubscriptionRow → Type 0
NoRows app_id product_id subscriptions =
    (r : SubscriptionRow)
    → Memᴰ r subscriptions
    → r.application_id ≡ app_id
    → r.api_product_id ≡ product_id
    → ⊥

abbrev pub Survives : KnownRows → Type 0
Survives D =
    (p : SubscriptionRow → Bool) (ss : List SubscriptionRow) (ps : List ProductRow)
    → D ss ps
    → D (delete_where p ss) ps

delete_where-NoRows :
    (app_id product_id : ℕ) (ss : List SubscriptionRow)
    → NoRows app_id product_id (delete_where (of_pair app_id product_id) ss)
delete_where-NoRows app_id product_id ss r m a p =
    let f = (delete_where-mem (of_pair app_id product_id) r ss m).1 in ground arith

module _ (svc : Service) (app_id : ℕ) where
  unsubscribe-NoRows :
      (D : KnownRows) (product_id : ℕ)
      → Survives D
      → Triple
          (λ s. Holds s × Rows D s)
          (unsubscribe svc app_id product_id)
          (λ _ s. Holds s × Rows (λ ss ps. D ss ps × NoRows app_id product_id ss) s)
          Holds
  unfolding unsubscribe delete_subscription
  unsubscribe-NoRows D product_id down =
      Triple-bind _ _
        (Triple-call _ (λ s p. p.0) (λ s p. delete-IsProvisioned _ p.0)
          (λ s p. (
            delete-IsProvisioned (of_pair app_id product_id) p.0,
            (
              down (of_pair app_id product_id) s.db.subscriptions s.db.products p.1,
              delete_where-NoRows app_id product_id s.db.subscriptions,
            ),
          )))
        λ _. Triple-bind _ _ (calm D' _ (log_event-IsQuiet svc app_id _ _ _)) λ _.
          Triple-bind _ _
            (Triple-weaken _ (reprovision_route-Rebuilt (λ ss ps _ _. D' ss ps) svc product_id [])
              (λ s p. p) (λ _ s r. (r.0, r.1)) (λ s h. h))
            λ _. calm D' _ (reprovision_sandbox_route-IsQuiet svc product_id [])
    where
      D' : KnownRows
      D' ss ps = D ss ps × NoRows app_id product_id ss

  -- After the loop no subscription to a listed product is left.
  pub unsubscribe_all-NoRows :
      (views : List SubscriptionView) (D : KnownRows)
      → Survives D
      → Triple
          (λ s. Holds s × Rows D s)
          (unsubscribe_all svc app_id views)
          (λ _ s.
            Holds s
            × Rows
                (λ ss ps.
                  D ss ps × ((v : SubscriptionView) → Memᴰ v views → NoRows app_id v.product_id ss))
                s)
          Holds
  unfolding unsubscribe_all
  unsubscribe_all-NoRows [] D down = Triple-pure tt (λ s p. (p.0, (p.1, λ v m. elim m [ ])))
  unsubscribe_all-NoRows (v ∷ vs) D down =
      Triple-bind _ _ (unsubscribe-NoRows D v.product_id down) λ _.
        Triple-weaken _
          (unsubscribe_all-NoRows vs (λ ss ps. D ss ps × NoRows app_id v.product_id ss)
            (λ p ss ps d. (down p ss ps d.0, λ r m. d.1 r (delete_where-mem p r ss m).0)))
          (λ s p. p) (λ _ s p. (p.0, (p.1.0.0, λ w m. all s w m p.1.0.1 p.1.1))) (λ s h. h)
    where
      all :
          (s : State) (w : SubscriptionView)
          → Memᴰ w (v ∷ vs)
          → NoRows app_id v.product_id s.db.subscriptions
          → ((u : SubscriptionView) → Memᴰ u vs → NoRows app_id u.product_id s.db.subscriptions)
          → NoRows app_id w.product_id s.db.subscriptions
      all s w (head e) first rest = rw e first
      all s w (tail m) first rest = rest w m
