-- ===== src/Subscriptions/Provisioning/Tables.antt =====
-- What a change of the tables does to the invariant.
use mathlib.Core.List.Memᴰ.{head, tail}
use apisix_developer_portal.Common.{
  if◌then◌else◌, ℕ, ◌+◌, ◌<◌, Bool, true, false, List, ◌∷◌, Memᴰ, ◌≡◌, sym, ap, inl, inr, ◌∙◌,
  arith, update_where, delete_where, update_where-mem, delete_where-mem,
}
use apisix_developer_portal.Apisix.{Gateway}
use apisix_developer_portal.Db.{PlanRow, ProductRow, CredentialRow, SubscriptionRow}
use apisix_developer_portal.Subscriptions.Model.{consumer_name}
use apisix_developer_portal.Subscriptions.Repo.{is_active}
use apisix_developer_portal.Subscriptions.Provisioning.{
  IsKeyProduct, HasCredential, HasPlan, IsServed, IsProvisioned,
}

module _ (subscriptions : List SubscriptionRow) (p : SubscriptionRow → Bool)
    (f : SubscriptionRow → SubscriptionRow)
    (same : (r : SubscriptionRow)
      → ((f r).id ≡ r.id)
        × ((f r).application_id ≡ r.application_id)
        × ((f r).api_product_id ≡ r.api_product_id)) where
  -- An updated row has the keys of the row that it comes from, so the keys still tell rows apart.
  update-source :
      (r : SubscriptionRow)
      → Memᴰ r (update_where p f subscriptions)
      → (b : SubscriptionRow) × Memᴰ b subscriptions
        × (r ≡ (if p b then f b else b))
        × (b.id ≡ r.id)
        × (b.application_id ≡ r.application_id)
        × (b.api_product_id ≡ r.api_product_id)
  update-source r m =
      let (b, n, c) = update_where-mem p f r subscriptions m in
      elim c [
        | inl (t, e) ↦ (
          b,
          n,
          rw t e,
          sym (ap (λ (x : SubscriptionRow). x.id) e ∙ (same b).0),
          sym (ap (λ (x : SubscriptionRow). x.application_id) e ∙ (same b).1),
          sym (ap (λ (x : SubscriptionRow). x.api_product_id) e ∙ (same b).2),
        )
        | inr (t, e) ↦ (
          b,
          n,
          rw t e,
          sym (ap (λ (x : SubscriptionRow). x.id) e),
          sym (ap (λ (x : SubscriptionRow). x.application_id) e),
          sym (ap (λ (x : SubscriptionRow). x.api_product_id) e),
        )
      ]

  rejoined :
      {r r' b b' : SubscriptionRow}
      → r ≡ (if p b then f b else b)
      → r' ≡ (if p b' then f b' else b')
      → b ≡ b'
      → r ≡ r'
  rejoined e e' q = e ∙ ap (λ x. if p x then f x else x) q ∙ sym e'

module _ {subscriptions : List SubscriptionRow} {next : ℕ} {plans : List PlanRow}
    {products : List ProductRow} {credentials : List CredentialRow} {gw : Gateway} where
  -- Rows go.
  pub delete-IsProvisioned :
      (p : SubscriptionRow → Bool)
      → IsProvisioned subscriptions next plans products credentials gw
      → IsProvisioned (delete_where p subscriptions) next plans products credentials gw
  delete-IsProvisioned p h = record {
    named = h.named;
    below = λ r m. h.below r (delete_where-mem p r subscriptions m).0;
    unique = λ r r' m m'.
        h.unique r r' (delete_where-mem p r subscriptions m).0
          (delete_where-mem p r' subscriptions m').0;
    paired = λ r r' m m'.
        h.paired r r' (delete_where-mem p r subscriptions m).0
          (delete_where-mem p r' subscriptions m').0;
    planned = λ r m. h.planned r (delete_where-mem p r subscriptions m).0;
    served = λ r m. h.served r (delete_where-mem p r subscriptions m).0;
  }

  -- A row comes that is not active.
  pub insert-IsProvisioned :
      (row : SubscriptionRow)
      → row.id ≡ next
      → is_active row ≡ false
      → HasPlan plans row.plan_id
      → ((r : SubscriptionRow)
          → Memᴰ r subscriptions
          → r.application_id ≡ row.application_id
          → r.api_product_id ≡ row.api_product_id
          → ⊥)
      → IsProvisioned subscriptions next plans products credentials gw
      → IsProvisioned (row ∷ subscriptions) (next + 1) plans products credentials gw
  insert-IsProvisioned row fresh idle plan first h = record {
    named = h.named;
    below = below;
    unique = unique;
    paired = paired;
    planned = planned;
    served = served;
  }
    where
      below : (r : SubscriptionRow) → Memᴰ r (row ∷ subscriptions) → r.id < next + 1
      below r (head e) = rw e (omega (arith, fresh))
      below r (tail m) = omega (arith, h.below r m)

      unique :
          (r r' : SubscriptionRow)
          → Memᴰ r (row ∷ subscriptions)
          → Memᴰ r' (row ∷ subscriptions)
          → r.id ≡ r'.id
          → r ≡ r'
      unique r r' (head e) (head e') i = e ∙ sym e'
      unique r r' (head e) (tail m') i =
          let old = h.below r' m' in
          let new = ap (λ (x : SubscriptionRow). x.id) e in
          absurd (omega (arith, fresh, old, new, i))
      unique r r' (tail m) (head e') i =
          let old = h.below r m in
          let new = ap (λ (x : SubscriptionRow). x.id) e' in
          absurd (omega (arith, fresh, old, new, i))
      unique r r' (tail m) (tail m') i = h.unique r r' m m' i

      paired :
          (r r' : SubscriptionRow)
          → Memᴰ r (row ∷ subscriptions)
          → Memᴰ r' (row ∷ subscriptions)
          → r.application_id ≡ r'.application_id
          → r.api_product_id ≡ r'.api_product_id
          → r ≡ r'
      paired r r' (head e) (head e') a p = e ∙ sym e'
      paired r r' (head e) (tail m') a p = absurd (
          first r' m' (sym a ∙ ap (λ (x : SubscriptionRow). x.application_id) e)
            (sym p ∙ ap (λ (x : SubscriptionRow). x.api_product_id) e))
      paired r r' (tail m) (head e') a p = absurd (
          first r m (a ∙ ap (λ (x : SubscriptionRow). x.application_id) e')
            (p ∙ ap (λ (x : SubscriptionRow). x.api_product_id) e'))
      paired r r' (tail m) (tail m') a p = h.paired r r' m m' a p

      planned : (r : SubscriptionRow) → Memᴰ r (row ∷ subscriptions) → HasPlan plans r.plan_id
      planned r (head e) = rw e plan
      planned r (tail m) = h.planned r m

      served :
          (r : SubscriptionRow)
          → Memᴰ r (row ∷ subscriptions)
          → is_active r ≡ true
          → IsKeyProduct products r.api_product_id
          → IsServed credentials gw r.application_id r.api_product_id
      served r (head e) a k = let b = sym (ap is_active e) ∙ a in absurd (clash idle b)
        where
          clash : {b : Bool} → b ≡ false → b ≡ true → ⊥
          clash p q = cc
      served r (tail m) a k = h.served r m a k

  module _ (p : SubscriptionRow → Bool) (f : SubscriptionRow → SubscriptionRow)
      (same : (r : SubscriptionRow)
        → ((f r).id ≡ r.id)
          × ((f r).application_id ≡ r.application_id)
          × ((f r).api_product_id ≡ r.api_product_id)) where
    -- Rows change their plan or status, and those that come out active are served.
    pub update-IsProvisioned :
        ((r : SubscriptionRow) → Memᴰ r subscriptions → p r ≡ true → HasPlan plans (f r).plan_id)
        → ((r : SubscriptionRow)
            → Memᴰ r subscriptions
            → p r ≡ true
            → is_active (f r) ≡ true
            → IsKeyProduct products r.api_product_id
            → IsServed credentials gw r.application_id r.api_product_id)
        → IsProvisioned subscriptions next plans products credentials gw
        → IsProvisioned (update_where p f subscriptions) next plans products credentials gw
    update-IsProvisioned plan activated h = record {
      named = h.named;
      below = λ r m.
          let (b, n, c) = update_where-mem p f r subscriptions m in
          let old = h.below b n in
          elim c [ inl (_, e) ↦ rw (e, (same b).0) old | inr (_, e) ↦ rw e old ];
      unique = λ r r' m m' i.
          let (b, n, e, k, _, _) = update-source subscriptions p f same r m in
          let (b', n', e', k', _, _) = update-source subscriptions p f same r' m' in
          rejoined subscriptions p f same e e' (h.unique b b' n n' (k ∙ i ∙ sym k'));
      paired = λ r r' m m' i j.
          let (b, n, e, _, k, l) = update-source subscriptions p f same r m in
          let (b', n', e', _, k', l') = update-source subscriptions p f same r' m' in
          rejoined subscriptions p f same e e'
            (h.paired b b' n n' (k ∙ i ∙ sym k') (l ∙ j ∙ sym l'));
      planned = λ r m.
          let (b, n, c) = update_where-mem p f r subscriptions m in
          elim c [ inl (t, e) ↦ rw e (plan b n t) | inr (_, e) ↦ rw e (h.planned b n) ];
      served = λ r m a k.
          let (b, n, c) = update_where-mem p f r subscriptions m in
          elim c [
            | inl (t, e) ↦
                rw (e, (same b).1, (same b).2)
                  (activated b n t (rw e at a) (rw (e, (same b).2) at k))
            | inr (_, e) ↦ rw e (h.served b n (rw e at a) (rw e at k))
          ];
    }

-- Credentials come and change their keys.
module _ {subscriptions : List SubscriptionRow} {next : ℕ} {plans : List PlanRow}
    {products : List ProductRow} {credentials : List CredentialRow} {gw : Gateway} where
  pub credentials-IsProvisioned :
      (credentials' : List CredentialRow)
      → ((c : CredentialRow)
          → Memᴰ c credentials'
          → c.consumer_username ≡ consumer_name c.application_id)
      → ((r : SubscriptionRow)
          → Memᴰ r subscriptions
          → is_active r ≡ true
          → HasCredential credentials r.application_id
          → HasCredential credentials' r.application_id)
      → IsProvisioned subscriptions next plans products credentials gw
      → IsProvisioned subscriptions next plans products credentials' gw
  credentials-IsProvisioned credentials' named keep h = record {
    named = named;
    below = h.below;
    unique = h.unique;
    paired = h.paired;
    planned = h.planned;
    served = λ r m a k.
        let s = h.served r m a k in
        record {
          credential = keep r m a s.credential;
          admitted = s.admitted;
          installed = s.installed;
        };
  }
