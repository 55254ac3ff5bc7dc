-- ===== src/Admin/Products/Paths/Kept.antt =====
-- internal/admin/service.go: `Create`, `Update` and `Delete`, and the context paths.
use apisix_developer_portal.Common.{
  ℕ, String, Bool, false, ◌&&◌, not, Option, none, some, List, ◌≡◌, inl, inr, sym, subst, ◌∙◌,
  str_eq, eq_iff, ◌==◌, any, Bool-cases,
}
use apisix_developer_portal.Apisix.{Gateway}
use apisix_developer_portal.Db.{ProductRow}
use apisix_developer_portal.Effects.{Result, ok, err, State, Run, M, pure, call, ◌>>=◌}
use apisix_developer_portal.Effects.Triple.{
  Post, Triple, Triple-bind, Triple-call, Triple-if, Triple-query, Triple-pure, Triple-raise,
  Triple-weaken,
}
use apisix_developer_portal.Effects.Preserves.{
  Preserves, Preserves-call, Preserves-triple, Triple-Preserves, Preserves-bind, Preserves-pure,
  preserves_rules,
}
use apisix_developer_portal.Admin.Products.{
  Product, has_id, overlap, context_path_overlaps, find_row, get_row, insert_row, store_row,
  delete_row, count_active_subscriptions, delete_icon, create, check_path, load_active_count,
  check_migration, follow_up, update, delete,
}
use apisix_developer_portal.Admin.Products.Paths.{
  IsApart, IsClear, query-IsClear, inserted-IsApart, stored-IsApart, delete-IsApart, old-IsClear,
}
use apisix_developer_portal.Subscriptions.Repo.{get_product, remove_subscriptions}
use apisix_developer_portal.Subscriptions.Repo.Whitelists.{
  consumers_for_product, sandbox_consumers_for_product, oauth_clients_for_product,
}
use apisix_developer_portal.Subscriptions.Service.{Service, on_gateway, on_sandbox}
use apisix_developer_portal.Subscriptions.Service.Routes.{
  provision_oauth, provision_keys, reprovision_route, reprovision_sandbox_route, deprovision_route,
  oauth_ready_consumer_count,
}

-- A fact of the products.
abbrev OfProducts : (List ProductRow → ℕ → Type 0) → State → Type 0
OfProducts F s = F s.db.products s.db.next_product

module _ (F : List ProductRow → ℕ → Type 0) where
  on_gateway-products : (change : Gateway → Gateway) → Preserves (OfProducts F) (on_gateway change)
  unfolding on_gateway
  on_gateway-products change = Preserves-call _ (λ s p. p)

  on_sandbox-products : (change : Gateway → Gateway) → Preserves (OfProducts F) (on_sandbox change)
  unfolding on_sandbox
  on_sandbox-products change = Preserves-call _ (λ s p. p)

  reprovision_route-products :
      (svc : Service) (id : ℕ) (extra : List String)
      → Preserves (OfProducts F) (reprovision_route svc id extra)
  unfolding reprovision_route provision_oauth provision_keys get_product consumers_for_product
      oauth_clients_for_product
  reprovision_route-products svc id extra = search (preserves_rules, on_gateway-products) depth 14

  reprovision_sandbox_route-products :
      (svc : Service) (id : ℕ) (extra : List String)
      → Preserves (OfProducts F) (reprovision_sandbox_route svc id extra)
  unfolding reprovision_sandbox_route get_product sandbox_consumers_for_product
  reprovision_sandbox_route-products svc id extra =
      search (preserves_rules, on_sandbox-products) depth 9

  delete_icon-products : (id : ℕ) → Preserves (OfProducts F) (delete_icon id)
  unfolding delete_icon
  delete_icon-products id = Preserves-call _ (λ s p. p)

  load_active_count-products :
      (id : ℕ) (loaded : Option ℕ) → Preserves (OfProducts F) (load_active_count id loaded)
  unfolding load_active_count count_active_subscriptions
  load_active_count-products id none = search preserves_rules
  load_active_count-products id (some n) = Preserves-pure n

  check_migration-products :
      (p : Product) (old : ProductRow) → Preserves (OfProducts F) (check_migration p old)
  unfolding check_migration oauth_ready_consumer_count oauth_clients_for_product
  check_migration-products p old = search (preserves_rules, load_active_count-products) depth 14

  follow_up-products :
      (svc : Service) (old updated : ProductRow) (loaded : Option ℕ)
      → Preserves (OfProducts F) (follow_up svc old updated loaded)
  unfolding follow_up
  follow_up-products svc old updated loaded =
      search
        (
          preserves_rules, delete_icon-products, load_active_count-products,
          reprovision_route-products, reprovision_sandbox_route-products,
        )
        depth 14 fits 4000

abbrev Clear : String → ℕ → List ProductRow → ℕ → Type 0
Clear path id products next = IsApart products next × IsClear path id products

either :
    {A : Type 0} (x : Result A) (s : State)
    → OfProducts IsApart s
    → Post (λ _. OfProducts IsApart) (OfProducts IsApart) x s
either (ok a) s h = h
either (err e) s h = h

-- A write that keeps the paths apart where the path is clear.
written_where :
    {A : Type 0} (path : String) (id : ℕ) (op : State → Result A × State)
    → ((s : State) → OfProducts (Clear path id) s → OfProducts IsApart (op s).1)
    → Triple (OfProducts (Clear path id)) (call op) (λ _. OfProducts IsApart) (OfProducts IsApart)
written_where path id op kept =
    Triple-call op (λ s h. h.0) kept (λ s h. either (op s).0 (op s).1 (kept s h))

-- What follows the query of overlaps.
cleared :
    {A : Type 0} (path : String) (id : ℕ) (overlaps : Bool) (m : M A) (Q : A → State → Type 0)
    → overlaps ≡ false
    → Triple (OfProducts (Clear path id)) m Q (OfProducts IsApart)
    → Triple
        (λ s.
          OfProducts IsApart s
          × (ok (
                any
                  (λ (q : ProductRow). not (q.id == id) && overlap path q.context_path)
                  s.db.products)
              ≡ ok overlaps))
        m
        Q
        (OfProducts IsApart)
cleared path id overlaps m Q free k =
    Triple-weaken m k
      (λ s (h, e). (
        h,
        query-IsClear path id s.db.products (
            let same : any (λ (q : ProductRow). not (q.id == id) && overlap path q.context_path)
                  s.db.products
                ≡ overlaps =
              cc in
            same ∙ free),
      ))
      (λ a s h. h) (λ s h. h)

create-Apart : (p : Product) → Preserves (OfProducts IsApart) (create p)
unfolding create context_path_overlaps insert_row
create-Apart p = Preserves-triple _ (
    Triple-bind _ _
      (Triple-query (OfProducts IsApart) (OfProducts IsApart)
        (λ d. ok (
          any (λ (q : ProductRow). not (q.id == 0) && overlap p.row.context_path q.context_path)
            d.products))
        (λ s h. h))
      λ overlaps.
        Triple-if overlaps _ _ (λ _. Triple-raise _ (λ s h. h.0))
          (λ free.
            cleared p.row.context_path 0 overlaps _ _ free
              (written_where p.row.context_path 0 _ (λ s h. inserted-IsApart p s.db h.0 h.1))))

check_path-Clear :
    (p : Product) (old : ProductRow)
    → Triple
        (λ s. OfProducts IsApart s × (find_row s.db p.row.id ≡ ok old))
        (check_path p old)
        (λ _. OfProducts (Clear p.row.context_path p.row.id))
        (OfProducts IsApart)
unfolding check_path context_path_overlaps
check_path-Clear p old =
    Triple-if (str_eq p.row.context_path old.context_path) _ _
      (λ same. Triple-pure tt (λ s (h, e). (
        h,
        subst (λ path. IsClear path p.row.id s.db.products)
            (sym ((eq_iff p.row.context_path old.context_path).0 same))
            (old-IsClear p.row.id old s.db h e),
      )))
      (λ _.
        Triple-weaken _
          (Triple-bind _ _
            (Triple-query (OfProducts IsApart) (OfProducts IsApart)
              (λ d. ok (
                any
                  (λ (q : ProductRow).
                    not (q.id == p.row.id) && overlap p.row.context_path q.context_path)
                  d.products))
              (λ s h. h))
            λ overlaps.
              Triple-if overlaps _ _ (λ _. Triple-raise _ (λ s h. h.0))
                (λ free.
                  cleared p.row.context_path p.row.id overlaps _ _ free
                    (Triple-pure tt (λ s h. h))))
          (λ s h. h.0) (λ a s h. h) (λ s h. h))

update-Apart : (svc : Service) (p : Product) → Preserves (OfProducts IsApart) (update svc p)
unfolding update get_row store_row
update-Apart svc p = Preserves-triple _ (
    Triple-bind _ _
      (Triple-query (OfProducts IsApart) (OfProducts IsApart) (λ d. find_row d p.row.id) (λ s h. h))
      λ old. Triple-bind _ _ (check_path-Clear p old) λ _.
        Triple-bind _ _
          (Triple-weaken _
            (Triple-Preserves _
              (check_migration-products (Clear p.row.context_path p.row.id) p old))
            (λ s h. h) (λ a s h. h) (λ s h. h.0))
          λ loaded.
            Triple-bind _ _
              (written_where p.row.context_path p.row.id _ (λ s h. stored-IsApart p s.db h.0 h.1))
              λ updated. Triple-Preserves _ (
                Preserves-bind _ _ (follow_up-products IsApart svc old updated loaded)
                  (λ _. Preserves-pure updated)))

delete-Apart : (id : ℕ) → Preserves (OfProducts IsApart) (delete id)
unfolding delete delete_row remove_subscriptions count_active_subscriptions deprovision_route
delete-Apart id = search (preserves_rules, delete_row-Apart, on_gateway-products) depth 14
  where
    delete_row-Apart : (id : ℕ) → Preserves (OfProducts IsApart) (delete_row id)
    delete_row-Apart id = Preserves-call _ λ s h.
        elim (Bool-cases (any (has_id id) s.db.products)) [
          | inl t ↦ rw t (delete-IsApart (has_id id) s.db.products s.db.next_product h)
          | inr t ↦ rw t h
        ]

-- The changes of products by an administrator.
pub data Change : Type 0 where
  creating updating : Product → Change
  deleting : ℕ → Change

unfoldable pub change : Service → Change → M (Unit {0})
change svc (creating p) = create p >>= λ _. pure tt
change svc (updating p) = update svc p >>= λ _. pure tt
change svc (deleting id) = delete id

changed : (svc : Service) (c : Change) → Preserves (OfProducts IsApart) (change svc c)
unfolding change
changed svc (creating p) = Preserves-bind _ _ (create-Apart p) (λ _. Preserves-pure tt)
changed svc (updating p) = Preserves-bind _ _ (update-Apart svc p) (λ _. Preserves-pure tt)
changed svc (deleting id) = delete-Apart id

-- Whatever calls fail, the creation, the update or the removal of a product keeps the context paths
-- of the products apart: none is equal to another or a prefix of it up to a "/".
pub change-IsApart :
    (svc : Service) (c : Change) (r : Run)
    → IsApart r.state.db.products r.state.db.next_product
    → (let s = (change svc c r).1.state in IsApart s.db.products s.db.next_product)
change-IsApart svc c r h = (changed svc c).at r h
