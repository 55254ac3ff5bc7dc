-- ===== src/Admin/Products.antt =====
-- internal/admin: the products (service.go, and the queries of repo.go that it uses). A product of a
-- request is a row and the signal that removes its document.
pub mod Paths
pub mod Forms
pub mod Targets
use Prim.Native.Char.{code}
use Prim.Native.String
use apisix_developer_portal.Common.{
  ℕ, ◌+◌, String, Bool, true, false, ◌&&◌, ◌||◌, not, Option, none, some, List, [], ◌∷◌, str_eq,
  ◌==◌, if◌then◌else◌, ltb, length, select, find, any, update_where, delete_where,
}
use apisix_developer_portal.Db.{ProductRow, SubscriptionRow, Db}
use apisix_developer_portal.Effects.{
  product_not_found, slug_taken, context_path_taken, has_subscriptions, oauth_migration_blocked,
  failure, Result, ok, err, M, pure, raise, try, query, exec, ◌>>=◌, ◌>>◌,
}
use apisix_developer_portal.Subscriptions.Repo.{is_active, remove_subscriptions}
use apisix_developer_portal.Subscriptions.Service.{Service}
use apisix_developer_portal.Subscriptions.Service.Routes.{
  reprovision_route, reprovision_sandbox_route, deprovision_route, oauth_ready_consumer_count,
}

pub record Product : Type 0 where
  pub row : ProductRow
  pub remove_openapi_spec : Bool

abbrev pub has_id : ℕ → ProductRow → Bool
has_id id p = p.id == id

abbrev pub starts_with : String → String → Bool
starts_with String.[] s = true
starts_with (String.◌∷◌ c p) String.[] = false
starts_with (String.◌∷◌ c p) (String.◌∷◌ d s) = code c == code d && starts_with p s

abbrev pub below : String → String → Bool
below p q = starts_with (String.◌++◌ p "/") q

-- Equal, or one a prefix of the other up to a "/". The patterns of LIKE say so because a context
-- path has neither "%" nor "\" and its "_" is escaped.
unfoldable pub overlap : String → String → Bool
overlap p q = str_eq q p || below p q || below q p

unfoldable pub context_path_overlaps : String → ℕ → M Bool
unfolding overlap
context_path_overlaps path except_id = query (λ d.
    ok
      (any (λ (q : ProductRow). not (q.id == except_id) && overlap path q.context_path) d.products))

abbrev pub find_row : Db → ℕ → Result ProductRow
find_row d id = elim (find (has_id id) d.products) [ none ↦ err product_not_found | some p ↦ ok p ]

unfoldable pub get_row : ℕ → M ProductRow
get_row id = query (λ d. find_row d id)

-- `COALESCE(NULLIF(…, ''), …)`
abbrev pub or_default : String → String → String
or_default text other = if str_eq text "" then other else text

-- `NULLIF(…, '')::date` of `derefStr`; the checks of a request admit dates only.
abbrev pub date : Option String → Option String
date none = none
date (some text) = if str_eq text "" then none else some text

-- The row as it is written, with the document that it has so far.
abbrev pub written : Product → ℕ → String → ProductRow
written p id document = record p.row {
  id = id;
  version = or_default p.row.version "1.0.0";
  auth_type = or_default p.row.auth_type "key-auth";
  lifecycle_status = or_default p.row.lifecycle_status "active";
  sunset_date = date p.row.sunset_date;
  openapi_spec = if p.remove_openapi_spec then "" else or_default p.row.openapi_spec document;
}

-- The CHECK constraints of the two statuses.
abbrev pub is_checked : ProductRow → Bool
is_checked p =
    (str_eq p.auth_type "key-auth" || str_eq p.auth_type "oauth2")
    && (str_eq p.lifecycle_status "active"
        || str_eq p.lifecycle_status "deprecated"
        || str_eq p.lifecycle_status "sunset")

-- A row under other constraints: the slug and the context path are unique.
abbrev pub conflict : ProductRow → List ProductRow → Option (Result ProductRow)
conflict p rows =
    if not (is_checked p)
    then some (err failure)
    else if any (λ (q : ProductRow). not (q.id == p.id) && str_eq q.slug p.slug) rows
    then some (err slug_taken)
    else if any (λ (q : ProductRow). not (q.id == p.id) && str_eq q.context_path p.context_path)
        rows
    then some (err context_path_taken)
    else none

abbrev pub inserted : Product → Db → Result ProductRow × Db
inserted p d =
    let row = written (record p { remove_openapi_spec = false }) d.next_product "" in
    elim (conflict row d.products) [
      | some e ↦ (e, d)
      | none ↦ (ok row, record d { products = row ∷ d.products; next_product = d.next_product + 1 })
    ]

unfoldable pub insert_row : Product → M ProductRow
insert_row p = exec (inserted p)

abbrev pub stored : Product → Db → Result ProductRow × Db
stored p d = elim (find (has_id p.row.id) d.products) [
  | none ↦ (err product_not_found, d)
  | some old ↦
      let row = written p p.row.id old.openapi_spec in
      elim (conflict row d.products) [
        | some e ↦ (e, d)
        | none ↦
            (ok row, record d { products = update_where (has_id p.row.id) (λ _. row) d.products })
      ]
]

unfoldable pub store_row : Product → M ProductRow
store_row p = exec (stored p)

-- The subscriptions and the icon of the product go with it (`ON DELETE CASCADE`).
unfoldable pub delete_row : ℕ → M (Unit {0})
unfolding remove_subscriptions
delete_row id = exec λ d.
    if any (has_id id) d.products
    then (let d' = remove_subscriptions (λ (s : SubscriptionRow). s.api_product_id == id) d in
        (
          ok tt,
          record d' {
            products = delete_where (has_id id) d.products;
            icons = delete_where (λ i. i == id) d.icons;
          },
        ))
    else (err product_not_found, d)

unfoldable pub count_active_subscriptions : ℕ → M ℕ
count_active_subscriptions id = query (λ d. ok (
    length
      (select (λ (s : SubscriptionRow). s.api_product_id == id && is_active s) d.subscriptions)))

unfoldable pub delete_icon : ℕ → M (Unit {0})
delete_icon id = exec (λ d. (ok tt, record d { icons = delete_where (λ i. i == id) d.icons }))

-- `Create`
unfoldable pub create : Product → M ProductRow
create p = do
  overlaps ← context_path_overlaps p.row.context_path 0
  if overlaps then raise context_path_taken else insert_row p

-- The check of `Update` for a changed context path.
unfoldable pub check_path : Product → ProductRow → M (Unit {0})
check_path p old = if str_eq p.row.context_path old.context_path then pure tt else do
  overlaps ← context_path_overlaps p.row.context_path p.row.id
  if overlaps then raise context_path_taken else pure tt

-- `loadActiveCount`, with the count that is loaded already.
unfoldable pub load_active_count : ℕ → Option ℕ → M ℕ
load_active_count id none = count_active_subscriptions id
load_active_count id (some n) = pure n

-- The guard of a change to oauth2. It answers the count, if it loaded it.
unfoldable pub check_migration : Product → ProductRow → M (Option ℕ)
check_migration p old =
    if str_eq p.row.auth_type "oauth2" && not (str_eq old.auth_type "oauth2")
    then (do
      n ← load_active_count p.row.id none
      if ltb 0 n
          then (do
            ready ← oauth_ready_consumer_count p.row.id
            if ltb ready n then raise oauth_migration_blocked else pure (some n))
          else pure (some n))
    else pure none

-- The routes after the row is written.
unfoldable pub follow_up : Service → ProductRow → ProductRow → Option ℕ → M (Unit {0})
follow_up svc old updated loaded = do
  if str_eq updated.icon "upload" then pure tt else delete_icon updated.id
  if not (str_eq updated.upstream_url old.upstream_url)
        || not (str_eq updated.auth_type old.auth_type)
      then (do
        n ← load_active_count updated.id loaded
        if ltb 0 n then reprovision_route svc updated.id [] else pure tt)
      else pure tt
  if not (str_eq updated.sandbox_upstream_url old.sandbox_upstream_url)
      then reprovision_sandbox_route svc updated.id []
      else pure tt

-- `Update`
unfoldable pub update : Service → Product → M ProductRow
update svc p = do
  old ← get_row p.row.id
  check_path p old
  loaded ← check_migration p old
  updated ← store_row p
  follow_up svc old updated loaded
  pure updated

-- `Delete`; an error of the gateway is logged only.
unfoldable pub delete : ℕ → M (Unit {0})
delete id = do
  n ← count_active_subscriptions id
  if ltb 0 n then raise has_subscriptions else do delete_row id; try (deprovision_route id); pure tt
