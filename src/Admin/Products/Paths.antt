-- ===== src/Admin/Products/Paths.antt =====
-- internal/admin/service.go: the context paths of the products, as the routes of the gateway have
-- them.
pub mod Kept
use mathlib.Core.List.Memᴰ.{head, tail}
use apisix_developer_portal.Common.{
  ℕ, ◌+◌, String, Bool, true, false, ◌&&◌, ◌||◌, not, Option, none, some, List, [], ◌∷◌, Memᴰ, ◌≡◌,
  ◌≢◌, inl, inr, refl, sym, ap, subst, ◌∙◌, str_eq, eq_iff, ◌==◌, ==_iff, ==_self, if◌then◌else◌,
  find, find-mem, any, any-false, update_where, update_where-mem, delete_where, delete_where-mem,
  ◌⊎◌, Bool-cases, Option-cases, arith,
}
use apisix_developer_portal.Db.{ProductRow, Db}
use apisix_developer_portal.Effects.{product_not_found, Result, ok, err}
use apisix_developer_portal.Admin.Products.{
  Product, has_id, below, overlap, written, conflict, find_row, inserted, stored,
}

pub record IsApart (products : List ProductRow) (next : ℕ) : Type 0 where
  pub apart :
      (a b : ProductRow)
      → Memᴰ a products
      → Memᴰ b products
      → a.id ≢ b.id
      → overlap a.context_path b.context_path ≡ false
  pub positive : (a : ProductRow) → Memᴰ a products → a.id ≢ 0
  pub started : next ≢ 0

-- No product but the one with the id overlaps with the path.
abbrev pub IsClear : String → ℕ → List ProductRow → Type 0
IsClear path id products =
    (b : ProductRow) → Memᴰ b products → b.id ≢ id → overlap path b.context_path ≡ false

||-false : (a b : Bool) → (a || b) ≡ false → (a ≡ false) × (b ≡ false)
||-false a b h = ground arith

overlap-sym : (p q : String) → overlap p q ≡ false → overlap q p ≡ false
unfolding overlap
overlap-sym p q h =
    let (rest, other) = ||-false (str_eq q p || below p q) (below q p) h in
    let (differ, one) = ||-false (str_eq q p) (below p q) rest in
    elim (Bool-cases (str_eq p q)) [
      | inl t ↦ let back : str_eq q p ≡ true = (eq_iff q p).1 (sym ((eq_iff p q).0 t)) in absurd cc
      | inr t ↦ rw (t, one, other) refl
    ]

-- What the query of overlaps says.
pub query-IsClear :
    (path : String) (id : ℕ) (products : List ProductRow)
    → any (λ (q : ProductRow). not (q.id == id) && overlap path q.context_path) products ≡ false
    → IsClear path id products
query-IsClear path id products h b m other =
    let here =
      any-false (λ (q : ProductRow). not (q.id == id) && overlap path q.context_path) products h
        m in
    elim (Bool-cases (b.id == id)) [
      | inl t ↦ absurd (other ((==_iff b.id id).0 t))
      | inr t ↦ rw t at here
    ]

insert-IsApart :
    (row : ProductRow) (products : List ProductRow) (next : ℕ)
    → row.id ≡ next
    → IsApart products next
    → IsClear row.context_path 0 products
    → IsApart (row ∷ products) (next + 1)
insert-IsApart row products next new h clear = record {
  apart = together;
  positive = λ a m. elim m [
    | head e ↦ subst (λ n. n ≢ 0) (sym (ap (λ (x : ProductRow). x.id) e ∙ new)) h.started
    | tail m' ↦ h.positive a m'
  ];
  started = λ e. absurd (let k = h.started in omega arith);
}
  where
    fresh :
        (a b : ProductRow)
        → a ≡ row
        → Memᴰ b products
        → overlap a.context_path b.context_path ≡ false
    fresh a b e m =
        subst (λ (x : ProductRow). overlap x.context_path b.context_path ≡ false) (sym e)
          (clear b m (h.positive b m))

    together :
        (a b : ProductRow)
        → Memᴰ a (row ∷ products)
        → Memᴰ b (row ∷ products)
        → a.id ≢ b.id
        → overlap a.context_path b.context_path ≡ false
    together a b (head e) (head e') differ =
        absurd (differ (ap (λ (x : ProductRow). x.id) (e ∙ sym e')))
    together a b (head e) (tail m) differ = fresh a b e m
    together a b (tail m) (head e) differ = overlap-sym _ _ (fresh b a e m)
    together a b (tail m) (tail m') differ = h.apart a b m m' differ

pub inserted-IsApart :
    (p : Product) (d : Db)
    → IsApart d.products d.next_product
    → IsClear p.row.context_path 0 d.products
    → IsApart (inserted p d).1.products (inserted p d).1.next_product
inserted-IsApart p d h clear =
    let row = written (record p { remove_openapi_spec = false }) d.next_product "" in
    elim (Option-cases (conflict row d.products)) [
      | inr (e, c) ↦ rw (inserted, c) h
      | inl c ↦ rw (inserted, c) (insert-IsApart row d.products d.next_product refl h clear)
    ]

replace-IsApart :
    (row : ProductRow) (products : List ProductRow) (next : ℕ)
    → row.id ≢ 0
    → IsApart products next
    → IsClear row.context_path row.id products
    → IsApart (update_where (has_id row.id) (λ _. row) products) next
replace-IsApart row products next named h clear = record {
  apart = together;
  positive = above;
  started = h.started;
}
  where
    -- A row of the new table is the written one, or an old one with another id.
    origin :
        (a : ProductRow)
        → Memᴰ a (update_where (has_id row.id) (λ _. row) products)
        → (a ≡ row) ⊎ (Memᴰ a products × (a.id ≢ row.id))
    origin a m =
        let (b, mb, from) = update_where-mem (has_id row.id) (λ _. row) a products m in
        elim from [
          | inl (_, e) ↦ inl e
          | inr (other, e) ↦ inr (
            subst (λ x. Memᴰ x products) (sym e) mb,
            λ same. let k : (b.id == row.id) ≡ true = rw (← e) ((==_iff a.id row.id).1 same) in cc,
          )
        ]

    above : (a : ProductRow) → Memᴰ a (update_where (has_id row.id) (λ _. row) products) → a.id ≢ 0
    above a m = elim (origin a m) [
      | inl e ↦ subst (λ (x : ProductRow). x.id ≢ 0) (sym e) named
      | inr (m', _) ↦ h.positive a m'
    ]

    fresh :
        (a b : ProductRow)
        → a ≡ row
        → Memᴰ b products
        → b.id ≢ row.id
        → overlap a.context_path b.context_path ≡ false
    fresh a b e m other =
        subst (λ (x : ProductRow). overlap x.context_path b.context_path ≡ false) (sym e)
          (clear b m other)

    together :
        (a b : ProductRow)
        → Memᴰ a (update_where (has_id row.id) (λ _. row) products)
        → Memᴰ b (update_where (has_id row.id) (λ _. row) products)
        → a.id ≢ b.id
        → overlap a.context_path b.context_path ≡ false
    together a b ma mb differ = elim (origin a ma) [
      | inl e ↦ elim (origin b mb) [
        | inl e' ↦ absurd (differ (ap (λ (x : ProductRow). x.id) (e ∙ sym e')))
        | inr (m', other) ↦ fresh a b e m' other
      ]
      | inr (m, other) ↦ elim (origin b mb) [
        | inl e' ↦ overlap-sym b.context_path a.context_path (fresh b a e' m other)
        | inr (m', _) ↦ h.apart a b m m' differ
      ]
    ]

pub stored-IsApart :
    (p : Product) (d : Db)
    → IsApart d.products d.next_product
    → IsClear p.row.context_path p.row.id d.products
    → IsApart (stored p d).1.products (stored p d).1.next_product
stored-IsApart p d h clear = elim (Option-cases (find (has_id p.row.id) d.products)) [
  | inl missing ↦ rw (stored, missing) h
  | inr (old, there) ↦
      let row = written p p.row.id old.openapi_spec in
      let (m, t) = find-mem (has_id p.row.id) d.products there in
      let named : p.row.id ≢ 0 =
        subst (λ n. n ≢ 0) ((==_iff old.id p.row.id).0 t) (h.positive old m) in
      elim (Option-cases (conflict row d.products)) [
        | inr (e, c) ↦ rw (stored, there, c) h
        | inl c ↦
            rw (stored, there, c) (replace-IsApart row d.products d.next_product named h clear)
      ]
]

pub delete-IsApart :
    (q : ProductRow → Bool) (products : List ProductRow) (next : ℕ)
    → IsApart products next
    → IsApart (delete_where q products) next
delete-IsApart q products next h = record {
  apart = λ a b m m'.
      h.apart a b (delete_where-mem q a products m).0 (delete_where-mem q b products m').0;
  positive = λ a m. h.positive a (delete_where-mem q a products m).0;
  started = h.started;
}

-- The path of a stored product is clear of the others.
pub old-IsClear :
    (id : ℕ) (old : ProductRow) (d : Db)
    → IsApart d.products d.next_product
    → find_row d id ≡ ok old
    → IsClear old.context_path id d.products
old-IsClear id old d h e b m other = elim (Option-cases (find (has_id id) d.products)) [
  | inl missing ↦ let k : err product_not_found ≡ ok old = rw (missing, find_row) at e in absurd cc
  | inr (x, there) ↦
      let k : ok x ≡ ok old = rw (there, find_row) at e in
      let same : x ≡ old = cc in
      let (mx, t) = find-mem (has_id id) d.products there in
      let named : old.id ≡ id = ap (λ (y : ProductRow). y.id) (sym same) ∙ (==_iff x.id id).0 t in
      h.apart old b (subst (λ y. Memᴰ y d.products) same mx) m (λ s. other (sym s ∙ named))
]
