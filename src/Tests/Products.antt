-- ===== src/Tests/Products.antt =====
-- A product moves to another path beside the other product.
use mathlib.Core.List.Memᴰ.{head, tail}
use apisix_developer_portal.Common.{true, false, [], Memᴰ, ◌≡◌, ◌≢◌, refl, sym, ap, ◌∙◌, arith}
use apisix_developer_portal.Db.{ProductRow}
use apisix_developer_portal.Effects.{Run}
use apisix_developer_portal.Admin.Products.{Product, overlap}
use apisix_developer_portal.Admin.Products.Paths.{IsApart}
use apisix_developer_portal.Admin.Products.Paths.Kept.{updating, change, change-IsApart}
use apisix_developer_portal.Tests.{portal, maps, opening}

-- "_" stands for itself, and a path overlaps with what lies below it only.
overlaps :
    (overlap "/maps" "/maps/v2" ≡ true)
    × (overlap "/maps" "/mapsv2" ≡ false)
    × (overlap "/m_ps/v2" "/maps" ≡ false)
unfolding overlap
overlaps = (refl, refl, refl)

apart_rows :
    (a b : ProductRow)
    → Memᴰ a opening.db.products
    → Memᴰ b opening.db.products
    → a.id ≢ b.id
    → overlap a.context_path b.context_path ≡ false
unfolding overlap
apart_rows a b (head e) (head e') d = absurd (d (ap (λ (x : ProductRow). x.id) (e ∙ sym e')))
apart_rows a b (head e) (tail (head e')) d = rw (e, e') refl
apart_rows a b (tail (head e)) (head e') d = rw (e, e') refl
apart_rows a b (tail (head e)) (tail (head e')) d =
    absurd (d (ap (λ (x : ProductRow). x.id) (e ∙ sym e')))
apart_rows a b (head e) (tail (tail x)) d = elim x [ ]
apart_rows a b (tail (head e)) (tail (tail x)) d = elim x [ ]
apart_rows a b (tail (tail x)) _ d = elim x [ ]

named_rows : (a : ProductRow) → Memᴰ a opening.db.products → a.id ≢ 0
named_rows a (head e) = rw e (λ z. absurd (omega arith))
named_rows a (tail (head e)) = rw e (λ z. absurd (omega arith))
named_rows a (tail (tail x)) = elim x [ ]

opening-IsApart : IsApart opening.db.products opening.db.next_product
opening-IsApart = record {
  apart = apart_rows;
  positive = named_rows;
  started = λ z. absurd (omega arith);
}

abbrev moved : Product
moved = record { row = record maps { context_path = "/atlas/v2" }; remove_openapi_spec = true }

abbrev at_opening : Run
at_opening = record { state = opening; faults = [] }

change-IsApart_example :
    IsApart
      (change portal (updating moved) at_opening).1.state.db.products
      (change portal (updating moved) at_opening).1.state.db.next_product
change-IsApart_example = change-IsApart portal (updating moved) at_opening opening-IsApart
