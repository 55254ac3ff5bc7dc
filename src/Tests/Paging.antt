-- ===== src/Tests/Paging.antt =====
-- Pages of three rows, and the texts of some requests.
use apisix_developer_portal.Common.{ℕ, ◌≤◌, ◌*◌, some, List, [], ◌∷◌, ◌≡◌, refl, arith}
use apisix_developer_portal.Paging.{negative, atoi, parse, offset, max_page_size}
use apisix_developer_portal.Paging.Bounds.{take, pages, parse-IsValid, pages-tile}

read : parse "3" "500" ≡ record { page = 3; size = 100 }
unfolding parse atoi
read = refl

fallen_back : parse "-1" "x" ≡ record { page = 1; size = 20 }
unfolding parse atoi
fallen_back = refl

-- The last page that a request can name.
wrapped_around : offset (parse "9223372036854775807" "") ≡ negative 40
unfolding parse atoi offset
wrapped_around = refl

parse-IsValid_example :
    (1 ≤ (parse "0" "500").page)
    × (1 ≤ (parse "0" "500").size)
    × ((parse "0" "500").size ≤ max_page_size)
parse-IsValid_example = parse-IsValid "0" "500"

abbrev listing : List ℕ
listing = 4 ∷ 5 ∷ 6 ∷ []

pages-tile_example : pages 2 2 listing ≡ some (take (2 * 2) listing)
pages-tile_example = pages-tile 2 2 listing (omega arith)
