-- ===== src/Tests/Names.antt =====
-- The names on the gateway at concrete ids.
use apisix_developer_portal.Common.{ℕ, ◌≡◌, refl}
use apisix_developer_portal.Subscriptions.Model.{consumer_name-injective, route_id-injective}

consumer_name-injective_example : ◌≡◌ {A = ℕ} 12 12
consumer_name-injective_example = consumer_name-injective 12 12 refl

route_id-injective_example : ◌≡◌ {A = ℕ} 7 7
route_id-injective_example = route_id-injective 7 7 refl
