-- ===== src/Apisix.antt =====
-- internal/apisix: the gateway as the portal's services see it, an implementation of the interface
-- `Gateway` (gateway.go) by the two maps of the in-memory `Fake` (fake.go). Whether a call reaches
-- the gateway is decided in Effects.
pub mod ClientId
use apisix_developer_portal.Common.{
  ℕ, String, Bool, true, false, Option, none, some, List, str_eq, if◌then◌else◌,
}

pub record RateLimit : Type 0 where
  pub count : ℕ
  pub window_seconds : ℕ

pub record Consumer : Type 0 where
  pub api_key : String
  pub limit : RateLimit

pub record Route : Type 0 where
  pub uri : String
  pub upstream : String
  pub allowed : List String
  pub oauth : Bool

pub record Gateway : Type 0 where
  pub consumers : String → Option Consumer
  pub routes : String → Option Route

-- `m[k] = v` and `delete(m, k)`
abbrev pub put_key {ℓ} : {V : Type ℓ} → (String → Option V) → String → V → String → Option V
put_key m k v j = if str_eq k j then some v else m j

abbrev pub delete_key {ℓ} : {V : Type ℓ} → (String → Option V) → String → String → Option V
delete_key m k j = if str_eq k j then none else m j

unfoldable pub ensure_consumer : String → String → RateLimit → Gateway → Gateway
ensure_consumer username api_key limit g = record g {
  consumers = put_key g.consumers username (record { api_key = api_key; limit = limit });
}

unfoldable pub delete_consumer : String → Gateway → Gateway
delete_consumer username g = record g { consumers = delete_key g.consumers username }

unfoldable pub ensure_route : String → String → String → List String → Gateway → Gateway
ensure_route route_id context_path upstream allowed g =
    let route : Route = record {
      uri = context_path;
      upstream = upstream;
      allowed = allowed;
      oauth = false;
    } in
    record g { routes = put_key g.routes route_id route }

unfoldable pub ensure_oauth_route :
    String → String → String → String → String → List String → Gateway → Gateway
ensure_oauth_route route_id context_path upstream issuer claim allowed g =
    let route : Route = record {
      uri = context_path;
      upstream = upstream;
      allowed = allowed;
      oauth = true;
    } in
    record g { routes = put_key g.routes route_id route }

unfoldable pub delete_route : String → Gateway → Gateway
delete_route route_id g = record g { routes = delete_key g.routes route_id }
