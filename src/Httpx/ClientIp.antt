-- ===== src/Httpx/ClientIp.antt =====
-- internal/httpx/ratelimit.go: the key of a request for the limiter, behind trusted proxies or not.
-- net.SplitHostPort, net.ParseIP and the blocks of addresses are parameters.
pub mod Spoofing
use apisix_developer_portal.Common.{
  ℕ, String, Bool, true, false, ◌&&◌, ◌||◌, not, Option, none, some, List, [], ◌∷◌, ◌++◌, str_eq,
  if◌then◌else◌, any, is_empty, map,
}
use apisix_developer_portal.Common.Texts.{split, trim}
use apisix_developer_portal.Admin.Plans.Forms.{is_space}
use apisix_developer_portal.Httpx.RateLimit.{RateLimiter, allow}

pub record Addresses (Ip Block : Type 0) : Type 0 where
  pub split_host_port : String → Option (String × String)
  pub parse_ip : String → Option Ip
  pub contains : Block → Ip → Bool

-- The entries of the values of X-Forwarded-For, from left to right.
unfoldable pub entries : String → List String
entries value = map (trim is_space) (split b',' value)

unfoldable pub forwarded_parts : List String → List String
forwarded_parts [] = []
forwarded_parts (value ∷ values) = entries value ++ forwarded_parts values

module _ {Ip Block : Type 0} (net : Addresses Ip Block) (trusted : List Block) where
  -- `ipInAny`
  unfoldable pub ip_in_any : String → Bool
  ip_in_any ip = elim (net.parse_ip ip) [
    | none ↦ false
    | some parsed ↦ any (λ block. net.contains block parsed) trusted
  ]

  abbrev pub is_client : String → Bool
  is_client part = not (str_eq part "") && not (ip_in_any part)

  -- The loop over the parts, from the right.
  unfoldable pub rightmost : List String → Option String
  rightmost [] = none
  rightmost (part ∷ parts) = elim (rightmost parts) [
    | some ip ↦ some ip
    | none ↦ if is_client part then some part else none
  ]

  abbrev pub host_of : String → Option (String × String) → String
  host_of remote_addr none = remote_addr
  host_of remote_addr (some (host, port)) = host

  abbrev pub or_host : String → Option String → String
  or_host host none = host
  or_host host (some ip) = ip

  -- `clientIP`, of the address of the peer and the values of X-Forwarded-For.
  unfoldable pub client_ip : String → List String → String
  client_ip remote_addr forwarded =
      let host = host_of remote_addr (net.split_host_port remote_addr) in
      if is_empty trusted || not (ip_in_any host)
      then host
      else or_host host (rightmost (forwarded_parts forwarded))

  -- `Middleware`: whether the request goes on to the next handler, and the limiter after it.
  unfoldable pub middleware : RateLimiter → ℕ → String → List String → Bool × RateLimiter
  middleware rl now remote_addr forwarded = allow now (client_ip remote_addr forwarded) rl
