-- ===== src/Tests/Forging.antt =====
-- A client behind a proxy forges the header; addresses are numbers, and a block is one address.
use mathlib.Core.List.Memᴰ.{head}
use apisix_developer_portal.Common.{
  ℕ, String, none, some, [], ◌∷◌, ◌≡◌, refl, str_eq, ◌==◌, if◌then◌else◌,
}
use apisix_developer_portal.Common.Texts.{split, trim, trim_left, trim_right}
use apisix_developer_portal.Tests.RateLimit.{two_a_second}
use apisix_developer_portal.Httpx.ClientIp.{
  Addresses, entries, ip_in_any, client_ip, rightmost, forwarded_parts, middleware,
}
use apisix_developer_portal.Httpx.ClientIp.Spoofing.{HasClient, forging_is_futile}
use Prim.Native.String

abbrev net : Addresses ℕ ℕ
net = record {
  split_host_port = λ s. if str_eq s "10.0.0.1:80" then some ("10.0.0.1", "80") else none;
  parse_ip =
      λ s. if str_eq s "10.0.0.1" then some 1 else if str_eq s "8.8.8.8" then some 8 else none;
  contains = λ block ip. block == ip;
}

chain-HasClient : HasClient net (1 ∷ []) " 8.8.8.8"
unfolding HasClient entries split trim trim_left trim_right ip_in_any
chain-HasClient = ("8.8.8.8", head refl, refl)

-- The client is counted under its own address.
keyed : client_ip net (1 ∷ []) "10.0.0.1:80" ("1.2.3.4, 8.8.8.8, 10.0.0.1" ∷ []) ≡ "8.8.8.8"
unfolding client_ip rightmost forwarded_parts entries split trim trim_left trim_right ip_in_any
keyed = refl

forging_is_futile_example :
    middleware net
      (1 ∷ [])
      two_a_second
      5
      "10.0.0.1:80"
      ("5.6.7.8" ∷ String.◌++◌ "1.2.3.4" (String.◌∷◌ "," " 8.8.8.8") ∷ [])
    ≡ middleware net (1 ∷ []) two_a_second 5 "10.0.0.1:80" (" 8.8.8.8" ∷ [])
forging_is_futile_example =
    forging_is_futile net (1 ∷ []) two_a_second 5 "10.0.0.1:80" ("5.6.7.8" ∷ []) "1.2.3.4"
      " 8.8.8.8" chain-HasClient
