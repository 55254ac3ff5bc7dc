-- ===== src/Tests/Targets.antt =====
-- A product with a public target; addresses are numbers, and those below 10 are private.
use apisix_developer_portal.Common.{
  ℕ, true, false, none, some, [], ◌∷◌, ◌≡◌, ◌⊎◌, refl, str_eq, ltb, ◌==◌, if◌then◌else◌,
}
use apisix_developer_portal.Common.Texts.{strip_prefix, has_char}
use apisix_developer_portal.Db.{ProductRow}
use apisix_developer_portal.Admin.Products.Forms.{
  Net, fold, after_scheme, is_private_ip, all_public, public_host, valid_target, valid_upstream,
  ends_alnum, ctx_path_re, has_double_slash, valid_context_path, validate,
}
use apisix_developer_portal.Admin.Products.Targets.{IsPublic, IsEscapable, validate-IsPublic}
use apisix_developer_portal.Tests.{weather}

abbrev net : Net ℕ
net = record {
  split_host_port = λ s.
      if str_eq s "api.geo:443"
      then some ("api.geo", "443")
      else if str_eq s "localhost:80"
      then some ("localhost", "80")
      else none;
  parse_ip = λ s. none;
  lookup_ip = λ s. if str_eq s "api.geo" then some (80 ∷ []) else none;
  is_loopback = λ ip. ip == 1;
  is_link_local_unicast = λ ip. ip == 2;
  is_link_local_multicast = λ ip. ip == 3;
  is_private = λ ip. ltb ip 10;
  is_unspecified = λ ip. ip == 0;
}

abbrev product : ProductRow
product = record weather { upstream_url = "https://api.geo:443"; sandbox_upstream_url = "" }

validate-IsPublic_example :
    ((product.upstream_url ≡ "") ⊎ IsPublic net "https://api.geo:443")
    × ((product.sandbox_upstream_url ≡ "") ⊎ IsPublic net product.sandbox_upstream_url)
    × IsEscapable "/weather"
unfolding strip_prefix has_char fold after_scheme is_private_ip all_public public_host valid_target
    valid_upstream ends_alnum ctx_path_re has_double_slash valid_context_path validate
validate-IsPublic_example = validate-IsPublic net (λ s. true) product refl

-- Paths and targets that are refused.
refused :
    (valid_context_path "/maps%" ≡ false)
    × (valid_context_path "/maps/" ≡ false)
    × (valid_context_path "/maps/v_2" ≡ true)
    × (valid_upstream net "http://localhost:80" false ≡ false)
    × (valid_upstream net "http://localhost:80" true ≡ true)
unfolding strip_prefix has_char fold after_scheme is_private_ip all_public public_host valid_target
    valid_upstream ends_alnum ctx_path_re has_double_slash valid_context_path
refused = (refl, refl, refl, refl, refl)
