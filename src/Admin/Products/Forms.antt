-- ===== src/Admin/Products/Forms.antt =====
-- internal/admin/product.go: the checks of a product that a request describes. The parsers of Go's
-- standard library (net.SplitHostPort, net.ParseIP, time.Parse), what it says of an address, and the
-- resolver are parameters. A message is the key of a text of internal/i18n.
use Prim.Native.Char.{Char, code}
use apisix_developer_portal.Common.{
  ℕ, String, Bool, true, false, ◌&&◌, ◌||◌, not, Option, none, some, List, [], ◌∷◌, str_eq, ◌==◌,
  if◌then◌else◌, any,
}
use apisix_developer_portal.Common.Texts.{strip_prefix, has_char, lower_char}
use apisix_developer_portal.Apisix.ClientId.{between, all_chars}
use apisix_developer_portal.Admin.Plans.Forms.{is_blank}
use apisix_developer_portal.Db.{ProductRow}

-- `net` for addresses of a type: what a text parses to, what an address is, and what a name
-- resolves to, if it does.
pub record Net (Ip : Type 0) : Type 0 where
  pub split_host_port : String → Option (String × String)
  pub parse_ip : String → Option Ip
  pub lookup_ip : String → Option (List Ip)
  pub is_loopback : Ip → Bool
  pub is_link_local_unicast : Ip → Bool
  pub is_link_local_multicast : Ip → Bool
  pub is_private : Ip → Bool
  pub is_unspecified : Ip → Bool

-- `strings.EqualFold` with a text of small letters: the long s and the sign of the Kelvin fold to
-- letters too.
abbrev pub fold_char : Char → Char
fold_char c = if code c == 383 then "s" else if code c == 8490 then "k" else lower_char c

unfoldable pub fold : String → String
fold String.[] = ""
fold (String.◌∷◌ c s) = String.◌∷◌ (fold_char c) (fold s)

-- What follows the first "://", if there is one.
unfoldable pub after_scheme : String → Option String
after_scheme String.[] = none
after_scheme (String.◌∷◌ c s) = elim (strip_prefix "://" (String.◌∷◌ c s)) [
  | some t ↦ some t
  | none ↦ after_scheme s
]

abbrev pub without_scheme : String → String
without_scheme s = elim (after_scheme s) [ some t ↦ t | none ↦ s ]

abbrev pub is_digit : ℕ → Bool
is_digit c = between b'0' b'9' c

module _ {Ip : Type 0} (net : Net Ip) where
  unfoldable pub is_private_ip : Ip → Bool
  is_private_ip ip =
      net.is_loopback ip
      || net.is_link_local_unicast ip
      || net.is_link_local_multicast ip
      || net.is_private ip
      || net.is_unspecified ip

  -- The addresses that a name resolves to: some, and none of them private.
  unfoldable pub all_public : Option (List Ip) → Bool
  all_public none = false
  all_public (some []) = false
  all_public (some (ip ∷ ips)) = not (any is_private_ip (ip ∷ ips))

  unfoldable pub public_host : String → Option Ip → Bool
  public_host host (some ip) = not (is_private_ip ip)
  public_host host none = has_char b'.' host && all_public (net.lookup_ip host)

  unfoldable pub valid_target : Bool → Option (String × String) → Bool
  valid_target allow_private none = false
  valid_target allow_private (some (host, port)) =
      not (str_eq host "")
      && not (str_eq port "")
      && all_chars is_digit port
      && (allow_private
          || not (str_eq (fold host) "localhost") && public_host host (net.parse_ip host))

  unfoldable pub valid_upstream : String → Bool → Bool
  valid_upstream s allow_private =
      valid_target allow_private (net.split_host_port (without_scheme s))

abbrev pub is_alnum : ℕ → Bool
is_alnum c = between b'A' b'Z' c || between b'a' b'z' c || between b'0' b'9' c

abbrev pub is_path_char : ℕ → Bool
is_path_char c = is_alnum c || c == b'/' || c == b'_' || c == b'-'

-- A text that is empty or ends in a letter or a digit.
unfoldable pub ends_alnum : String → Bool
ends_alnum String.[] = true
ends_alnum (String.◌∷◌ c String.[]) = is_alnum (code c)
ends_alnum (String.◌∷◌ c (String.◌∷◌ d s)) = ends_alnum (String.◌∷◌ d s)

-- `^/[A-Za-z0-9](?:[A-Za-z0-9/_-]*[A-Za-z0-9])?$`
unfoldable pub ctx_path_re : String → Bool
ctx_path_re String.[] = false
ctx_path_re (String.◌∷◌ a String.[]) = false
ctx_path_re (String.◌∷◌ a (String.◌∷◌ c s)) =
    code a == b'/' && is_alnum (code c) && all_chars is_path_char s && ends_alnum s

-- `strings.Contains(p, "//")`
unfoldable pub has_double_slash : String → Bool
has_double_slash String.[] = false
has_double_slash (String.◌∷◌ c String.[]) = false
has_double_slash (String.◌∷◌ c (String.◌∷◌ d s)) =
    let rest = has_double_slash (String.◌∷◌ d s) in code c == b'/' && code d == b'/' || rest

unfoldable pub valid_context_path : String → Bool
valid_context_path p = not (str_eq p "/" || has_double_slash p) && ctx_path_re p

abbrev pub bad_date : (String → Bool) → Option String → Bool
bad_date parse_date none = false
bad_date parse_date (some text) = not (str_eq text "") && not (parse_date text)

module _ {Ip : Type 0} (net : Net Ip) (parse_date : String → Bool) where
  unfoldable pub validate : Bool → ProductRow → String
  validate allow_private p =
      if is_blank p.name
      then "common.nameRequired"
      else if is_blank p.slug
      then "admin.product.slugRequired"
      else if is_blank p.category
      then "admin.product.categoryRequired"
      else if is_blank p.context_path
      then "admin.product.contextPathRequired"
      else if not (valid_context_path p.context_path)
      then "admin.product.badContextPath"
      else if not (str_eq p.upstream_url "")
          && not (valid_upstream net p.upstream_url allow_private)
      then "admin.product.badUpstream"
      else if not (str_eq p.sandbox_upstream_url "")
          && not (valid_upstream net p.sandbox_upstream_url allow_private)
      then "admin.product.badSandboxUpstream"
      else if not (str_eq p.auth_type "")
          && not (str_eq p.auth_type "key-auth")
          && not (str_eq p.auth_type "oauth2")
      then "admin.product.badAuthType"
      else if not (str_eq p.lifecycle_status "")
          && not (str_eq p.lifecycle_status "active")
          && not (str_eq p.lifecycle_status "deprecated")
          && not (str_eq p.lifecycle_status "sunset")
      then "admin.product.badLifecycleStatus"
      else if bad_date parse_date p.sunset_date
      then "admin.product.badSunsetDate"
      else ""
