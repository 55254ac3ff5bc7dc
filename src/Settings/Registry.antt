-- ===== src/Settings/Registry.antt =====
-- internal/settings/registry.go: every parameter of the portal, and the check of a value.
use apisix_developer_portal.Common.{
  String, Bool, true, false, ◌&&◌, ◌||◌, not, Option, none, some, List, [], ◌∷◌, str_eq, ltb,
  if◌then◌else◌, find,
}
use apisix_developer_portal.Common.Texts.{has_char, split, trim}
use apisix_developer_portal.Admin.Plans.Forms.{is_space}
use apisix_developer_portal.Paging.{Number, nonneg, atoi}

-- The constants of `Type`.
pub data FieldType : Type 0 where
  string bool port url email csv proxy_cidrs : FieldType

pub record Def : Type 0 where
  pub key : String
  pub group : String
  pub field_type : FieldType
  pub secret : Bool
  pub editable : Bool
  pub required : Bool

-- A literal of the registry that leaves the flags out.
abbrev fixed : String → String → FieldType → Def
fixed key group field_type = record {
  key = key;
  group = group;
  field_type = field_type;
  secret = false;
  editable = false;
  required = false;
}

abbrev editable : Def → Def
editable d = record d { editable = true }

abbrev required : Def → Def
required d = record d { editable = true; required = true }

abbrev secret : Def → Def
secret d = record d { secret = true }

unfoldable pub registry : List Def
registry =
    fixed "PORTAL_ADDR" "server" string
    ∷ fixed "PORTAL_ENV" "server" string
    ∷ secret (fixed "DATABASE_URL" "server" string)
    ∷ secret (fixed "JWT_SECRET" "server" string)
    ∷ secret (fixed "CREDENTIAL_ENC_KEY" "server" string)
    ∷ required (fixed "PORTAL_BASE_URL" "portal" url)
    ∷ required (fixed "ADMIN_EMAIL" "portal" email)
    ∷ editable (fixed "TRUSTED_PROXIES" "portal" proxy_cidrs)
    ∷ editable (fixed "UPSTREAM_ALLOW_PRIVATE" "portal" bool)
    ∷ required (fixed "APISIX_ADMIN_URL" "apisix" url)
    ∷ required (fixed "APISIX_GATEWAY_URL" "apisix" url)
    ∷ required (secret (fixed "APISIX_ADMIN_KEY" "apisix" string))
    ∷ editable (fixed "APISIX_SANDBOX_ADMIN_URL" "sandbox" url)
    ∷ editable (fixed "APISIX_SANDBOX_GATEWAY_URL" "sandbox" url)
    ∷ editable (secret (fixed "APISIX_SANDBOX_ADMIN_KEY" "sandbox" string))
    ∷ editable (fixed "SMTP_HOST" "smtp" string)
    ∷ editable (fixed "SMTP_PORT" "smtp" port)
    ∷ editable (fixed "SMTP_USERNAME" "smtp" string)
    ∷ editable (secret (fixed "SMTP_PASSWORD" "smtp" string))
    ∷ editable (fixed "SMTP_FROM" "smtp" email)
    ∷ editable (fixed "REQUIRE_EMAIL_VERIFICATION" "policy" bool)
    ∷ editable (fixed "OIDC_ISSUER" "oidc" url)
    ∷ editable (fixed "OIDC_CLIENT_ID_CLAIM" "oidc" string)
    ∷ editable (fixed "PROMETHEUS_URL" "observability" url)
    ∷ []

-- `Lookup`. The keys of the registry are distinct, so the map of it holds the entry of each.
unfoldable pub lookup : String → Option Def
lookup key = find (λ (d : Def). str_eq d.key key) registry

-- `net/url` and `net` as the checks use them: the scheme and the host of a text that parses, and
-- whether a text is a block of addresses.
pub record Parsers : Type 0 where
  pub parse_url : String → Option (String × String)
  pub parse_cidr : String → Bool

-- The loop of `httpx.ParseProxyCIDRs`; the piece that is no block is in the error.
unfoldable pub bad_block : Parsers → List String → Option String
bad_block p [] = none
bad_block p (part ∷ parts) =
    let rest = bad_block p parts in
    let text = trim is_space part in
    if str_eq text "" then rest else if p.parse_cidr text then rest else some text

-- The error of `httpx.ParseProxyCIDRs`.
unfoldable pub proxy_error : Parsers → String → Option String
unfolding bad_block
proxy_error p blocks =
    let text = trim is_space blocks in if str_eq text "" then none else bad_block p (split 44 text)

abbrev unless : Bool → String → Option String
unless c message = if c then none else some message

abbrev is_port : Option Number → Bool
is_port (some (nonneg n)) = ltb 0 n && ltb n 65536
is_port _ = false

abbrev is_http : Option (String × String) → Bool
is_http (some (scheme, host)) =
    (str_eq scheme "http" || str_eq scheme "https") && not (str_eq host "")
is_http none = false

-- `switch d.Type`
unfoldable pub validate_type : Parsers → FieldType → String → Option String
validate_type p bool value = unless (str_eq value "1") "must be \"1\" (on) or empty (off)"
validate_type p port value = unless (is_port (atoi value)) "must be a port between 1 and 65535"
validate_type p url value = unless (is_http (p.parse_url value)) "must be an http(s) URL"
validate_type p email value = unless (has_char 64 value) "must be an email address"
validate_type p proxy_cidrs value = proxy_error p value
validate_type p string value = none
validate_type p csv value = none

-- `Validate`: the message of a value that is refused.
unfoldable pub validate : Parsers → Def → String → Option String
unfolding validate_type
validate p d value =
    if str_eq value ""
    then (if d.required then some "required" else none)
    else validate_type p d.field_type value
