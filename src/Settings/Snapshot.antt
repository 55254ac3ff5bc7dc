-- ===== src/Settings/Snapshot.antt =====
-- internal/settings/service.go: a snapshot of the configuration. Go's maps of the snapshot are
-- functions; a key that a map does not hold reads as the empty text.
use apisix_developer_portal.Common.{String, Bool, ◌&&◌, not, str_eq}

pub record Effective : Type 0 where
  pub values : String → String
  pub source : String → String

abbrev pub get : String → Effective → String
get key e = e.values key

-- `Bool`
abbrev pub is_on : String → Effective → Bool
is_on key e = str_eq (get key e) "1"

abbrev pub is_set : String → Effective → Bool
is_set key e = not (str_eq (get key e) "")

unfoldable pub smtp_configured : Effective → Bool
smtp_configured e = is_set "SMTP_HOST" e && is_set "SMTP_FROM" e

unfoldable pub sandbox_configured : Effective → Bool
sandbox_configured e = is_set "APISIX_SANDBOX_ADMIN_URL" e && is_set "APISIX_SANDBOX_GATEWAY_URL" e

pub record ProbeResult : Type 0 where
  pub name : String
  pub passed : Bool
  pub detail : String
