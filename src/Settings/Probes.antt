-- ===== src/Settings/Probes.antt =====
-- internal/settings/probe.go: which checks of a candidate configuration are made. The calls over the
-- network are parameters.
use apisix_developer_portal.Common.{
  String, Bool, true, false, Option, none, some, List, [], ◌∷◌, ◌++◌, str_eq, if◌then◌else◌, any,
}
use apisix_developer_portal.Settings.Snapshot.{
  Effective, ProbeResult, get, is_set, sandbox_configured,
}
use apisix_developer_portal.Settings.Registry.{Def, lookup}

-- `LiveProber`: the answers of the admin API at an address with a key, and of a mail server.
pub record LiveProber : Type 0 where
  pub apisix : String → String → String → ProbeResult
  pub smtp : String → String → ProbeResult

abbrev in_group : String → Option Def → Bool
in_group group none = false
in_group group (some d) = str_eq d.group group

unfoldable pub group_touched : List String → String → Bool
group_touched touched group = any (λ key. in_group group (lookup key)) touched

abbrev skipped : String → String → ProbeResult
skipped name detail = record { name = name; passed = true; detail = detail }

abbrev only : Bool → ProbeResult → List ProbeResult
only c result = if c then result ∷ [] else []

unfoldable pub probe : LiveProber → Effective → List String → List ProbeResult
unfolding group_touched sandbox_configured
probe p c touched =
    only (group_touched touched "apisix")
      (p.apisix "apisix" (get "APISIX_ADMIN_URL" c) (get "APISIX_ADMIN_KEY" c))
    ++ only (group_touched touched "sandbox") (
        if sandbox_configured c
        then p.apisix "sandbox" (get "APISIX_SANDBOX_ADMIN_URL" c)
            (get "APISIX_SANDBOX_ADMIN_KEY" c)
        else skipped "sandbox" "sandbox not configured — skipped")
    ++ only (group_touched touched "smtp") (
        if is_set "SMTP_HOST" c
        then p.smtp (get "SMTP_HOST" c) (get "SMTP_PORT" c)
        else skipped "smtp" "SMTP not configured — skipped")
