-- ===== src/Subscriptions/Service.antt =====
-- internal/subscriptions/service.go: the service's configuration, its best-effort side effects, and
-- the calls of the two gateways.
pub mod Routes
pub mod Lifecycle
pub mod Approval
pub mod Keys
use apisix_developer_portal.Common.{
  ℕ, ◌+◌, String, Bool, true, false, ◌&&◌, not, Option, none, some, List, [], ◌∷◌, ◌++◌, str_eq,
  ◌==◌, if◌then◌else◌, any,
}
use apisix_developer_portal.Apisix.{Gateway, RateLimit}
use apisix_developer_portal.Crypto.{Cipher}
use apisix_developer_portal.Db.{ApplicationRow, EventRow}
use apisix_developer_portal.Effects.{
  failure, Result, ok, err, Notice, State, M, pure, try, step, call, exec, ◌>>=◌, ◌>>◌,
}
use apisix_developer_portal.Subscriptions.Model.{Credential}

pub record OidcConf : Type 0 where
  pub issuer : String
  pub claim : String

-- `Service`: what is wired into it. `events`, `notifier`, `biller` and `sandbox_gw` say whether the
-- pointer is set, `oidc_conf` is the value last stored, and `sandbox_on` the answer of the check that
-- `SetSandboxEnabledFn` wires in. `gen_key` yields the key for a count of random values drawn.
pub record Service : Type 0 where
  pub cipher : Cipher
  pub collate : String → String → Bool
  pub gen_key : ℕ → String
  pub sandbox_gw : Bool
  pub events : Bool
  pub notifier : Bool
  pub biller : Bool
  pub oidc_conf : Option OidcConf
  pub sandbox_on : Option Bool

unfoldable pub configure_oidc : String → String → Service → Service
configure_oidc issuer claim svc = record svc {
  oidc_conf = some (record { issuer = issuer; claim = claim });
}

unfoldable pub oidc : Service → OidcConf
oidc svc = elim svc.oidc_conf [ none ↦ record { issuer = ""; claim = "" } | some c ↦ c ]

unfoldable pub sandbox_enabled : Service → Bool
sandbox_enabled svc = elim svc.sandbox_on [ some on ↦ on | none ↦ svc.sandbox_gw ]

-- A fresh key; `GenerateKey` panics where the random source fails, and never returns an error.
unfoldable pub new_key : Service → M String
new_key svc = step (λ s. (ok (svc.gen_key s.entropy), record s { entropy = s.entropy + 1 }))

-- `events.Repo.Log`: the row's application must exist.
unfoldable pub log : EventRow → M (Unit {0})
log e = exec λ d.
    if any (λ (a : ApplicationRow). a.id == e.application_id) d.applications
    then (ok tt, record d { events = e ∷ d.events })
    else (err failure, d)

-- An error of the log is dropped.
unfoldable pub log_event : Service → ℕ → String → Option ℕ → Option ℕ → M (Unit {0})
unfolding log
log_event svc app_id kind product_id plan_id =
    if svc.events
    then (do
      try (
          log (record {
            application_id = app_id;
            kind = kind;
            product_id = product_id;
            plan_id = plan_id;
          }))
      pure tt)
    else pure tt

-- A notice is handed over without waiting, and nothing comes back.
unfoldable pub notify : Service → Notice → M (Unit {0})
notify svc n =
    if svc.notifier then step (λ s. (ok tt, record s { notices = n ∷ s.notices })) else pure tt

unfoldable pub on_gateway : (Gateway → Gateway) → M (Unit {0})
on_gateway change = call (λ s. (ok tt, record s { gw = change s.gw }))

unfoldable pub on_sandbox : (Gateway → Gateway) → M (Unit {0})
on_sandbox change = call (λ s. (ok tt, record s { sandbox_gw = change s.sandbox_gw }))

-- `dedup`: the seen names as a list.
dedup_from : List String → List String → List String
dedup_from seen [] = []
dedup_from seen (x ∷ xs) =
    let skipped = dedup_from seen xs in
    let kept = x ∷ dedup_from (x ∷ seen) xs in
    if str_eq x "" then skipped else if any (str_eq x) seen then skipped else kept

unfoldable pub dedup : List String → List String
unfolding dedup_from
dedup ss = dedup_from [] ss

-- The loop that appends the extra consumers which the list does not have.
unfoldable pub add_missing : List String → List String → List String
add_missing allowed [] = allowed
add_missing allowed (e ∷ es) =
    add_missing (if any (λ a. str_eq a e) allowed then allowed else allowed ++ e ∷ []) es

-- The loop that appends the extra client ids which are not empty.
unfoldable pub add_non_empty : List String → List String → List String
add_non_empty allowed [] = allowed
add_non_empty allowed (e ∷ es) =
    add_non_empty (if not (str_eq e "") then allowed ++ e ∷ [] else allowed) es
