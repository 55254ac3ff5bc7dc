-- ===== src/Settings/Handler.antt =====
-- internal/settings/handler.go: the requests of the settings page. The body of a request is what
-- encoding/json decodes it to; without a value it does not decode.
use Prim.Native.String
use apisix_developer_portal.Common.{
  ℕ, String, Bool, false, Option, none, some, List, [], ◌∷◌, ◌++◌, length, str_eq, if◌then◌else◌,
  is_empty,
}
use apisix_developer_portal.Common.Decimal.{format_int}
use apisix_developer_portal.Effects.{
  Error, unknown_key, read_only_key, field_errors, probe_error, Result, ok, err, M, pure, try,
  ◌>>=◌,
}
use apisix_developer_portal.Httpx.Respond.{Reply, refusal, json, header}
use apisix_developer_portal.Settings.Snapshot.{Effective, ProbeResult, get, is_set}
use apisix_developer_portal.Settings.Registry.{Def, FieldType, registry, lookup}
use apisix_developer_portal.Settings.Service.{
  Service, Values, snapshot, candidate, check_keys, keys, probe_with, set, reset,
}

pub record ItemView : Type 0 where
  pub key : String
  pub field_type : FieldType
  pub editable : Bool
  pub secret : Bool
  pub value : Option String
  pub set : Bool
  pub source : String
  pub env_default : Option String

pub record GroupView : Type 0 where
  pub group : String
  pub items : List ItemView

-- The item of a definition in the loop of `list`.
unfoldable pub item_view : Service → Effective → Def → ItemView
item_view svc e d = record {
  key = d.key;
  field_type = d.field_type;
  editable = d.editable;
  secret = d.secret;
  value = if d.secret then none else some (get d.key e);
  set = is_set d.key e;
  source = e.source d.key;
  env_default = if d.secret then none else some (svc.env d.key);
}

-- `groups[gi].Items = append(…)`, with a new group at the end where there is none of the name.
unfoldable pub add_item : String → ItemView → List GroupView → List GroupView
add_item name item [] = record { group = name; items = item ∷ [] } ∷ []
add_item name item (g ∷ groups) =
    let rest = add_item name item groups in
    if str_eq g.group name then record g { items = g.items ++ item ∷ [] } ∷ groups else g ∷ rest

-- The loop of `list`.
unfoldable pub add_items : Service → Effective → List Def → List GroupView → List GroupView
add_items svc e [] groups = groups
add_items svc e (d ∷ defs) groups =
    add_items svc e defs (add_item d.group (item_view svc e d) groups)

unfoldable pub list : Service → M (Reply (List GroupView))
list svc = do e ← snapshot; pure (json 200 (add_items svc e registry []))

pub record PutBody : Type 0 where
  pub values : Values
  pub force : Bool

-- The bodies of the answers to a change.
pub data Outcome : Type 0 where
  fields : List (String × String) → Outcome
  probes : List ProbeResult → Outcome

-- `respond`
unfoldable pub respond : Result (Unit {0}) → Reply Outcome
respond (ok _) = header 204
respond (err (unknown_key k)) = refusal 400 "settings.badKey"
respond (err (read_only_key k)) = refusal 400 "settings.badKey"
respond (err (field_errors errors)) = json 422 (fields errors)
respond (err (probe_error results)) = json 422 (probes results)
respond (err e) = refusal 500 "settings.saveFailed"

unfoldable pub put : Service → ℕ → Option PutBody → M (Reply Outcome)
put svc admin_id none = pure (refusal 400 "common.invalidBody")
put svc admin_id (some body) =
    if is_empty body.values
    then pure (refusal 400 "common.invalidBody")
    else (do answer ← try (set svc body.values admin_id body.force); pure (respond answer))

-- The `reset` of the handler.
unfoldable pub reset_key : Service → ℕ → String → M (Reply Outcome)
reset_key svc admin_id key = elim (lookup key) [
  | none ↦ pure (refusal 404 "common.notFound")
  | some d ↦ do answer ← try (reset svc key admin_id); pure (respond answer)
]

-- `Error` of the errors of `checkKeys`.
unfoldable pub error_text : Error → String
error_text (unknown_key k) = String.◌++◌ "settings: unknown key: " k
error_text (read_only_key k) = String.◌++◌ "settings: read-only key: " k
error_text (field_errors errors) =
    String.◌++◌ "settings: " (String.◌++◌ (format_int (length errors)) " invalid field(s)")
error_text e = "settings: probe failed"

-- `Test` of the service, without its line in the log.
unfoldable pub test_values : Service → Values → M (List ProbeResult)
test_values svc values = elim (check_keys svc.parsers values) [
  | err e ↦ pure (record { name = "validation"; passed = false; detail = error_text e } ∷ [])
  | ok _ ↦ do cur ← snapshot; probe_with svc (candidate values cur) (keys values)
]

unfoldable pub test : Service → Option PutBody → M (Reply (List ProbeResult))
test svc none = pure (refusal 400 "common.invalidBody")
test svc (some body) = do results ← test_values svc body.values; pure (json 200 results)
