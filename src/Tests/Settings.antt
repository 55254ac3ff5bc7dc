-- ===== src/Tests/Settings.antt =====
-- An administrator sets up the mail server, and takes it back.
use mathlib.Core.List.Memᴰ.{head, tail}
use apisix_developer_portal.Common.{
  ℕ, String, Bool, true, false, Option, none, some, [], ◌∷◌, Memᴰ, ◌≡◌, refl, str_eq, if◌then◌else◌,
  ◌&&◌, not, any, any-false,
}
use apisix_developer_portal.Common.Texts.{trim, trim_left, trim_right, to_lower}
use apisix_developer_portal.Paging.{atoi}
use apisix_developer_portal.Effects.{
  State, Run, ok, err, field_errors, read_only_key, call, pure, lift, step, ◌>>=◌,
}
use apisix_developer_portal.Config.{
  Config, load, get_env, validate, env_values, bad_secrets, is_dev_like, smtp_configured,
}
use apisix_developer_portal.Config.Boot.{validate-IsSafe, boot-IsAllowed, IsSafe}
use apisix_developer_portal.Settings.Snapshot.{Effective, smtp_configured as mail_ready}
use apisix_developer_portal.Settings.Registry.{
  Def, Parsers, registry, lookup, validate as check_value, validate_type,
}
use apisix_developer_portal.Settings.Service.{
  Service, Hook, Values, load_rows, row_value, build, set, set_checked, reset, snapshot, candidate,
  invariants, check_keys, sort_keys, insert_key, check_sorted, check_probes, probe_with, sealed,
  seal, seal_all, upsert_setting, upsert_changes, store_changes, publish, load_overrides,
  check_editable, delete_setting,
}
use apisix_developer_portal.Settings.Restarting.{
  IsQuiet, IsCurrent, set-IsCurrent, reset_reconciles,
}
use apisix_developer_portal.Settings.Policy.{edit, setting, IsAllowed, edit-IsAllowed}
use apisix_developer_portal.Settings.Secrets.{IsGuarded, edit-IsGuarded}
use apisix_developer_portal.Settings.Handler.{list}
use apisix_developer_portal.Settings.Listing.{SamePublic, list_hides_secrets}
use apisix_developer_portal.Tests.{tagging, opening, no_gateway}

-- A development environment in which nothing is set.
abbrev development : String → String
development key = ""

abbrev parsers : Parsers
parsers = record { parse_url = λ u. some ("https", u); parse_cidr = λ b. true }

-- The new gateway client of a configuration.
abbrev swap_sandbox : Hook
swap_sandbox e s = record s { sandbox_gw = no_gateway }

abbrev desk : Service
desk = record {
  cipher = tagging;
  parsers = parsers;
  prober = none;
  env = development;
  hooks = swap_sandbox ∷ [];
}

hooks-IsQuiet : IsQuiet desk.hooks
hooks-IsQuiet = record { rows = same_rows; trail = same_trail; kept = same_snapshot }
  where
    same_rows :
        (h : Hook)
        → Memᴰ h (swap_sandbox ∷ [])
        → (e : Effective) (s : State) → (h e s).db.settings ≡ s.db.settings
    same_rows h (head p) e s = rw p refl
    same_rows h (tail there) e s = elim there [ ]

    same_trail :
        (h : Hook)
        → Memᴰ h (swap_sandbox ∷ [])
        → (e : Effective) (s : State) → (h e s).db.settings_audit ≡ s.db.settings_audit
    same_trail h (head p) e s = rw p refl
    same_trail h (tail there) e s = elim there [ ]

    same_snapshot :
        (h : Hook)
        → Memᴰ h (swap_sandbox ∷ [])
        → (e : Effective) (s : State) → (h e s).snapshot ≡ s.snapshot
    same_snapshot h (head p) e s = rw p refl
    same_snapshot h (tail there) e s = elim there [ ]

abbrev at_boot : Run
at_boot = record { state = record opening { snapshot = build desk (λ _. none) }; faults = [] }

at_boot-IsCurrent : IsCurrent desk at_boot.state
unfolding load_rows
at_boot-IsCurrent = refl

abbrev mail : Values
mail = ("SMTP_PASSWORD", "pw") ∷ ("SMTP_HOST", "mail.geo") ∷ []

mail_set : (set desk mail 1 false at_boot).0 ≡ ok tt
unfolding set set_checked ◌>>=◌ lift check_keys check_sorted sort_keys insert_key lookup registry
    check_value validate_type snapshot step invariants candidate build check_probes probe_with call
    pure publish seal seal_all sealed store_changes upsert_changes upsert_setting mail_ready
mail_set = refl

set-IsCurrent_example : IsCurrent desk (set desk mail 1 false at_boot).1.state
set-IsCurrent_example =
    set-IsCurrent desk hooks-IsQuiet mail 1 false at_boot (refl, (refl, tt)) at_boot-IsCurrent
      mail_set

port_refused :
    (set desk
      (("SMTP_PORT", "65536") ∷ ("REQUIRE_EMAIL_VERIFICATION", "yes") ∷ [])
      1
      true
      at_boot).0
    ≡ err (
        field_errors (
          ("REQUIRE_EMAIL_VERIFICATION", "must be \"1\" (on) or empty (off)")
          ∷ ("SMTP_PORT", "must be a port between 1 and 65535")
          ∷ []))
unfolding set ◌>>=◌ lift check_keys check_sorted sort_keys insert_key lookup registry check_value
    validate_type atoi
port_refused = refl

fixed_refused :
    (set desk (("JWT_SECRET", "mine") ∷ []) 1 true at_boot).0 ≡ err (read_only_key "JWT_SECRET")
unfolding set ◌>>=◌ lift check_keys check_sorted sort_keys insert_key lookup registry
fixed_refused = refl

policy_refused :
    (set desk (("REQUIRE_EMAIL_VERIFICATION", "1") ∷ []) 1 true at_boot).0
    ≡ err (
        field_errors
          (("REQUIRE_EMAIL_VERIFICATION", "requires SMTP_HOST and SMTP_FROM to be set") ∷ []))
unfolding set set_checked ◌>>=◌ lift check_keys check_sorted sort_keys insert_key lookup registry
    check_value validate_type snapshot step invariants candidate build mail_ready
policy_refused = refl

host_reset : (reset desk "SMTP_HOST" 1 (record { state = opening; faults = [] })).0 ≡ ok tt
unfolding reset ◌>>=◌ lift check_editable lookup registry load_overrides load_rows row_value
    snapshot step invariants build call publish delete_setting mail_ready
host_reset = refl

reset_reconciles_example :
    IsCurrent desk (reset desk "SMTP_HOST" 1 (record { state = opening; faults = [] })).1.state
reset_reconciles_example =
    reset_reconciles desk hooks-IsQuiet "SMTP_HOST" 1 (record { state = opening; faults = [] })
      host_reset

at_boot-IsAllowed : IsAllowed at_boot.state
unfolding invariants build lookup registry mail_ready
at_boot-IsAllowed = refl

edit-IsAllowed_example : IsAllowed (edit desk (setting mail 1 true) at_boot).1.state
edit-IsAllowed_example =
    edit-IsAllowed desk hooks-IsQuiet (setting mail 1 true) at_boot at_boot-IsAllowed

nothing_stored : IsGuarded desk [] []
nothing_stored = record {
  hidden = λ r there. elim there [ ];
  allowed = λ r there. elim there [ ];
  masked = λ a there. elim there [ ];
}

edit-IsGuarded_example :
    (let d = (edit desk (setting mail 1 true) at_boot).1.state.db in
      IsGuarded desk d.settings d.settings_audit)
edit-IsGuarded_example =
    edit-IsGuarded desk hooks-IsQuiet (setting mail 1 true) at_boot nothing_stored

-- Two portals with different signing secrets.
abbrev signing : String → Run
signing secret = record {
  state = record opening {
    snapshot = record {
      values = λ k. if str_eq k "JWT_SECRET" then secret else "";
      source = λ k. "env";
    };
  };
  faults = [];
}

abbrev shows_signing : Def → Bool
shows_signing d = not d.secret && str_eq d.key "JWT_SECRET"

signing_hidden : any shows_signing registry ≡ false
unfolding registry
signing_hidden = refl

signing-SamePublic : SamePublic (signing "one").state.snapshot (signing "two").state.snapshot
signing-SamePublic = record {
  open_values = λ d there shown.
      let hidden = any-false shows_signing registry signing_hidden there in
      same_open d.secret (str_eq d.key "JWT_SECRET") shown hidden;
  set_alike = λ d there hidden. alike (str_eq d.key "JWT_SECRET");
  sources = λ d there. refl;
}
  where
    same_open :
        (secret named : Bool)
        → secret ≡ false
        → (not secret && named) ≡ false
        → ◌≡◌ {A = String} (if named then "one" else "") (if named then "two" else "")
    same_open true named shown hidden = cc
    same_open false true shown hidden = cc
    same_open false false shown hidden = refl

    alike :
        (named : Bool)
        → not (str_eq (if named then "one" else "") "")
          ≡ not (str_eq (if named then "two" else "") "")
    alike true = refl
    alike false = refl

list_hides_secrets_example : (list desk (signing "one")).0 ≡ (list desk (signing "two")).0
list_hides_secrets_example =
    list_hides_secrets desk desk (signing "one") (signing "two")
      (record { open_defaults = λ d there shown. refl }) signing-SamePublic

-- A production configuration with secrets of its own.
abbrev production : Config
production = record (load development) {
  env = "production";
  jwt_secret = "0123456789abcdef0123456789abcdef";
  apisix_admin_key = "0123456789abcdef";
  credential_enc_key = "MDEyMzQ1Njc4OWFiY2RlZjAxMjM0NTY3ODlhYmNkZWY=";
}

abbrev always_32 : String → Option ℕ
always_32 key = some 32

production_passes : validate always_32 production ≡ none
unfolding validate bad_secrets is_dev_like smtp_configured load get_env trim trim_left trim_right
    to_lower
production_passes = refl

production_strict : is_dev_like production ≡ false
unfolding is_dev_like trim trim_left trim_right to_lower
production_strict = refl

validate-IsSafe_example : IsSafe always_32 production
validate-IsSafe_example = validate-IsSafe always_32 production production_passes production_strict

abbrev office : Service
office = record desk { env = env_values production }

boot-IsAllowed_example : invariants (build office (λ _. none)) ≡ ok tt
boot-IsAllowed_example = boot-IsAllowed always_32 production office production_passes refl
