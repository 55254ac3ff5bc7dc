-- ===== src/Config/Boot.antt =====
-- internal/config/config.go, `Validate`: what a boot takes from a configuration that passes.
use Prim.Native.String.{len}
use apisix_developer_portal.Common.{
  ℕ, ◌≤◌, String, Bool, true, false, ◌&&◌, ◌||◌, not, Option, none, some, ◌++◌, is_empty, ◌≡◌, refl,
  ap, ◌∙◌, str_eq, if◌then◌else◌, arith,
}
use apisix_developer_portal.Effects.{Error, ok, err}
use apisix_developer_portal.Settings.Snapshot.{Effective, is_on, smtp_configured as mail_ready}
use apisix_developer_portal.Settings.Registry.{lookup, registry}
use apisix_developer_portal.Settings.Service.{Service, build, invariants}
use apisix_developer_portal.Config.{
  Config, is_dev_like, uses_dev_secrets, smtp_configured, validate, Refusal, env_values, env_pairs,
  bad_secrets, named, has_32, flag,
}

-- What a configuration that is not of a development environment has to be.
pub record IsSafe (key_bytes : String → Option ℕ) (c : Config) : Type 0 where
  pub own_secrets : uses_dev_secrets c ≡ false
  pub long_secret : 32 ≤ len c.jwt_secret
  pub full_key : key_bytes c.credential_enc_key ≡ some 32

guard_passed :
    (b : Bool) (x : Refusal) (rest : Option Refusal)
    → (if b then some x else rest) ≡ none
    → (b ≡ false) × (rest ≡ none)
guard_passed true x rest h = cc
guard_passed false x rest h = (refl, h)

no_names :
    (a b c : Bool)
    → not (
        is_empty
          (named a "JWT_SECRET" ++ named b "APISIX_ADMIN_KEY" ++ named c "CREDENTIAL_ENC_KEY"))
      ≡ false
    → (a || b || c) ≡ false
no_names true b c h = cc
no_names false true c h = cc
no_names false false true h = cc
no_names false false false h = refl

not_dev :
    (rest : Option Refusal) (b : Bool) → b ≡ false → (if b then none else rest) ≡ none → rest ≡ none
not_dev rest true strict h = cc
not_dev rest false strict h = h

exactly_32 : (n : Option ℕ) (x : Refusal) → (if has_32 n then none else some x) ≡ none → n ≡ some 32
exactly_32 none x h = cc
exactly_32 (some n) x h = ground arith

flag_on : (b : Bool) → str_eq (flag b) "1" ≡ b
flag_on true = refl
flag_on false = refl

allowed : (b : Bool) (x : Error) → b ≡ false → (if b then err x else ok (tt {0})) ≡ ok tt
allowed true x h = cc
allowed false x h = refl

-- A configuration that passes, outside a development environment, uses none of the built-in secrets,
-- has a signing secret of at least 32 bytes and an encryption key of 32 bytes.
pub validate-IsSafe :
    (key_bytes : String → Option ℕ) (c : Config)
    → validate key_bytes c ≡ none
    → is_dev_like c ≡ false
    → IsSafe key_bytes c
unfolding validate bad_secrets uses_dev_secrets
validate-IsSafe key_bytes c passed strict =
    let mail = guard_passed _ _ _ passed in
    let names =
      guard_passed (not (is_empty (bad_secrets c))) _ _ (not_dev _ (is_dev_like c) strict mail.1) in
    let secret = guard_passed _ _ _ names.1 in
    record {
      own_secrets = no_names _ _ _ names.0;
      long_secret = ground arith;
      full_key = exactly_32 (key_bytes c.credential_enc_key) _ secret.1;
    }

-- If the configuration of the process passes its checks and the service takes its defaults from it,
-- the snapshot that a boot builds when nothing is stored keeps the rules between the settings.
pub boot-IsAllowed :
    (key_bytes : String → Option ℕ) (cfg : Config) (svc : Service)
    → validate key_bytes cfg ≡ none
    → svc.env ≡ env_values cfg
    → invariants (build svc (λ _. none)) ≡ ok tt
unfolding validate invariants build lookup registry env_values env_pairs smtp_configured mail_ready
boot-IsAllowed key_bytes cfg svc passed defaults =
    let mail = guard_passed _ _ _ passed in
    let switched : is_on "REQUIRE_EMAIL_VERIFICATION" e ≡ cfg.require_email_verification =
      ap (λ f. str_eq (f "REQUIRE_EMAIL_VERIFICATION") "1") defaults
      ∙ flag_on cfg.require_email_verification in
    let mail_server : mail_ready e ≡ smtp_configured cfg =
      ap (λ f. not (str_eq (f "SMTP_HOST") "") && not (str_eq (f "SMTP_FROM") "")) defaults in
    allowed _ _ ((λ i. switched i && not (mail_server i)) ∙ mail.0)
  where
    e : Effective
    e = build svc (λ _. none)
