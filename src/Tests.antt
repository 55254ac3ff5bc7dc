-- ===== src/Tests.antt =====
-- A small portal on which the theorems are applied: one product with keys, one product of oauth2,
-- one plan, one application.
pub mod Provisioning
pub mod Revoking
mod Applications
mod Ledger
mod Names
pub mod RateLimit
mod Paging
mod Plans
mod Products
pub mod Teams
mod Settings
pub mod Auth
mod Access
mod Forging
mod Targets
mod Sealing
use Prim.Native.Char.{Char}
use Prim.Native.String
use apisix_developer_portal.Common.{
  ℕ, String, Bool, true, false, Option, some, none, List, [], ◌∷◌, ◌≡◌, ◌≢◌, refl, ltb, arith,
}
use apisix_developer_portal.Apisix.{Gateway}
use apisix_developer_portal.Crypto.{Cipher}
use apisix_developer_portal.Db.{ProductRow, PlanRow, ApplicationRow, Db, UserRow}
use apisix_developer_portal.Effects.{State}
use apisix_developer_portal.Subscriptions.Service.{Service}

unfoldable pub unseal : String → Option String
unseal (String.◌∷◌ a (String.◌∷◌ b (String.◌∷◌ c plain))) = some plain
unseal _ = none

abbrev pub label : String → String
label plain = String.◌∷◌ "v" (String.◌∷◌ "1" (String.◌∷◌ ":" plain))

pub unseal-label : (plain : String) → unseal (label plain) ≡ some plain
unfolding unseal
unseal-label plain = refl

pub label-ne-nil : (plain : String) → label plain ≢ ""
label-ne-nil plain e = cc

-- A cipher that only tags its text.
abbrev pub tagging : Cipher
tagging = record {
  encrypt = λ _ plain. label plain;
  decrypt = unseal;
  decrypt-encrypt = λ _ plain. unseal-label plain;
  encrypt-ne-nil = λ _ plain. label-ne-nil plain;
}

abbrev pub portal : Service
portal = record {
  cipher = tagging;
  collate = λ _ _. false;
  gen_key = λ n. "key";
  sandbox_gw = true;
  events = true;
  notifier = true;
  biller = true;
  oidc_conf = some (record { issuer = "https://idp"; claim = "azp" });
  sandbox_on = none;
}

abbrev pub weather : ProductRow
weather = record {
  id = 7;
  name = "Weather";
  slug = "weather";
  category = "geo";
  version = "1.0.0";
  context_path = "/weather";
  description = "";
  tags = [];
  icon = "";
  upstream_url = "echo:8080";
  sandbox_upstream_url = "sandbox:8080";
  published = true;
  auth_type = "key-auth";
  lifecycle_status = "active";
  sunset_date = none;
  openapi_spec = "";
}

abbrev pub maps : ProductRow
maps = record {
  id = 8;
  name = "Maps";
  slug = "maps";
  category = "geo";
  version = "1.0.0";
  context_path = "/maps";
  description = "";
  tags = [];
  icon = "";
  upstream_url = "maps:8080";
  sandbox_upstream_url = "";
  published = true;
  auth_type = "oauth2";
  lifecycle_status = "active";
  sunset_date = none;
  openapi_spec = "";
}

abbrev pub silver : PlanRow
silver = record {
  id = 2;
  name = "Silver";
  rate_limit_count = 300;
  rate_limit_window_s = 60;
  price_cents = 900;
  currency = "EUR";
}

abbrev pub shop : ApplicationRow
shop = record {
  id = 1;
  owner_id = 1;
  name = "Shop";
  description = "";
  created_at = 0;
  team_id = 4;
  oidc_client_id = "";
}

abbrev pub no_gateway : Gateway
no_gateway = record { consumers = λ _. none; routes = λ _. none }

abbrev pub ann : UserRow
ann = record {
  id = 1;
  email = "ann@geo";
  password_hash = "hash of sunshine";
  name = "Ann";
  role = "admin";
  language = "en";
  email_verified = true;
  verify_token_hash = none;
  verify_token_expires_at = none;
}

abbrev pub bob : UserRow
bob = record ann { id = 2; email = "bob@geo"; name = "Bob"; role = "developer" }

abbrev pub empty_db : Db
empty_db = record {
  products = weather ∷ maps ∷ [];
  plans = silver ∷ [];
  applications = shop ∷ [];
  credentials = [];
  subscriptions = [];
  events = [];
  accounts = [];
  invoices = [];
  icons = [];
  teams = record { id = 4; name = "Geo"; personal = false } ∷ [];
  members =
      record { team_id = 4; user_id = 1; role = "owner" }
      ∷ record { team_id = 4; user_id = 2; role = "member" }
      ∷ [];
  users = ann ∷ bob ∷ [];
  settings = [];
  settings_audit = [];
  next_user = 3;
  next_team = 5;
  next_application = 2;
  next_product = 9;
  next_plan = 3;
  next_subscription = 1;
  next_account = 1;
  next_invoice = 1;
  now = 0;
}

-- The portal before its first subscription.
abbrev pub opening : State
opening = record {
  db = empty_db;
  gw = no_gateway;
  sandbox_gw = no_gateway;
  notices = [];
  entropy = 0;
  snapshot = record { values = λ _. ""; source = λ _. "env" };
}
