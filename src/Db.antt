-- ===== src/Db.antt =====
-- The tables of internal/db/migrations that the modelled services read and write, one record for a
-- row. A table is the list of its rows in the order of insertion. Only the columns that the
-- modelled queries touch are fields; ids and counts are numbers, nullable columns are options.
use apisix_developer_portal.Common.{ℕ, String, Bool, Option, List}

pub record ProductRow : Type 0 where
  pub id : ℕ
  pub name : String
  pub slug : String
  pub category : String
  pub version : String
  pub context_path : String
  pub description : String
  pub tags : List String
  pub icon : String
  pub upstream_url : String
  pub sandbox_upstream_url : String
  pub published : Bool
  pub auth_type : String
  pub lifecycle_status : String
  pub sunset_date : Option String
  pub openapi_spec : String

pub record PlanRow : Type 0 where
  pub id : ℕ
  pub name : String
  pub rate_limit_count : ℕ
  pub rate_limit_window_s : ℕ
  pub price_cents : ℕ
  pub currency : String

pub record ApplicationRow : Type 0 where
  pub id : ℕ
  pub owner_id : ℕ
  pub name : String
  pub description : String
  pub created_at : ℕ
  pub team_id : ℕ
  pub oidc_client_id : String

pub record CredentialRow : Type 0 where
  pub application_id : ℕ
  pub api_key : String
  pub consumer_username : String
  pub sandbox_api_key : String

pub record SubscriptionRow : Type 0 where
  pub id : ℕ
  pub application_id : ℕ
  pub api_product_id : ℕ
  pub plan_id : ℕ
  pub status : String
  pub created_at : ℕ

pub record EventRow : Type 0 where
  pub application_id : ℕ
  pub kind : String
  pub product_id : Option ℕ
  pub plan_id : Option ℕ

pub record AccountRow : Type 0 where
  pub id : ℕ
  pub team_id : ℕ

pub record InvoiceRow : Type 0 where
  pub id : ℕ
  pub billing_account_id : ℕ
  pub team_id : ℕ
  pub subscription_id : Option ℕ
  pub plan_name : String
  pub price_cents : ℕ
  pub currency : String
  pub status : String
  pub paid_at : Option ℕ

pub record TeamRow : Type 0 where
  pub id : ℕ
  pub name : String
  pub personal : Bool

pub record MemberRow : Type 0 where
  pub team_id : ℕ
  pub user_id : ℕ
  pub role : String

pub record UserRow : Type 0 where
  pub id : ℕ
  pub email : String
  pub password_hash : String
  pub name : String
  pub role : String
  pub language : String
  pub email_verified : Bool
  pub verify_token_hash : Option String
  pub verify_token_expires_at : Option ℕ

-- portal_settings
pub record SettingRow : Type 0 where
  pub key : String
  pub value : String
  pub updated_by : ℕ

-- portal_settings_audit
pub record AuditRow : Type 0 where
  pub key : String
  pub old_value : String
  pub new_value : String
  pub admin_id : ℕ
  pub forced : Bool

-- `icons` has the ids of the products in product_icons. `next_application`, `next_product`, `next_plan`, `next_subscription`, `next_account` and `next_invoice` are the sequences behind BIGSERIAL ids, and
-- `now` is the clock of `now()`.
pub record Db : Type 0 where
  pub products : List ProductRow
  pub plans : List PlanRow
  pub applications : List ApplicationRow
  pub credentials : List CredentialRow
  pub subscriptions : List SubscriptionRow
  pub events : List EventRow
  pub accounts : List AccountRow
  pub invoices : List InvoiceRow
  pub icons : List ℕ
  pub teams : List TeamRow
  pub members : List MemberRow
  pub users : List UserRow
  pub settings : List SettingRow
  pub settings_audit : List AuditRow
  pub next_user : ℕ
  pub next_team : ℕ
  pub next_application : ℕ
  pub next_product : ℕ
  pub next_plan : ℕ
  pub next_subscription : ℕ
  pub next_account : ℕ
  pub next_invoice : ℕ
  pub now : ℕ
