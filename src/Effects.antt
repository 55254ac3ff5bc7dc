-- ===== src/Effects.antt =====
-- How the services run: the state of the portal and of its two gateways, the error results, and
-- calls of the database and the gateway that may fail. A Go function that returns `(A, error)` is an
-- action of type `M A`; what was written before an error stays written.
pub mod Triple
pub mod Preserves
use apisix_developer_portal.Common.{ℕ, ◌+◌, String, List, [], ◌∷◌}
use apisix_developer_portal.Apisix.{Gateway}
use apisix_developer_portal.Db.{Db}
use apisix_developer_portal.Settings.Snapshot.{Effective, ProbeResult}

-- The error values that callers tell apart (`errors.Is`); `failure` stands for every other one.
pub data Error : Type 0 where
  not_found already_subscribed product_deprecated invalid_transition : Error
  no_credential no_active_subscription sandbox_not_configured invalid_client_id : Error
  no_sandbox_eligible_subscription no_sandbox_key : Error
  invoice_not_found invoice_invalid_transition : Error
  plan_not_found plan_name_taken plan_in_use : Error
  team_not_found personal_team user_not_found already_member last_owner team_has_apps : Error
  product_not_found slug_taken context_path_taken has_subscriptions oauth_migration_blocked : Error
  email_taken account_not_found token_invalid already_verified : Error
  unknown_key read_only_key : String → Error
  field_errors : List (String × String) → Error
  probe_error : List ProbeResult → Error
  failure : Error

pub data Result {ℓ} (A : Type ℓ) : Type ℓ where
  ok : A → Result A
  err : Error → Result A

-- The emails handed to the notifier and to the sender of verification links: language, address,
-- name, link.
pub data Notice : Type 0 where
  subscription_requested : ℕ → ℕ → ℕ → Notice
  subscription_approved : ℕ → ℕ → ℕ → Notice
  subscription_rejected : ℕ → ℕ → Notice
  verification : String → String → String → String → Notice

-- `entropy` counts the random values drawn so far, and `snapshot` is the configuration in memory.
pub record State : Type 0 where
  pub db : Db
  pub gw : Gateway
  pub sandbox_gw : Gateway
  pub notices : List Notice
  pub entropy : ℕ
  pub snapshot : Effective

-- What happens to a call: it is answered, it fails before it has an effect, or it takes effect and
-- its answer is lost.
pub data Fault : Type 0 where
  clean refused lost : Fault

-- A run carries the faults of the calls to come; past the end of the list calls are answered.
pub record Run : Type 0 where
  pub state : State
  pub faults : List Fault

abbrev pub M {ℓ} : Type ℓ → Type ℓ
M A = Run → Result A × Run

module _ {ℓ} {A : Type ℓ} where
  unfoldable pub pure : A → M A
  pure a r = (ok a, r)

  unfoldable pub raise : Error → M A
  raise e r = (err e, r)

  unfoldable pub lift : Result A → M A
  lift x r = (x, r)

  -- A result as a value, for code that looks at the error.
  unfoldable pub try : M A → M (Result A)
  try m r = let (x, r') = m r in (ok x, r')

  -- An operation of the program's own, with no call of another system.
  unfoldable pub step : (State → Result A × State) → M A
  step op r = let (x, s) = op r.state in (x, record { state = s; faults = r.faults })

  faulty : Fault → List Fault → (State → Result A × State) → State → Result A × Run
  faulty clean fs op s = let (x, s') = op s in (x, record { state = s'; faults = fs })
  faulty refused fs op s = (err failure, record { state = s; faults = fs })
  faulty lost fs op s = (err failure, record { state = (op s).1; faults = fs })

  call_under : List Fault → (State → Result A × State) → State → Result A × Run
  call_under [] op s = faulty clean [] op s
  call_under (f ∷ fs) op s = faulty f fs op s

  -- A call of the database or of a gateway.
  unfoldable pub call : (State → Result A × State) → M A
  unfolding call_under faulty
  call op r = call_under r.faults op r.state

  -- A query reads the database; an update returns the new one too.
  abbrev pub query : (Db → Result A) → M A
  query f = call (λ s. (f s.db, s))

  abbrev pub exec : (Db → Result A × Db) → M A
  exec f = call (λ s. let (x, d) = f s.db in (x, record s { db = d }))

module _ {ℓ κ} {A : Type ℓ} {B : Type κ} where
  abbrev pub continue : Result A × Run → (A → M B) → Result B × Run
  continue (ok a, r) f = f a r
  continue (err e, r) f = (err e, r)

  infixl 5 ◌>>=◌ ◌>>◌
  unfoldable pub ◌>>=◌ : M A → (A → M B) → M B
  ◌>>=◌ m f r = continue (m r) f

  abbrev pub ◌>>◌ : M A → M B → M B
  m >> n = m >>= λ _. n
