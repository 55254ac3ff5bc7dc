-- ===== src/Settings/Service.antt =====
-- internal/settings/service.go: the stored overrides, the snapshot that the portal runs on, and how
-- an administrator changes both.
use apisix_developer_portal.Common.{
  ℕ, ◌+◌, String, Bool, true, false, ◌&&◌, not, Option, none, some, List, [], ◌∷◌, ◌++◌, map,
  str_eq, ◌==◌, if◌then◌else◌, any, is_empty, delete_where,
}
use apisix_developer_portal.Common.Texts.{text_lt}
use apisix_developer_portal.Crypto.{Cipher}
use apisix_developer_portal.Db.{SettingRow, AuditRow, UserRow}
use apisix_developer_portal.Effects.{
  unknown_key, read_only_key, field_errors, probe_error, failure, Result, ok, err, State, M, pure,
  lift, step, call, query, exec, ◌>>=◌, ◌>>◌,
}
use apisix_developer_portal.Settings.Snapshot.{Effective, get, is_on, smtp_configured, ProbeResult}
use apisix_developer_portal.Settings.Registry.{Def, Parsers, lookup, validate}

-- A function that OnChange registers. What it swaps is part of the state.
abbrev pub Hook : Type 0
Hook = Effective → State → State

-- A `map[string]string` of a request: its pairs in the order in which a range meets them, with
-- distinct keys.
abbrev pub Values : Type 0
Values = List (String × String)

-- `Service`. The prober's answer depends on the world, so on the state; `env` is `envValues` of the
-- configuration at boot.
pub record Service : Type 0 where
  pub cipher : Cipher
  pub parsers : Parsers
  pub prober : Option (Effective → List String → State → List ProbeResult)
  pub env : String → String
  pub hooks : List Hook

-- `OnChange`
unfoldable pub on_change : Hook → Service → Service
on_change h svc = record svc { hooks = svc.hooks ++ h ∷ [] }

-- What a map of overrides holds after an entry was put into it.
abbrev pub put : String → String → (String → Option String) → String → Option String
put key value out k = if str_eq k key then some value else out k

abbrev pub remove : String → (String → Option String) → String → Option String
remove key out k = if str_eq k key then none else out k

abbrev pub plain_value : Service → Def → String → Option String
plain_value svc d value = if d.secret then svc.cipher.decrypt value else some value

-- One round of the loop of `loadOverrides`: a row of an unknown key, or one that does not decrypt, is
-- skipped.
unfoldable pub row_value : Service → SettingRow → Option String
row_value svc r = elim (lookup r.key) [ none ↦ none | some d ↦ plain_value svc d r.value ]

abbrev pub put_row : String → Option String → (String → Option String) → String → Option String
put_row key none out = out
put_row key (some value) out = put key value out

-- The loop of `loadOverrides`, from the last row to the first. A key has one row.
unfoldable pub load_rows : Service → List SettingRow → String → Option String
load_rows svc [] = λ _. none
load_rows svc (r ∷ rows) = put_row r.key (row_value svc r) (load_rows svc rows)

-- `loadOverrides`
unfoldable pub load_overrides : Service → M (String → Option String)
load_overrides svc = query (λ d. ok (load_rows svc d.settings))

abbrev pub resolved : Option String → String → String
resolved (some value) other = value
resolved none other = other

abbrev pub origin : Option String → String
origin (some _) = "db"
origin none = "env"

abbrev pub is_known : String → Bool
is_known key = elim (lookup key) [ none ↦ false | some _ ↦ true ]

-- `build`: the loop over the registry fills in the keys of the registry.
unfoldable pub build : Service → (String → Option String) → Effective
build svc overrides = record {
  values = λ k. if is_known k then resolved (overrides k) (svc.env k) else "";
  source = λ k. if is_known k then origin (overrides k) else "";
}

-- `Snapshot`
unfoldable pub snapshot : M Effective
snapshot = step (λ s. (ok s.snapshot, s))

-- `NewService`
unfoldable pub start : Service → M (Unit {0})
start svc = do
  overrides ← load_overrides svc
  step (λ s. (ok tt, record s { snapshot = build svc overrides }))

-- `candidate`
unfoldable pub candidate : Values → Effective → Effective
candidate [] cur = cur
candidate ((key, value) ∷ values) cur =
    let e = candidate values cur in
    record {
      values = λ k. if str_eq k key then value else e.values k;
      source = λ k. if str_eq k key then "db" else e.source k;
    }

-- `sort.Strings`, on the keys with their values.
unfoldable pub insert_key : String × String → Values → Values
insert_key (k, v) [] = (k, v) ∷ []
insert_key (k, v) ((j, w) ∷ values) =
    let rest = insert_key (k, v) values in
    if text_lt j k then (j, w) ∷ rest else (k, v) ∷ (j, w) ∷ values

unfoldable pub sort_keys : Values → Values
sort_keys [] = []
sort_keys (kv ∷ values) = insert_key kv (sort_keys values)

abbrev pub note_error : String → Option String → Values → Values
note_error key none errors = errors
note_error key (some message) errors = errors ++ (key, message) ∷ []

-- The loop of `checkKeys`, with the field errors so far.
unfoldable pub check_sorted : Parsers → Values → Values → Result (Unit {0})
check_sorted p errors [] = if is_empty errors then ok tt else err (field_errors errors)
check_sorted p errors ((k, v) ∷ values) = elim (lookup k) [
  | none ↦ err (unknown_key k)
  | some d ↦
      let rest = check_sorted p (note_error k (validate p d v) errors) values in
      if d.editable then rest else err (read_only_key k)
]

-- `checkKeys`
unfoldable pub check_keys : Parsers → Values → Result (Unit {0})
check_keys p values = check_sorted p [] (sort_keys values)

-- `invariants`
unfoldable pub invariants : Effective → Result (Unit {0})
unfolding smtp_configured
invariants c =
    if is_on "REQUIRE_EMAIL_VERIFICATION" c && not (smtp_configured c)
    then err (
        field_errors
          (("REQUIRE_EMAIL_VERIFICATION", "requires SMTP_HOST and SMTP_FROM to be set") ∷ []))
    else ok tt

abbrev pub keys : Values → List String
keys values = map (λ (kv : String × String). kv.0) values

-- What the prober says of a candidate; without a prober nothing is probed.
unfoldable pub probe_with : Service → Effective → List String → M (List ProbeResult)
probe_with svc cand touched = elim svc.prober [
  | none ↦ pure []
  | some probe ↦ step (λ s. (ok (probe cand touched s), s))
]

-- The probes of `Set`: the first result that failed stops it.
unfoldable pub check_probes : Service → Effective → Values → Bool → M (Unit {0})
check_probes svc cand values force = if force then pure tt else (do
  results ← probe_with svc cand (keys values)
  if any (λ (r : ProbeResult). not r.passed) results
      then lift (err (probe_error results))
      else pure tt)

-- What the transaction of `Set` writes for one key.
pub record Change : Type 0 where
  pub key : String
  pub stored : String
  pub old_value : String
  pub new_value : String

abbrev pub is_secret : String → Bool
is_secret key = elim (lookup key) [ none ↦ false | some d ↦ d.secret ]

abbrev pub audited : String → String → String
audited key value = if is_secret key then "(secret)" else value

abbrev pub change : Effective → String → String → String → Change
change old key stored value = record {
  key = key;
  stored = stored;
  old_value = audited key (get key old);
  new_value = audited key value;
}

-- A secret is stored encrypted.
unfoldable pub sealed : Service → String → String → ℕ → String
sealed svc key value nonce = if is_secret key then svc.cipher.encrypt nonce value else value

unfoldable pub seal : Service → String → String → M String
seal svc key value =
    if is_secret key
    then call (λ s. (ok (sealed svc key value s.entropy), record s { entropy = s.entropy + 1 }))
    else pure value

-- The loop of `Set` up to its statements.
unfoldable pub seal_all : Service → Effective → Values → M (List Change)
seal_all svc old [] = pure []
seal_all svc old ((k, v) ∷ values) = do
  stored ← seal svc k v
  rest ← seal_all svc old values
  pure (change old k stored v ∷ rest)

-- `INSERT … ON CONFLICT (key) DO UPDATE`
unfoldable pub upsert_setting : SettingRow → List SettingRow → List SettingRow
upsert_setting row [] = row ∷ []
upsert_setting row (r ∷ rows) =
    let rest = upsert_setting row rows in if str_eq r.key row.key then row ∷ rows else r ∷ rest

abbrev pub audit : ℕ → Bool → Change → AuditRow
audit admin_id forced c = record {
  key = c.key;
  old_value = c.old_value;
  new_value = c.new_value;
  admin_id = admin_id;
  forced = forced;
}

unfoldable pub upsert_changes : ℕ → List Change → List SettingRow → List SettingRow
upsert_changes admin_id [] rows = rows
upsert_changes admin_id (c ∷ changes) rows =
    upsert_changes admin_id changes
      (upsert_setting (record { key = c.key; value = c.stored; updated_by = admin_id }) rows)

abbrev pub is_user : ℕ → UserRow → Bool
is_user id u = u.id == id

-- The transaction of `Set`; the administrator must be a user.
unfoldable pub store_changes : ℕ → Bool → List Change → M (Unit {0})
store_changes admin_id forced changes = exec λ d.
    if any (is_user admin_id) d.users
    then (
      ok tt,
      record d {
        settings = upsert_changes admin_id changes d.settings;
        settings_audit = map (audit admin_id forced) changes ++ d.settings_audit;
      },
    )
    else (err failure, d)

abbrev pub run_hooks : List Hook → Effective → State → State
run_hooks [] e s = s
run_hooks (h ∷ hooks) e s = run_hooks hooks e (h e s)

-- `s.snap.Store`, then the hooks.
unfoldable pub publish : Service → Effective → M (Unit {0})
publish svc e = step (λ s. (ok tt, run_hooks svc.hooks e (record s { snapshot = e })))

-- `Set` once the keys are checked.
unfoldable pub set_checked : Service → Values → ℕ → Bool → M (Unit {0})
set_checked svc values admin_id force = do
  old ← snapshot
  lift (invariants (candidate values old))
  check_probes svc (candidate values old) values force
  changes ← seal_all svc old values
  store_changes admin_id force changes
  publish svc (candidate values old)

-- `Set`
unfoldable pub set : Service → Values → ℕ → Bool → M (Unit {0})
set svc values admin_id force =
    if is_empty values
    then pure tt
    else (do lift (check_keys svc.parsers values); set_checked svc values admin_id force)

-- The guards of `Reset`.
unfoldable pub check_editable : String → Result (Unit {0})
check_editable key = elim (lookup key) [
  | none ↦ err (unknown_key key)
  | some d ↦ if d.editable then ok tt else err (read_only_key key)
]

-- The transaction of `Reset`.
unfoldable pub delete_setting : ℕ → Change → M (Unit {0})
delete_setting admin_id c = exec λ d.
    if any (is_user admin_id) d.users
    then (
      ok tt,
      record d {
        settings = delete_where (λ (r : SettingRow). str_eq r.key c.key) d.settings;
        settings_audit = audit admin_id false c ∷ d.settings_audit;
      },
    )
    else (err failure, d)

-- `Reset`
unfoldable pub reset : Service → String → ℕ → M (Unit {0})
reset svc key admin_id = do
  lift (check_editable key)
  overrides ← load_overrides svc
  lift (invariants (build svc (remove key overrides)))
  old ← snapshot
  delete_setting admin_id (change old key "" (svc.env key))
  publish svc (build svc (remove key overrides))
