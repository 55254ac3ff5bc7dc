-- ===== src/Auth/Repo.antt =====
-- internal/auth/repo.go: the queries of the table of users. A registration also makes the user's
-- personal team, in one transaction.
use apisix_developer_portal.Common.{
  ℕ, ◌+◌, String, Bool, true, false, ◌&&◌, not, Option, none, some, ◌∷◌, str_eq, ◌==◌, ltb,
  if◌then◌else◌, find, any, update_where,
}
use apisix_developer_portal.Db.{UserRow, TeamRow}
use apisix_developer_portal.Effects.{
  email_taken, account_not_found, token_invalid, already_verified, not_found, ok, err, M, pure,
  raise, query, exec, ◌>>=◌,
}

pub record User : Type 0 where
  pub id : ℕ
  pub email : String
  pub name : String
  pub role : String
  pub language : String
  pub verified : Bool

-- The columns that the queries return.
abbrev pub view : UserRow → User
view u = record {
  id = u.id;
  email = u.email;
  name = u.name;
  role = u.role;
  language = u.language;
  verified = u.email_verified;
}

abbrev pub has_email : String → UserRow → Bool
has_email email u = str_eq u.email email

abbrev pub has_id : ℕ → UserRow → Bool
has_id id u = u.id == id

abbrev pub token_hash : Option (String × ℕ) → Option String
token_hash none = none
token_hash (some (hash, _)) = some hash

abbrev pub token_expiry : Option (String × ℕ) → Option ℕ
token_expiry none = none
token_expiry (some (_, expires_at)) = some expires_at

abbrev pub is_absent : Option (String × ℕ) → Bool
is_absent none = true
is_absent (some _) = false

-- The row that `create` inserts; a user with a token has yet to verify the address.
unfoldable pub new_user : ℕ → String → String → String → String → Option (String × ℕ) → UserRow
new_user id email password_hash name lang token = record {
  id = id;
  email = email;
  password_hash = password_hash;
  name = name;
  role = "developer";
  language = lang;
  email_verified = is_absent token;
  verify_token_hash = token_hash token;
  verify_token_expires_at = token_expiry token;
}

-- `create`: the transaction.
unfoldable pub create_account : String → String → String → String → Option (String × ℕ) → M User
unfolding new_user
create_account email password_hash name lang token = exec λ d.
    if any (has_email email) d.users
    then (err email_taken, d)
    else (let u = new_user d.next_user email password_hash name lang token in
        let team : TeamRow = record {
          id = d.next_team;
          name = if str_eq name "" then email else name;
          personal = true;
        } in
        (
          ok (view u),
          record d {
            users = u ∷ d.users;
            next_user = d.next_user + 1;
            teams = team ∷ d.teams;
            members =
                record { team_id = d.next_team; user_id = d.next_user; role = "owner" } ∷ d.members;
            next_team = d.next_team + 1;
          },
        ))

-- `Create`
abbrev pub create : String → String → String → String → M User
create email password_hash name lang = create_account email password_hash name lang none

-- `CreateUnverified`
abbrev pub create_unverified : String → String → String → String → String → ℕ → M User
create_unverified email password_hash name lang hash expires_at =
    create_account email password_hash name lang (some (hash, expires_at))

-- `GetByEmail`
unfoldable pub get_by_email : String → M (User × String)
get_by_email email = query λ d. elim (find (has_email email) d.users) [
  | none ↦ err not_found
  | some u ↦ ok (view u, u.password_hash)
]

abbrev pub text_is : String → Option String → Bool
text_is s none = false
text_is s (some t) = str_eq t s

abbrev pub is_later : ℕ → Option ℕ → Bool
is_later now none = false
is_later now (some t) = ltb now t

-- `WHERE verify_token_hash = $1 AND verify_token_expires_at > now()`
abbrev pub carries : String → ℕ → UserRow → Bool
carries hash now u = text_is hash u.verify_token_hash && is_later now u.verify_token_expires_at

abbrev pub verified : UserRow → UserRow
verified u = record u {
  email_verified = true;
  verify_token_hash = none;
  verify_token_expires_at = none;
}

-- `VerifyByTokenHash`
unfoldable pub verify_by_token_hash : String → M (Unit {0})
verify_by_token_hash hash = exec λ d.
    if any (carries hash d.now) d.users
    then (ok tt, record d { users = update_where (carries hash d.now) verified d.users })
    else (err token_invalid, d)

abbrev pub awaits : String → UserRow → Bool
awaits email u = has_email email u && not u.email_verified

abbrev pub with_token : String → ℕ → UserRow → UserRow
with_token hash expires_at u = record u {
  verify_token_hash = some hash;
  verify_token_expires_at = some expires_at;
}

-- The UPDATE of `ResetVerifyToken` with what it returns.
unfoldable pub store_token : String → String → ℕ → M (Option User)
store_token email hash expires_at = exec λ d. (
  ok (elim (find (awaits email) d.users) [ none ↦ none | some u ↦ some (view u) ]),
  record d { users = update_where (awaits email) (with_token hash expires_at) d.users },
)

-- `ResetVerifyToken`
unfoldable pub reset_verify_token : String → String → ℕ → M User
reset_verify_token email hash expires_at = do
  updated ← store_token email hash expires_at
  elim updated [
    | some u ↦ pure u
    | none ↦ do
      exists ← query (λ d. ok (any (has_email email) d.users))
      if exists then raise already_verified else raise account_not_found
  ]

-- `SetLanguage`
unfoldable pub set_language : ℕ → String → M (Unit {0})
set_language user_id lang = exec λ d. (
  ok tt,
  record d {
    users = update_where (has_id user_id) (λ (u : UserRow). record u { language = lang }) d.users;
  },
)

-- `EnsureAdminRole`
unfoldable pub ensure_admin_role : String → M (Unit {0})
ensure_admin_role email = exec λ d. (
  ok tt,
  record d {
    users = update_where (has_email email) (λ (u : UserRow). record u { role = "admin" }) d.users;
  },
)

-- `GetRole`
unfoldable pub get_role : ℕ → M String
get_role user_id =
    query λ d. elim (find (has_id user_id) d.users) [
      | none ↦ err account_not_found
      | some u ↦ ok u.role
    ]
