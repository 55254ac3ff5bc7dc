-- ===== src/Auth/Middleware.antt =====
-- internal/auth/middleware.go: who may pass to a handler.
use apisix_developer_portal.Common.{ℕ, String, Option, none, some, str_eq, if◌then◌else◌}
use apisix_developer_portal.Common.Texts.{strip_prefix}
use apisix_developer_portal.Effects.{account_not_found, Result, ok, err, M, pure, try, ◌>>=◌}
use apisix_developer_portal.Auth.Repo.{get_role}
use apisix_developer_portal.Auth.Session.{Claims, Tokenizer, parse_token}

-- The request is answered, or passed on with the user id and the role in its context.
pub data Passage : Type 0 where
  stopped : ℕ → String → Passage
  admitted : ℕ → String → Passage

-- The head of both middlewares: the claims of the bearer token, or the answer.
pub data Bearer : Type 0 where
  missing : Bearer
  invalid : Bearer
  bearer : Claims → Bearer

abbrev checked : Option Claims → Bearer
checked none = invalid
checked (some c) = bearer c

unfoldable pub read_bearer : Tokenizer → ℕ → String → Bearer
read_bearer tk now authorization = elim (strip_prefix "Bearer " authorization) [
  | none ↦ missing
  | some token ↦ checked (parse_token tk now token)
]

abbrev pass_user : Bearer → Passage
pass_user missing = stopped 401 "auth.middleware.missingToken"
pass_user invalid = stopped 401 "auth.middleware.invalidToken"
pass_user (bearer c) = admitted c.user_id c.role

-- `RequireAuth`
unfoldable pub require_auth : Tokenizer → ℕ → String → Passage
unfolding read_bearer
require_auth tk now authorization = pass_user (read_bearer tk now authorization)

-- What `RequireAdmin` makes of the answer of the lookup.
unfoldable pub pass_role : ℕ → Result String → Passage
pass_role user_id (err account_not_found) = stopped 403 "auth.middleware.adminOnly"
pass_role user_id (err e) = stopped 500 "auth.middleware.roleCheckFailed"
pass_role user_id (ok role) =
    if str_eq role "admin" then admitted user_id role else stopped 403 "auth.middleware.adminOnly"

unfoldable pub pass_admin : Bearer → M Passage
unfolding pass_role
pass_admin missing = pure (stopped 401 "auth.middleware.missingToken")
pass_admin invalid = pure (stopped 401 "auth.middleware.invalidToken")
pass_admin (bearer c) = do role ← try (get_role c.user_id); pure (pass_role c.user_id role)

-- `RequireAdmin`, with `GetRole` as its lookup.
unfoldable pub require_admin : Tokenizer → ℕ → String → M Passage
unfolding read_bearer pass_admin
require_admin tk now authorization = pass_admin (read_bearer tk now authorization)
