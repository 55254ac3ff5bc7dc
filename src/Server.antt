-- ===== src/Server.antt =====
-- internal/server/server.go: which requests pass through which middleware. Here are the routes of
-- applications, behind RequireAuth, and of the administrator's decisions, behind RequireAdmin.
pub mod Approvals
pub mod Served
use apisix_developer_portal.Common.{ℕ, String, Option}
use apisix_developer_portal.Effects.{M, ◌>>=◌, pure}
use apisix_developer_portal.Httpx.Respond.{Reply, refusal}
use apisix_developer_portal.Auth.Session.{Tokenizer}
use apisix_developer_portal.Auth.Middleware.{
  Passage, stopped, admitted, require_auth, require_admin,
}
use apisix_developer_portal.Subscriptions.Handler.Answers.{Handler, Body}
use apisix_developer_portal.Subscriptions.Handler.Requests.{Request, serve, Decision, transition}

pub record Server : Type 0 where
  pub tokenizer : Tokenizer
  pub subscriptions : Handler

-- The header of a request, and the clock of the server.
pub record Header : Type 0 where
  pub now : ℕ
  pub authorization : String

pub data Endpoint : Type 0 where
  application : Option ℕ → Request → Endpoint
  decision : Decision → Option ℕ → Endpoint

-- A handler behind a middleware, which answers or passes the user on.
unfoldable pub behind : {B : Type 0} → Passage → (ℕ → M (Reply B)) → M (Reply B)
behind (stopped status message) f = pure (refusal status message)
behind (admitted uid role) f = f uid

unfoldable pub dispatch : Server → Header → Endpoint → M (Reply Body)
dispatch srv header (application app_id request) =
    behind (require_auth srv.tokenizer header.now header.authorization)
      (λ uid. serve srv.subscriptions uid app_id request)
dispatch srv header (decision d sub_id) = do
  passage ← require_admin srv.tokenizer header.now header.authorization
  behind passage (λ _. transition srv.subscriptions.svc d sub_id)
