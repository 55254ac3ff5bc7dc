-- ===== src/Server/Approvals.antt =====
-- internal/server/server.go: the requests after which a subscription is active.
use apisix_developer_portal.Common.{
  ℕ, String, Bool, true, false, Option, some, Memᴰ, ◌≡◌, ◌⊎◌, inl, refl, sym, subst, ◌∙◌, str_eq,
  if◌then◌else◌,
}
use apisix_developer_portal.Db.{SubscriptionRow}
use apisix_developer_portal.Effects.{Result, ok, err, State, Run}
use apisix_developer_portal.Effects.Triple.{
  Triple, Triple-bind, Triple-pure, Triple-and, Triple-weaken, Triple-assume, Triple-any,
  Triple-always, Triple-try_total,
}
use apisix_developer_portal.Effects.Preserves.{
  Preserves, Preserves-pure, preserves_rules, Triple-Preserves,
}
use apisix_developer_portal.Auth.Repo.{get_role}
use apisix_developer_portal.Auth.Session.{Claims}
use apisix_developer_portal.Auth.Middleware.{
  Passage, stopped, admitted, Bearer, missing, invalid, bearer, read_bearer, pass_role, pass_admin,
  require_admin,
}
use apisix_developer_portal.Auth.Gate.{never_admitted, IsAdmin, OnlyAdmins, pass_admin-OnlyAdmins}
use apisix_developer_portal.Subscriptions.Repo.{is_active}
use apisix_developer_portal.Subscriptions.Preserving.{OfRows}
use apisix_developer_portal.Subscriptions.Preserving.Gate.{IsGated}
use apisix_developer_portal.Subscriptions.Handler.Requests.{
  Request, Decision, approving, serve, transition,
}
use apisix_developer_portal.Subscriptions.Handler.Gated.{serve-Gated, transition-Gated}
use apisix_developer_portal.Server.{
  Server, Header, Endpoint, application, decision, behind, dispatch,
}

-- The request approves the subscription, with a token of a user who is an administrator.
pub record IsApproval (srv : Server) (header : Header) (e : Endpoint) (s : State) (id : ℕ)
    : Type 0 where
  pub claims : Claims
  pub approved : e ≡ decision approving (some id)
  pub signed : read_bearer srv.tokenizer header.now header.authorization ≡ bearer claims
  pub admin : IsAdmin s claims.user_id "admin"

-- The user that passes is the one of the token.
abbrev OfToken : Bearer → Passage → Type 0
OfToken b p =
    (uid : ℕ) (role : String)
    → p ≡ admitted uid role
    → (c : Claims) × (b ≡ bearer c) × (uid ≡ c.user_id)

same_user :
    (b : Bool) (uid uid' : ℕ) (role role' : String)
    → (if b then admitted uid role else stopped 403 "auth.middleware.adminOnly")
      ≡ admitted uid' role'
    → uid' ≡ uid
same_user true uid uid' role role' h = cc
same_user false uid uid' role role' h = absurd (cc)

role_user :
    (user_id : ℕ) (x : Result String) (uid : ℕ) (role : String)
    → pass_role user_id x ≡ admitted uid role
    → uid ≡ user_id
unfolding pass_role
role_user user_id (ok r) uid role h = same_user (str_eq r "admin") user_id uid r role h
role_user user_id (err e) uid role h = absurd (never_admitted e user_id uid role h)

pass_admin-OfToken :
    (P : State → Type 0) (b : Bearer) → Triple P (pass_admin b) (λ p _. OfToken b p) (λ _. ⊥)
unfolding pass_admin
pass_admin-OfToken P missing = Triple-pure _ (λ s p uid role is. absurd (cc))
pass_admin-OfToken P invalid = Triple-pure _ (λ s p uid role is. absurd (cc))
pass_admin-OfToken P (bearer c) =
    Triple-bind _ _ (Triple-try_total _ (Triple-any _))
      (λ x. Triple-pure _ (λ s p uid role is. (c, refl, role_user c.user_id x uid role is)))

module _ (srv : Server) (header : Header) (s0 : State) where
  -- What is active was so in the beginning, or this request approves it.
  abbrev Accounted : Endpoint → State → Type 0
  Accounted e = OfRows (IsGated s0.db.subscriptions (IsApproval srv header e s0))

  abbrev at_first : (e : Endpoint) (s : State) → s ≡ s0 → Accounted e s
  at_first e s same = subst (Accounted e) (sym same) (λ row m a. inl m)

  require_admin-Preserves : (e : Endpoint) (b : Bearer) → Preserves (Accounted e) (pass_admin b)
  unfolding pass_admin get_role
  require_admin-Preserves e missing = Preserves-pure _
  require_admin-Preserves e invalid = Preserves-pure _
  require_admin-Preserves e (bearer c) = search preserves_rules depth 6

  transition-Accounted :
      (d : Decision) (sub_id : Option ℕ) (b : Bearer) (p : Passage)
      → read_bearer srv.tokenizer header.now header.authorization ≡ b
      → Triple
          (λ s. Accounted (decision d sub_id) s × (OnlyAdmins s0 p × OfToken b p))
          (behind p (λ _. transition srv.subscriptions.svc d sub_id))
          (λ _. Accounted (decision d sub_id))
          (Accounted (decision d sub_id))
  unfolding behind
  transition-Accounted d sub_id b (stopped status message) is = Triple-pure _ (λ s q. q.0)
  transition-Accounted d sub_id b (admitted uid role) is = Triple-assume _ (λ (only, of_token).
      Triple-Preserves _ (
        transition-Gated _ _ srv.subscriptions.svc d sub_id (λ approves id same.
          let (c, signed, same_user) = of_token uid role refl in
          let admin = only uid role refl in
          record {
            claims = c;
            approved = cc;
            signed = is ∙ signed;
            admin =
                subst (λ u. IsAdmin s0 u "admin") same_user
                  (subst (IsAdmin s0 uid) admin.shown admin);
          })))

  behind-Accounted :
      (app_id : Option ℕ) (request : Request) (p : Passage)
      → Preserves
          (Accounted (application app_id request))
          (behind p (λ uid. serve srv.subscriptions uid app_id request))
  unfolding behind
  behind-Accounted app_id request (stopped status message) = Preserves-pure _
  behind-Accounted app_id request (admitted uid role) =
      serve-Gated _ _ srv.subscriptions uid app_id request

  dispatch-Accounted :
      (e : Endpoint) → Triple (λ s. s ≡ s0) (dispatch srv header e) (λ _. Accounted e) (Accounted e)
  unfolding dispatch require_admin
  dispatch-Accounted (application app_id request) =
      Triple-weaken _ (Triple-Preserves _ (behind-Accounted app_id request _)) (at_first _)
        (λ a s q. q) (λ s q. q)
  dispatch-Accounted (decision d sub_id) =
      let b = read_bearer srv.tokenizer header.now header.authorization in
      Triple-bind _ _
        (Triple-weaken _
          (Triple-and _
            (Triple-weaken _ (Triple-Preserves _ (require_admin-Preserves (decision d sub_id) b))
              (at_first _) (λ a s q. q) (λ s q. q))
            (Triple-and _ (pass_admin-OnlyAdmins s0 b) (pass_admin-OfToken (λ s. s ≡ s0) b)))
          (λ s same. same) (λ a s q. q) (λ s q. q.0))
        (λ p. transition-Accounted d sub_id b p refl)

-- Whatever calls fail, a subscription that is active after a request for an application or a decision of
-- an administrator was the same active subscription before it, or the request approves that very
-- subscription, with a token whose user is stored as an administrator.
pub only_admin_activates :
    (srv : Server) (header : Header) (e : Endpoint) (r : Run) (row : SubscriptionRow)
    → Memᴰ row (dispatch srv header e r).1.state.db.subscriptions
    → is_active row ≡ true
    → Memᴰ row r.state.db.subscriptions ⊎ IsApproval srv header e r.state row.id
only_admin_activates srv header e r row there active =
    Triple-always _ (dispatch-Accounted srv header r.state e) r refl row there active
