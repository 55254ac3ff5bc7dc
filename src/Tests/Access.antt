-- ===== src/Tests/Access.antt =====
-- A stranger and an administrator at the portal.
use mathlib.Core.List.Memᴰ.{head, tail}
use apisix_developer_portal.Common.{
  ℕ, sym, ap, ◌∙◌, true, distinct, order_by, Memᴰ, ◌⊎◌, none, some, [], ◌∷◌, ◌≡◌, refl, arith,
}
use apisix_developer_portal.Apisix.{ensure_consumer, ensure_route}
use apisix_developer_portal.Billing.{
  subscription_activated, plan_pricing, team_for_app, ensure_account, pending_invoice_exists,
  create_invoice,
}
use apisix_developer_portal.Db.{MemberRow}
use apisix_developer_portal.Common.Decimal.{format_int}
use apisix_developer_portal.Common.Texts.{strip_prefix}
use apisix_developer_portal.Effects.{Run, ok, pure, raise, lift, try, step, call, ◌>>=◌}
use apisix_developer_portal.Httpx.Respond.{Reply}
use apisix_developer_portal.Subscriptions.Model.{consumer_name, route_id}
use apisix_developer_portal.Subscriptions.Repo.{
  subscription_status, get_product, get_plan, save_subscription, upsert_subscription,
  get_subscription, set_subscription_status,
}
use apisix_developer_portal.Subscriptions.Repo.Keys.{
  encrypt, get_or_create_credential, get_credential, upsert_credential, get_sandbox_key,
}
use apisix_developer_portal.Subscriptions.Repo.Whitelists.{consumers_for_product}
use apisix_developer_portal.Subscriptions.Service.{
  log, log_event, notify, on_gateway, new_key, sandbox_enabled, dedup, add_missing, add_non_empty,
}
use apisix_developer_portal.Subscriptions.Service.Approval.{
  approve, approve_keys, grant_sandbox, announce,
}
use apisix_developer_portal.Subscriptions.Service.Lifecycle.{request, subscribe_to, subscribe}
use apisix_developer_portal.Subscriptions.Service.Routes.{reprovision_route, provision_keys}
use apisix_developer_portal.Subscriptions.Provisioning.Operations.{perform}
use apisix_developer_portal.Auth.Repo.{get_role}
use apisix_developer_portal.Auth.Session.{parse_token, key_for}
use apisix_developer_portal.Auth.Middleware.{read_bearer, pass_admin, pass_role, require_admin}
use apisix_developer_portal.Subscriptions.Handler.Answers.{Handler, Body, subscribed}
use apisix_developer_portal.Subscriptions.Handler.Requests.{
  rotating, subscribing, authorize, check_owner, respond, serve, approving, act, transition,
}
use apisix_developer_portal.Subscriptions.Handler.Strangers.{
  IsStranger, IsDenied, stranger_changes_nothing,
}
use apisix_developer_portal.Server.{Server, Header, application, decision, behind, dispatch}
use apisix_developer_portal.Server.Served.{start, next, requested-IsServed}
use apisix_developer_portal.Subscriptions.Provisioning.{IsServed}
use apisix_developer_portal.Httpx.Guards.{guarded}
use apisix_developer_portal.Teams.{is_member_of_app}
use apisix_developer_portal.Auth.Middleware.{require_auth}
use apisix_developer_portal.Effects.{State}
use apisix_developer_portal.Server.Approvals.{IsApproval, only_admin_activates}
use apisix_developer_portal.Tests.{portal, opening, unseal, weather, maps}
use apisix_developer_portal.Tests.Provisioning.{requested, approved_row}
use apisix_developer_portal.Tests.Auth.{jwt_of, ann_claims}

abbrev counter : Handler
counter = record {
  svc = portal;
  events = true;
  sandbox_gateway_url = "";
  oidc_issuer = "";
  usage = none;
}

abbrev at_opening : Run
at_opening = record { state = opening; faults = [] }

nine-IsStranger : IsStranger 9 (some 1) opening
unfolding IsStranger
nine-IsStranger a there same m (head e) team is =
    let k : ◌≡◌ {A = ℕ} 1 9 = sym (ap (λ (x : MemberRow). x.user_id) e) ∙ is in omega arith
nine-IsStranger a there same m (tail (head e)) team is =
    let k : ◌≡◌ {A = ℕ} 2 9 = sym (ap (λ (x : MemberRow). x.user_id) e) ∙ is in omega arith
nine-IsStranger a there same m (tail (tail x)) team is = elim x [ ]

stranger_changes_nothing_example :
    ((serve counter 9 (some 1) rotating at_opening).1.state ≡ opening)
    × ((reply : Reply Body) × ((serve counter 9 (some 1) rotating at_opening).0 ≡ ok reply)
        × IsDenied reply)
stranger_changes_nothing_example =
    stranger_changes_nothing counter 9 (some 1) rotating at_opening nine-IsStranger

abbrev site : Server
site = record {
  tokenizer = record { jwt = jwt_of ann_claims; secret = "secret" };
  subscriptions = counter;
}

abbrev ann_header : Header
ann_header = record { now = 0; authorization = "Bearer signed" }

abbrev at_requested : Run
at_requested = record { state = requested; faults = [] }

approved_by_ann :
    (dispatch site ann_header (decision approving (some 1)) at_requested).1.state.db.subscriptions
    ≡ approved_row ∷ []
unfolding dispatch require_admin read_bearer strip_prefix parse_token key_for pass_admin get_role
    pass_role behind transition act perform unseal pure raise lift try step call ◌>>=◌ get_product
    get_plan save_subscription upsert_subscription get_subscription set_subscription_status request
    subscribe_to subscribe approve approve_keys grant_sandbox announce log log_event notify
    on_gateway new_key encrypt get_or_create_credential get_credential upsert_credential
    reprovision_route provision_keys consumers_for_product ensure_consumer ensure_route
    subscription_activated plan_pricing team_for_app ensure_account pending_invoice_exists
    create_invoice get_sandbox_key sandbox_enabled dedup add_missing add_non_empty consumer_name
    route_id format_int distinct order_by subscription_status
approved_by_ann = refl

only_admin_activates_example :
    Memᴰ approved_row requested.db.subscriptions
    ⊎ IsApproval site ann_header (decision approving (some 1)) requested 1
only_admin_activates_example =
    only_admin_activates site ann_header (decision approving (some 1)) at_requested approved_row
      (rw approved_by_ann (head refl)) refl

abbrev subscribed_by_ann : State
subscribed_by_ann =
    (dispatch site ann_header (application (some 1) (subscribing (some (7, 2)))) at_opening).1.state

abbrev approved_after : State
approved_after =
    (dispatch site ann_header (decision approving (some 1))
      (record { state = subscribed_by_ann; faults = [] })).1.state

served_rows :
    (approved_after.db.subscriptions ≡ approved_row ∷ [])
    × (approved_after.db.products ≡ weather ∷ maps ∷ [])
unfolding dispatch require_admin read_bearer strip_prefix parse_token key_for pass_admin get_role
    pass_role behind transition act unseal pure raise lift try step call ◌>>=◌ get_product get_plan
    save_subscription upsert_subscription get_subscription set_subscription_status request
    subscribe_to subscribe approve approve_keys grant_sandbox announce log log_event notify
    on_gateway new_key encrypt get_or_create_credential get_credential upsert_credential
    reprovision_route provision_keys consumers_for_product ensure_consumer ensure_route
    subscription_activated plan_pricing team_for_app ensure_account pending_invoice_exists
    create_invoice get_sandbox_key sandbox_enabled dedup add_missing add_non_empty consumer_name
    route_id format_int distinct order_by subscription_status require_auth serve authorize
    is_member_of_app check_owner guarded respond subscribed
served_rows = (refl, refl)

requested-IsServed_example : IsServed approved_after.db.credentials approved_after.gw 1 7
requested-IsServed_example =
    requested-IsServed opening approved_after refl refl
      (next site ann_header (decision approving (some 1)) []
        (next site ann_header (application (some 1) (subscribing (some (7, 2)))) [] start))
      approved_row (rw served_rows.0 (head refl)) refl (weather, rw served_rows.1 refl, refl)
