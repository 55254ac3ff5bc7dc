-- ===== src/Subscriptions/Handler/Detail.antt =====
-- internal/subscriptions/handler.go: the page of an application, with its feed (internal/events).
use apisix_developer_portal.Common.{
  ℕ, String, not, Option, none, some, List, [], str_eq, ◌==◌, if◌then◌else◌, is_empty, map, select,
  find,
}
use apisix_developer_portal.Common.Slices.{take}
use apisix_developer_portal.Db.{ProductRow, PlanRow, EventRow, Db}
use apisix_developer_portal.Effects.{not_found, Result, ok, err, M, pure, try, query, ◌>>=◌}
use apisix_developer_portal.Httpx.Respond.{Reply, refusal, json}
use apisix_developer_portal.Subscriptions.Model.{Credential, SubscriptionView}
use apisix_developer_portal.Subscriptions.Repo.{get_app_oidc_client_id}
use apisix_developer_portal.Subscriptions.Repo.Keys.{get_sandbox_key}
use apisix_developer_portal.Subscriptions.Repo.Whitelists.{
  subscriptions_for_app, oauth_products_for_app,
}
use apisix_developer_portal.Subscriptions.Handler.Answers.{Handler, EventView, Body, detail}

abbrev pub product_named : Db → Option ℕ → String
product_named d none = ""
product_named d (some id) = elim (find (λ (p : ProductRow). p.id == id) d.products) [
  | none ↦ ""
  | some p ↦ p.name
]

abbrev pub plan_named : Db → Option ℕ → String
plan_named d none = ""
plan_named d (some id) = elim (find (λ (p : PlanRow). p.id == id) d.plans) [
  | none ↦ ""
  | some p ↦ p.name
]

-- `events.Repo.Recent`; the table has the newest event first.
unfoldable pub recent : ℕ → ℕ → M (List EventView)
unfolding take
recent app_id limit = query λ d. ok (
    take limit (
      map
        (λ (e : EventRow). record {
          kind = e.kind;
          product_name = product_named d e.product_id;
          plan_name = plan_named d e.plan_id;
        })
        (select (λ (e : EventRow). e.application_id == app_id) d.events)))

abbrev pub feed_limit : ℕ
feed_limit = 20

-- What an answer without its error is worth to the page.
abbrev pub rows_or_none : {A : Type 0} → Result (List A) → List A
rows_or_none (ok xs) = xs
rows_or_none (err e) = []

abbrev pub text_or_empty : Result String → String
text_or_empty (ok s) = s
text_or_empty (err e) = ""

-- `detail` behind the credential and the subscriptions; what is not configured is not asked for.
unfoldable pub detail_page : Handler → ℕ → String × String → List SubscriptionView → M (Reply Body)
unfolding recent
detail_page h app_id (key, name) subs = do
  feed ← if h.events then try (recent app_id feed_limit) else pure (ok [])
  sandbox ←
      if str_eq h.sandbox_gateway_url ""
      then pure (ok "")
      else try (get_sandbox_key h.svc.cipher app_id)
  client ← if str_eq h.oidc_issuer "" then pure (ok "") else try (get_app_oidc_client_id app_id)
  products ← if str_eq h.oidc_issuer "" then pure (ok []) else try (oauth_products_for_app app_id)
  pure (
      json 200 (
        detail (record {
          api_key = key;
          consumer_username = name;
          subscriptions = subs;
          events = rows_or_none feed;
          sandbox_enabled = not (str_eq (text_or_empty sandbox) "");
          sandbox_gateway_url = h.sandbox_gateway_url;
          oidc_client_id = text_or_empty client;
          oauth_eligible = not (is_empty (rows_or_none products));
          oidc_issuer = h.oidc_issuer;
        })))

unfoldable pub detail_subscriptions :
    Handler → ℕ → String × String → Result (List SubscriptionView) → M (Reply Body)
detail_subscriptions h app_id shown (err e) = pure (refusal 500 "subscribe.subscriptionsLoadFailed")
detail_subscriptions h app_id shown (ok subs) = detail_page h app_id shown subs

unfoldable pub shown_credential : Result Credential → Option (String × String)
shown_credential (ok cred) = some (cred.api_key, cred.consumer_username)
shown_credential (err not_found) = some ("", "")
shown_credential (err e) = none

unfoldable pub detail_credential : Handler → ℕ → Option (String × String) → M (Reply Body)
detail_credential h app_id none = pure (refusal 500 "subscribe.credentialLoadFailed")
detail_credential h app_id (some shown) = do
  subs ← try (subscriptions_for_app h.svc.collate app_id)
  detail_subscriptions h app_id shown subs
