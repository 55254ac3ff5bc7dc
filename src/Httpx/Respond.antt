-- ===== src/Httpx/Respond.antt =====
-- internal/httpx/respond.go: what a handler answers. A message is the key of a text of internal/i18n,
-- which the language of the request turns into words.
use apisix_developer_portal.Common.{ℕ, String}

-- `ErrorT`, `JSON` and `WriteHeader`, with the status code.
pub data Reply (B : Type 0) : Type 0 where
  refusal : ℕ → String → Reply B
  json : ℕ → B → Reply B
  header : ℕ → Reply B
