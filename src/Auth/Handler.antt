-- ===== src/Auth/Handler.antt =====
-- internal/auth/handler.go: registration, login, the language of a user, and the verification of an
-- address. A handler that uses a limiter answers with the limiter after the request. A mail goes out
-- in the background; here it is sent at once.
use Prim.Native.String
use Prim.Native.String.{len}
use apisix_developer_portal.Common.{
  ℕ, ◌+◌, String, Bool, true, ◌||◌, Option, none, some, ◌∷◌, str_eq, ◌==◌, ltb, if◌then◌else◌,
}
use apisix_developer_portal.Common.Texts.{to_lower}
use apisix_developer_portal.Effects.{
  Error, email_taken, token_invalid, Result, ok, err, verification, M, pure, try, step, ◌>>=◌, ◌>>◌,
}
use apisix_developer_portal.Httpx.Respond.{Reply, refusal, json, header}
use apisix_developer_portal.Httpx.RateLimit.{RateLimiter, allow}
use apisix_developer_portal.Settings.Snapshot.{Effective, get, is_on}
use apisix_developer_portal.Auth.Repo.{
  User, create, create_unverified, get_by_email, verify_by_token_hash, reset_verify_token,
  set_language,
}
use apisix_developer_portal.Auth.Session.{
  Tokenizer, issue, Bcrypt, Hashed, too_long, no_hash, hashed, hash_password, check_password,
}

-- `VerificationProvider`: `staticProvider`, or the one of internal/server that reads the snapshot.
pub data Provider : Type 0 where
  static_provider : String → Provider
  from_settings : Provider

unfoldable pub enabled : Provider → Effective → Bool
enabled (static_provider url) e = true
enabled from_settings e = is_on "REQUIRE_EMAIL_VERIFICATION" e

unfoldable pub base_url : Provider → Effective → String
base_url (static_provider url) e = url
base_url from_settings e = get "PORTAL_BASE_URL" e

-- `Handler`, less its limiters. `gen_token` yields the token for a count of random values drawn, and
-- `digest` is `HashVerifyToken`.
pub record Handler : Type 0 where
  pub tokenizer : Tokenizer
  pub bcrypt : Bcrypt
  pub provider : Option Provider
  pub ttl : ℕ
  pub gen_token : ℕ → String
  pub digest : String → String

-- What a request carries besides its body: the time of the server and the language.
pub record Request : Type 0 where
  pub now : ℕ
  pub lang : String

pub record Credentials : Type 0 where
  pub email : String
  pub password : String
  pub name : String

pub data Body : Type 0 where
  session : User → String → Body
  pending : User → Body

-- `verificationOn`, with the address for links; the two reads of the snapshot are one here.
unfoldable pub link_base : Option Provider → Effective → Option String
unfolding enabled base_url
link_base none e = none
link_base (some p) e = if enabled p e then some (base_url p e) else none

unfoldable pub verification_on : Handler → M (Option String)
verification_on h = step (λ s. (ok (link_base h.provider s.snapshot), s))

-- A random value: a salt or a token.
unfoldable pub draw : M ℕ
draw = step (λ s. (ok s.entropy, record s { entropy = s.entropy + 1 }))

-- `sendVerification`
unfoldable pub send_verification : User → String → String → String → M (Unit {0})
send_verification u lang token url = step λ s. (
  ok tt,
  record s {
    notices =
        verification lang u.email u.name
          (String.◌++◌ url (String.◌++◌ "/verify-email?token=" token))
        ∷ s.notices;
  },
)

-- The answer to an error of the store.
unfoldable pub create_failed : Error → Reply Body
create_failed email_taken = refusal 409 "auth.register.emailTaken"
create_failed e = refusal 500 "auth.register.createFailed"

-- The session of a user who may have one.
unfoldable pub open_session : Handler → Request → ℕ → User → Reply Body
open_session h req status u = elim (issue h.tokenizer req.now u.id u.email u.role) [
  | none ↦ refusal 500 "auth.token.issueFailed"
  | some token ↦ json status (session u token)
]

unfoldable pub answer_pending : Request → String → String → Result User → M (Reply Body)
answer_pending req token url (err e) = pure (create_failed e)
answer_pending req token url (ok u) = do
  send_verification u req.lang token url
  pure (json 201 (pending u))

unfoldable pub answer_created : Handler → Request → Result User → Reply Body
answer_created h req (err e) = create_failed e
answer_created h req (ok u) = open_session h req 201 u

-- `register` with a password that has a hash: with verification on, and without.
unfoldable pub register_with :
    Handler → Request → Credentials → String → Option String → M (Reply Body)
register_with h req c hash (some url) = do
  n ← draw
  created ←
      try (
        create_unverified c.email hash c.name req.lang (h.digest (h.gen_token n)) (req.now + h.ttl))
  answer_pending req (h.gen_token n) url created
register_with h req c hash none = do
  created ← try (create c.email hash c.name req.lang)
  pure (answer_created h req created)

unfoldable pub register_hashed : Handler → Request → Credentials → Hashed → M (Reply Body)
register_hashed h req c too_long = pure (refusal 400 "auth.password.tooLong")
register_hashed h req c no_hash = pure (refusal 500 "auth.password.hashFailed")
register_hashed h req c (hashed hash) = do on ← verification_on h; register_with h req c hash on

unfoldable pub register : Handler → Request → Option Credentials → M (Reply Body)
register h req none = pure (refusal 400 "auth.register.credentialsRequired")
register h req (some c) =
    if str_eq c.email "" || ltb (len c.password) 8
    then pure (refusal 400 "auth.register.credentialsRequired")
    else (do salt ← draw; register_hashed h req c (hash_password h.bcrypt salt c.password))

-- `limiter != nil && !limiter.Allow(…)`: whether the request may go on, and the limiter after it.
unfoldable pub admit : Option RateLimiter → ℕ → String → Bool × Option RateLimiter
admit none now key = (true, none)
admit (some rl) now key = let (passed, rl') = allow now key rl in (passed, some rl')

-- The end of `login`, for a right password.
unfoldable pub session_answer : Handler → Request → User → Option String → Reply Body
session_answer h req u none = open_session h req 200 u
session_answer h req u (some url) =
    if u.verified then open_session h req 200 u else refusal 403 "auth.login.emailNotVerified"

-- `login` from the answer of the store on.
unfoldable pub answer_login :
    Handler → Request → Credentials → Result (User × String) → M (Reply Body)
answer_login h req c (err e) = pure (refusal 401 "auth.login.invalidCredentials")
answer_login h req c (ok (u, hash)) =
    if check_password h.bcrypt hash c.password
    then (do on ← verification_on h; pure (session_answer h req u on))
    else pure (refusal 401 "auth.login.invalidCredentials")

-- `login` after the limiter.
unfoldable pub check_login : Handler → Request → Credentials → M (Reply Body)
check_login h req c = do found ← try (get_by_email c.email); answer_login h req c found

unfoldable pub login :
    Handler
    → Option RateLimiter
    → Request
    → Option Credentials
    → M (Reply Body × Option RateLimiter)
login h limiter req none = pure (refusal 400 "common.invalidBody", limiter)
login h limiter req (some c) =
    let (passed, limiter') = admit limiter req.now (to_lower c.email) in
    if passed
    then (do reply ← check_login h req c; pure (reply, limiter'))
    else pure (refusal 429 "auth.login.tooManyAttempts", limiter')

-- `PutLanguage`; the user id is that of the context, 0 if there is none.
unfoldable pub put_language : ℕ → Option String → M (Reply Body)
put_language uid body =
    if uid == 0 then pure (refusal 401 "auth.middleware.missingToken") else elim body [
      | none ↦ pure (refusal 400 "common.invalidBody")
      | some language ↦
          if str_eq language "fr" || str_eq language "en"
          then (do
            stored ← try (set_language uid language)
            elim stored [
              | ok _ ↦ pure (header 204)
              | err e ↦ pure (refusal 500 "auth.register.createFailed")
            ])
          else pure (refusal 400 "common.invalidBody")
    ]

-- The answer to a verification.
unfoldable pub verify_answer : Result (Unit {0}) → Reply Body
verify_answer (ok _) = header 204
verify_answer (err token_invalid) = refusal 410 "auth.verify.invalidOrExpired"
verify_answer (err e) = refusal 500 "auth.verify.failed"

unfoldable pub verify_with : Handler → Option String → Option String → M (Reply Body)
verify_with h body none = pure (refusal 404 "common.notFound")
verify_with h none (some url) = pure (refusal 400 "common.invalidBody")
verify_with h (some token) (some url) =
    if str_eq token ""
    then pure (refusal 400 "common.invalidBody")
    else (do answer ← try (verify_by_token_hash (h.digest token)); pure (verify_answer answer))

unfoldable pub verify_email : Handler → Option String → M (Reply Body)
verify_email h body = do on ← verification_on h; verify_with h body on

-- An error of the store is dropped.
unfoldable pub mail_new_token : Request → String → String → Result User → M (Unit {0})
mail_new_token req token url (err e) = pure tt
mail_new_token req token url (ok u) =
    send_verification u (if str_eq u.language "" then req.lang else u.language) token url

-- `resendVerification` after its checks: a mail goes to an account that awaits verification.
unfoldable pub resend_token : Handler → Request → String → String → M (Unit {0})
resend_token h req email url = do
  n ← draw
  updated ← try (reset_verify_token email (h.digest (h.gen_token n)) (req.now + h.ttl))
  mail_new_token req (h.gen_token n) url updated

unfoldable pub resend_to :
    Handler → Option RateLimiter → Request → String → String → M (Reply Body × Option RateLimiter)
resend_to h limiter req email url =
    let (passed, limiter') = admit limiter req.now (to_lower email) in
    if passed
    then (do resend_token h req email url; pure (header 204, limiter'))
    else pure (refusal 429 "auth.login.tooManyAttempts", limiter')

unfoldable pub resend_with :
    Handler
    → Option RateLimiter
    → Request
    → Option String
    → Option String
    → M (Reply Body × Option RateLimiter)
resend_with h limiter req body none = pure (refusal 404 "common.notFound", limiter)
resend_with h limiter req none (some url) = pure (refusal 400 "common.invalidBody", limiter)
resend_with h limiter req (some email) (some url) =
    if str_eq email ""
    then pure (refusal 400 "common.invalidBody", limiter)
    else resend_to h limiter req email url

unfoldable pub resend_verification :
    Handler → Option RateLimiter → Request → Option String → M (Reply Body × Option RateLimiter)
resend_verification h limiter req body = do
  on ← verification_on h
  resend_with h limiter req body on
