-- ===== src/Auth/Disclosure.antt =====
-- What the answers to a login and to a request for a new link tell about accounts.
use apisix_developer_portal.Common.{
  String, true, false, Option, none, some, ◌≡◌, refl, sym, ap, ◌∙◌, str_eq, if◌then◌else◌, find,
}
use apisix_developer_portal.Common.Texts.{to_lower}
use apisix_developer_portal.Db.{UserRow}
use apisix_developer_portal.Effects.{Result, ok, err, State, Run, M, try}
use apisix_developer_portal.Effects.Triple.{
  Post, Triple, Triple-bind, Triple-if, Triple-pure, Triple-step, Triple-assume, Triple-weaken,
  Triple-try_total, Triple-answers,
}
use apisix_developer_portal.Httpx.Respond.{Reply, refusal, header}
use apisix_developer_portal.Httpx.RateLimit.{RateLimiter}
use apisix_developer_portal.Settings.Snapshot.{Effective}
use apisix_developer_portal.Auth.Repo.{User, has_email}
use apisix_developer_portal.Auth.Lookups.{found_row, verification_on_lem}
use apisix_developer_portal.Auth.Session.{check_password}
use apisix_developer_portal.Auth.Handler.{
  Handler, Request, Credentials, Body, draw, send_verification, link_base, admit, answer_login,
  check_login, login, mail_new_token, resend_token, resend_to, resend_with, resend_verification,
}

-- No account has these credentials: there is none of the address, or its password is another.
abbrev pub NoMatch : Handler → Credentials → State → Type 0
NoMatch h c s =
    (u : UserRow)
    → find (has_email c.email) s.db.users ≡ some u
    → check_password h.bcrypt u.password_hash c.password ≡ false

module _ (h : Handler) (limiter : Option RateLimiter) (req : Request) where
  module _ (c : Credentials) where
    answer_login-refused :
        (found : Result (User × String))
        → Triple
            (Post
              (λ (a : User × String) _. check_password h.bcrypt a.1 c.password ≡ false)
              (λ _. Unit {0})
              found)
            (answer_login h req c found)
            (λ reply _. reply ≡ refusal 401 "auth.login.invalidCredentials")
            (λ _. ⊥)
    unfolding answer_login
    answer_login-refused (err e) = Triple-pure _ (λ s p. refl)
    answer_login-refused (ok (u, hash)) =
        Triple-if (check_password h.bcrypt hash c.password) _ _
          (λ right. record { at = λ r p. absurd (let both : true ≡ false = sym right ∙ p in cc) })
          (λ wrong. Triple-pure _ (λ s p. refl))

    check_login-refused :
        Triple
          (NoMatch h c)
          (check_login h req c)
          (λ reply _. reply ≡ refusal 401 "auth.login.invalidCredentials")
          (λ _. ⊥)
    unfolding check_login
    check_login-refused =
        Triple-bind _ _
          (Triple-try_total _ (
            Triple-weaken _ (found_row (NoMatch h c) c.email) (λ s p. p)
              (λ a s (none_matches, u, there, e). rw e (none_matches u there)) (λ s p. p)))
          answer_login-refused

  abbrev refused_answer : Credentials → Reply Body × Option RateLimiter
  refused_answer c =
      let (passed, limiter') = admit limiter req.now (to_lower c.email) in
      (
        if passed
            then refusal 401 "auth.login.invalidCredentials"
            else refusal 429 "auth.login.tooManyAttempts",
        limiter',
      )

  login-refused :
      (c : Credentials)
      → Triple (NoMatch h c) (login h limiter req (some c)) (λ a _. a ≡ refused_answer c) (λ _. ⊥)
  unfolding login
  login-refused c =
      Triple-if (admit limiter req.now (to_lower c.email)).0 _ _
        (λ passed.
          Triple-bind _ _ (check_login-refused c)
            (λ reply. Triple-pure _ (λ s e. rw (e, passed) refl)))
        (λ stopped. Triple-pure _ (λ s p. rw stopped refl))

  -- What a request for a new link is answered, which no account has a part in.
  abbrev resend_answer : Option String → Option String → Reply Body × Option RateLimiter
  resend_answer body none = (refusal 404 "common.notFound", limiter)
  resend_answer none (some url) = (refusal 400 "common.invalidBody", limiter)
  resend_answer (some email) (some url) =
      if str_eq email ""
      then (refusal 400 "common.invalidBody", limiter)
      else (let (passed, limiter') = admit limiter req.now (to_lower email) in
          (if passed then header 204 else refusal 429 "auth.login.tooManyAttempts", limiter'))

  mail_new_token-answers :
      (token url : String) (updated : Result User)
      → Triple (λ _. Unit {0}) (mail_new_token req token url updated) (λ _ _. Unit {0}) (λ _. ⊥)
  unfolding mail_new_token send_verification
  mail_new_token-answers token url (err e) = Triple-pure tt (λ s p. tt)
  mail_new_token-answers token url (ok u) = Triple-step _ (λ s p. tt)

  resend_token-answers :
      (email url : String)
      → Triple (λ _. Unit {0}) (resend_token h req email url) (λ _ _. Unit {0}) (λ _. ⊥)
  unfolding resend_token draw try
  resend_token-answers email url = Triple-bind _ _ (Triple-step _ (λ s p. tt)) λ n.
      Triple-bind {Q = λ _ _. Unit {0}} _ _ (anything _)
        (λ updated. mail_new_token-answers (h.gen_token n) url updated)
    where
      anything : (m : M User) → Triple (λ _. Unit {0}) (try m) (λ _ _. Unit {0}) (λ _. ⊥)
      anything m = record { at = λ r p. tt }

  resend_with-answers :
      (body on : Option String)
      → Triple
          (λ _. Unit {0})
          (resend_with h limiter req body on)
          (λ a _. a ≡ resend_answer body on)
          (λ _. ⊥)
  unfolding resend_with resend_to
  resend_with-answers body none = Triple-pure _ (λ s p. refl)
  resend_with-answers none (some url) = Triple-pure _ (λ s p. refl)
  resend_with-answers (some email) (some url) =
      Triple-if (str_eq email "") _ _ (λ blank. Triple-pure _ (λ s p. rw blank refl))
        λ given.
          Triple-if (admit limiter req.now (to_lower email)).0 _ _
            (λ passed.
              Triple-bind _ _ (resend_token-answers email url)
                (λ _. Triple-pure _ (λ s p. rw (given, passed) refl)))
            (λ stopped. Triple-pure _ (λ s p. rw (given, stopped) refl))

  resend-answers :
      (body : Option String) (e : Effective)
      → Triple
          (λ s. s.snapshot ≡ e)
          (resend_verification h limiter req body)
          (λ a _. a ≡ resend_answer body (link_base h.provider e))
          (λ _. ⊥)
  unfolding resend_verification
  resend-answers body e =
      Triple-bind {Q = λ on _. on ≡ link_base h.provider e} _ _
        (Triple-weaken _ (verification_on_lem (λ s. s.snapshot ≡ e) h) (λ s p. p)
          (λ on s (same, is). is ∙ ap (link_base h.provider) same) (λ s p. p))
        λ on.
          Triple-weaken _
            (Triple-assume {P = λ _. Unit {0}} _ (λ (is : on ≡ link_base h.provider e).
              Triple-weaken _ (resend_with-answers body on) (λ s p. p)
                (λ a s q. q ∙ ap (resend_answer body) is) (λ s p. p)))
            (λ s is. (tt, is)) (λ a s q. q) (λ s p. p)

  -- If no account has the address and the password of a login, in two portals with whatever accounts
  -- and failing calls, the two answers are the same: a missing account and a wrong password look alike.
  pub login_discloses_nothing :
      (c : Credentials) (r r' : Run)
      → NoMatch h c r.state
      → NoMatch h c r'.state
      → (login h limiter req (some c) r).0 ≡ (login h limiter req (some c) r').0
  login_discloses_nothing c r r' none_matches none_matches' =
      let (a, answer, is) = Triple-answers _ (login-refused c) r none_matches in
      let (a', answer', is') = Triple-answers _ (login-refused c) r' none_matches' in
      answer ∙ ap ok (is ∙ sym is') ∙ sym answer'

  -- In two portals with the same settings, and with whatever accounts and failing calls, a request for
  -- a new verification link is answered alike.
  pub resend_discloses_nothing :
      (body : Option String) (r r' : Run)
      → r'.state.snapshot ≡ r.state.snapshot
      → (resend_verification h limiter req body r).0 ≡ (resend_verification h limiter req body r').0
  resend_discloses_nothing body r r' same =
      let (a, answer, is) = Triple-answers _ (resend-answers body r.state.snapshot) r refl in
      let (a', answer', is') = Triple-answers _ (resend-answers body r.state.snapshot) r' same in
      answer ∙ ap ok (is ∙ sym is') ∙ sym answer'
