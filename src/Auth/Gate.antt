-- ===== src/Auth/Gate.antt =====
-- Who gets a session, and who passes as an administrator.
use apisix_developer_portal.Common.{
  ℕ, String, Bool, true, false, Option, none, some, Memᴰ, ◌≡◌, ◌≢◌, inl, inr, refl, sym, ap, subst,
  ◌∙◌, str_eq, eq_iff, ==_iff, if◌then◌else◌, find, find-mem, Option-cases,
}
use apisix_developer_portal.Common.Texts.{to_lower}
use apisix_developer_portal.Db.{UserRow}
use apisix_developer_portal.Effects.{Error, account_not_found, Result, ok, err, State, Run}
use apisix_developer_portal.Effects.Triple.{
  Post, Triple, Triple-bind, Triple-if, Triple-pure, Triple-query, Triple-weaken, Triple-try_total,
  Triple-answers,
}
use apisix_developer_portal.Httpx.Respond.{Reply, refusal, json}
use apisix_developer_portal.Httpx.RateLimit.{RateLimiter}
use apisix_developer_portal.Auth.Repo.{User, view, has_email, has_id, get_role}
use apisix_developer_portal.Auth.Lookups.{found_row, verification_on_lem}
use apisix_developer_portal.Auth.Session.{Tokenizer, issue, check_password}
use apisix_developer_portal.Auth.Handler.{
  Handler, link_base, Request, Credentials, Body, session, open_session, session_answer, admit,
  answer_login, check_login, login,
}
use apisix_developer_portal.Auth.Middleware.{
  Passage, stopped, admitted, Bearer, missing, invalid, bearer, read_bearer, pass_role, pass_admin,
  require_admin,
}

-- The account of a session: one of the address, with that password, whose address is verified where
-- verification is on; the token is signed for it.
pub record IsEntitled (h : Handler) (req : Request) (c : Credentials) (s : State) (u : User)
    (token : String) : Type 0 where
  pub row : UserRow
  pub stored : Memᴰ row s.db.users
  pub addressed : row.email ≡ c.email
  pub proved : check_password h.bcrypt row.password_hash c.password ≡ true
  pub confirmed : link_base h.provider s.snapshot ≢ none → row.email_verified ≡ true
  pub shown : u ≡ view row
  pub signed : issue h.tokenizer req.now row.id row.email row.role ≡ some token

opened :
    (h : Handler) (req : Request) (status0 status : ℕ) (u u' : User) (token : String)
    → open_session h req status0 u ≡ json status (session u' token)
    → (u' ≡ u) × (issue h.tokenizer req.now u.id u.email u.role ≡ some token)
unfolding open_session
opened h req status0 status u u' token is =
    elim (Option-cases (issue h.tokenizer req.now u.id u.email u.role)) [
      | inl e ↦
          let k : refusal 500 "auth.token.issueFailed" ≡ json status (session u' token) =
            rw (e, open_session) at is in
          absurd (cc)
      | inr (t, e) ↦
          let k : json status0 (session u t) ≡ json status (session u' token) =
            rw (e, open_session) at is in
          (cc, cc)
    ]

confirmed_session :
    (h : Handler) (req : Request) (u : User) (on : Option String) (status : ℕ) (u' : User)
    (token : String)
    → session_answer h req u on ≡ json status (session u' token)
    → (open_session h req 200 u ≡ json status (session u' token)) × (on ≢ none → u.verified ≡ true)
unfolding session_answer
confirmed_session h req u none status u' token is = (is, λ off. absurd (off refl))
confirmed_session h req u (some url) status u' token is =
    let (answer, t) = only_session u.verified _ is in (answer, λ _. t)
  where
    only_session :
        (b : Bool) (x : Reply Body)
        → (if b then x else refusal 403 "auth.login.emailNotVerified")
          ≡ json status (session u' token)
        → (x ≡ json status (session u' token)) × (b ≡ true)
    only_session true x h = (h, refl)
    only_session false x h = absurd (cc)

module _ (h : Handler) (req : Request) (c : Credentials) (s0 : State) where
  abbrev OnlyEntitled : Reply Body → Type 0
  OnlyEntitled reply =
      (status : ℕ) (u : User) (token : String)
      → reply ≡ json status (session u token)
      → IsEntitled h req c s0 u token

  session-OnlyEntitled :
      (row : UserRow) (on : Option String)
      → find (has_email c.email) s0.db.users ≡ some row
      → check_password h.bcrypt row.password_hash c.password ≡ true
      → on ≡ link_base h.provider s0.snapshot
      → OnlyEntitled (session_answer h req (view row) on)
  unfolding session_answer open_session
  session-OnlyEntitled row on there right is = λ status u token answer.
      let (open_answer, verified_first) =
        confirmed_session h req (view row) on status u token answer in
      let (same, signed) = opened h req 200 status (view row) u token open_answer in
      let (stored, addressed) = find-mem (has_email c.email) s0.db.users there in
      record {
        row = row;
        stored = stored;
        addressed = (eq_iff row.email c.email).0 addressed;
        proved = right;
        confirmed = λ on_now. verified_first (λ off. on_now (sym is ∙ off));
        shown = same;
        signed = signed;
      }

  answer_login-OnlyEntitled :
      (found : Result (User × String))
      → Triple
          (Post
            (λ (a : User × String) s.
              (s ≡ s0)
              × (u : UserRow) × (find (has_email c.email) s.db.users ≡ some u)
              × (a ≡ (view u, u.password_hash)))
            (λ _. Unit {0})
            found)
          (answer_login h req c found)
          (λ reply _. OnlyEntitled reply)
          (λ _. ⊥)
  unfolding answer_login
  answer_login-OnlyEntitled (err e) = Triple-pure _ (λ s p status u token is. absurd (cc))
  answer_login-OnlyEntitled (ok (u, hash)) =
      Triple-if (check_password h.bcrypt hash c.password) _ _
        (λ right. Triple-bind _ _ (verification_on_lem _ h) (λ on.
          Triple-pure _ (λ s ((here, row, there, e), is).
            let same_hash : hash ≡ row.password_hash = ap (λ (a : User × String). a.1) e in
            subst (λ (a : User × String). OnlyEntitled (session_answer h req a.0 on)) (sym e)
              (session-OnlyEntitled row on
                (subst (λ x. find (has_email c.email) x.db.users ≡ some row) here there)
                (subst (λ x. check_password h.bcrypt x c.password ≡ true) same_hash right)
                (subst (λ x. on ≡ link_base h.provider x.snapshot) here is)))))
        (λ wrong. Triple-pure _ (λ s p status u' token is. absurd (cc)))

  check_login-OnlyEntitled :
      Triple (λ s. s ≡ s0) (check_login h req c) (λ reply _. OnlyEntitled reply) (λ _. ⊥)
  unfolding check_login
  check_login-OnlyEntitled =
      Triple-bind _ _ (Triple-try_total _ (found_row (λ s. s ≡ s0) c.email))
        answer_login-OnlyEntitled

  login-OnlyEntitled :
      (limiter : Option RateLimiter)
      → Triple (λ s. s ≡ s0) (login h limiter req (some c)) (λ a _. OnlyEntitled a.0) (λ _. ⊥)
  unfolding login
  login-OnlyEntitled limiter =
      Triple-if (admit limiter req.now (to_lower c.email)).0 _ _
        (λ passed. Triple-bind _ _ check_login-OnlyEntitled (λ reply. Triple-pure _ (λ s p. p)))
        (λ stopped. Triple-pure _ (λ s p status u token is. absurd (cc)))

-- A login that answers with a session, whatever calls fail, was made with the address and the password
-- of a stored account, whose address is verified if verification is on, and the token is signed for
-- the id, the address and the role of that account.
pub login_entitles :
    (h : Handler) (limiter limiter' : Option RateLimiter) (req : Request) (c : Credentials)
    (r : Run) (status : ℕ) (u : User) (token : String)
    → (login h limiter req (some c) r).0 ≡ ok (json status (session u token), limiter')
    → IsEntitled h req c r.state u token
login_entitles h limiter limiter' req c r status u token answer =
    let (a, is, entitled) = Triple-answers _ (login-OnlyEntitled h req c r.state limiter) r refl in
    let same : a ≡ (json status (session u token), limiter') = cc in
    entitled status u token (ap (λ (x : Reply Body × Option RateLimiter). x.0) same)

-- An administrator passes: the user of the token is stored, with the role of an administrator now.
pub record IsAdmin (s : State) (user_id : ℕ) (role : String) : Type 0 where
  pub row : UserRow
  pub stored : Memᴰ row s.db.users
  pub identified : row.id ≡ user_id
  pub rank : row.role ≡ "admin"
  pub shown : role ≡ "admin"

admitted_only :
    (b : Bool) (uid uid' : ℕ) (role role' : String)
    → (if b then admitted uid role else stopped 403 "auth.middleware.adminOnly")
      ≡ admitted uid' role'
    → (b ≡ true) × (uid ≡ uid') × (role ≡ role')
admitted_only true uid uid' role role' h = (refl, cc, cc)
admitted_only false uid uid' role role' h = absurd (cc)

pub never_admitted :
    (e : Error) (uid uid' : ℕ) (role : String) → pass_role uid (err e) ≢ admitted uid' role
unfolding pass_role
never_admitted account_not_found uid uid' role h = cc
never_admitted _ uid uid' role h = cc

module _ (s0 : State) where
  abbrev pub OnlyAdmins : Passage → Type 0
  OnlyAdmins p = (uid : ℕ) (role : String) → p ≡ admitted uid role → IsAdmin s0 uid role

  pass_role-OnlyAdmins :
      (uid : ℕ) (role : String) (row : UserRow)
      → find (has_id uid) s0.db.users ≡ some row
      → role ≡ row.role
      → OnlyAdmins (pass_role uid (ok role))
  unfolding pass_role
  pass_role-OnlyAdmins uid role row there is = λ uid' role' passed.
      let (rank, same_id, same_role) =
        admitted_only (str_eq role "admin") uid uid' role role' passed in
      let (stored, identified) = find-mem (has_id uid) s0.db.users there in
      let named : role ≡ "admin" = (eq_iff role "admin").0 rank in
      record {
        row = row;
        stored = stored;
        identified = (==_iff row.id uid).0 identified ∙ same_id;
        rank = sym is ∙ named;
        shown = sym same_role ∙ named;
      }

  looked_up :
      (uid : ℕ)
      → Triple
          (λ s. s ≡ s0)
          (get_role uid)
          (λ role _.
            (row : UserRow) × (find (has_id uid) s0.db.users ≡ some row) × (role ≡ row.role))
          (λ _. Unit {0})
  unfolding get_role
  looked_up uid =
      Triple-weaken _ (Triple-query (λ s. s ≡ s0) (λ _. Unit {0}) _ (λ s p. tt)) (λ s p. p) found
        (λ s p. p)
    where
      found :
          (role : String) (s : State)
          → (s ≡ s0)
            × ((elim (find (has_id uid) s.db.users) as (λ _. Result String) [
              | none ↦ err account_not_found
              | some u ↦ ok u.role
            ])
                ≡ ok role)
          → (row : UserRow) × (find (has_id uid) s0.db.users ≡ some row) × (role ≡ row.role)
      found role s (here, e) = elim (Option-cases (find (has_id uid) s.db.users)) [
        | inl gone ↦ let k : err account_not_found ≡ ok role = rw gone at e in absurd (cc)
        | inr (row, there) ↦
            let k : ok row.role ≡ ok role = rw there at e in
            (row, subst (λ x. find (has_id uid) x.db.users ≡ some row) here there, cc)
      ]

  pub pass_admin-OnlyAdmins :
      (b : Bearer) → Triple (λ s. s ≡ s0) (pass_admin b) (λ p _. OnlyAdmins p) (λ _. ⊥)
  unfolding pass_admin
  pass_admin-OnlyAdmins missing = Triple-pure _ (λ s p uid role is. absurd (cc))
  pass_admin-OnlyAdmins invalid = Triple-pure _ (λ s p uid role is. absurd (cc))
  pass_admin-OnlyAdmins (bearer c) =
      Triple-bind _ _ (Triple-try_total _ (looked_up c.user_id))
        (λ found. Triple-pure _ (λ s p. judged found s p))
    where
      judged :
          (found : Result String) (s : State)
          → Post
              (λ role _.
                (row : UserRow) × (find (has_id c.user_id) s0.db.users ≡ some row)
                × (role ≡ row.role))
              (λ _. Unit {0})
              found
              s
          → OnlyAdmins (pass_role c.user_id found)
      judged (ok role) s (row, there, is) = pass_role-OnlyAdmins c.user_id role row there is
      judged (err e) s p = λ uid role passed. absurd (never_admitted e c.user_id uid role passed)

-- Whatever calls fail, a request that passes as an administrator's is that of a stored user who has
-- the role now, whatever role the token names.
pub require_admin-IsAdmin :
    (tk : Tokenizer) (now : ℕ) (authorization : String) (r : Run) (uid : ℕ) (role : String)
    → (require_admin tk now authorization r).0 ≡ ok (admitted uid role)
    → IsAdmin r.state uid role
unfolding require_admin
require_admin-IsAdmin tk now authorization r uid role answer =
    let (p, is, only) =
      Triple-answers _ (pass_admin-OnlyAdmins r.state (read_bearer tk now authorization)) r refl in
    only uid role (cc)
