-- ===== src/Auth/Joining.antt =====
-- From the registration of an account to its first session.
use Prim.Native.String
use Prim.Native.String.{len}
use apisix_developer_portal.Common.{
  ℕ, ◌+◌, String, true, false, Option, none, some, [], ◌∷◌, ◌≡◌, refl, ap, ◌∙◌, str_eq, eq_refl,
  ltb, if◌then◌else◌, find, any, update_where,
}
use apisix_developer_portal.Db.{UserRow, TeamRow, Db}
use apisix_developer_portal.Effects.{
  verification, Result, ok, State, Run, pure, try, step, call, ◌>>=◌,
}
use apisix_developer_portal.Httpx.Respond.{Reply, refusal, json, header}
use apisix_developer_portal.Common.Texts.{to_lower}
use apisix_developer_portal.Httpx.RateLimit.{RateLimiter}
use apisix_developer_portal.Auth.Repo.{
  User, view, new_user, has_email, create_account, get_by_email, verify_by_token_hash, carries,
  verified,
}
use apisix_developer_portal.Auth.Session.{issue, hash_password, check_password}
use apisix_developer_portal.Auth.Handler.{
  Handler, link_base, Request, Credentials, Body, session, pending, verification_on, draw,
  send_verification, open_session, session_answer, answer_login, check_login, login, register,
  register_hashed, register_with, answer_pending, answer_created, admit, verify_email, verify_with,
  verify_answer,
}

-- A registration that has nothing against it: the address is given and free, and the password has
-- from 8 to 72 bytes and a hash.
pub record IsWelcome (h : Handler) (c : Credentials) (s : State) (hash : String) : Type 0 where
  pub given : str_eq c.email "" ≡ false
  pub free : any (has_email c.email) s.db.users ≡ false
  pub long_enough : ltb (len c.password) 8 ≡ false
  pub short_enough : ltb 72 (len c.password) ≡ false
  pub hashes : h.bcrypt.generate s.entropy c.password ≡ some hash

abbrev clean : State → Run
clean s = record { state = s; faults = [] }

-- The limiter of logins, if there is one, lets a login with these credentials pass.
abbrev pub IsAdmitted : Option RateLimiter → Request → Credentials → Type 0
IsAdmitted limiter req c = (admit limiter req.now (to_lower c.email)).0 ≡ true

-- The limiter after the login.
abbrev pub counted : Option RateLimiter → Request → Credentials → Option RateLimiter
counted limiter req c = (admit limiter req.now (to_lower c.email)).1

login_found :
    (h : Handler) (limiter : Option RateLimiter) (c : Credentials) (req : Request) (t : State)
    (u : UserRow)
    → IsAdmitted limiter req c
    → find (has_email c.email) t.db.users ≡ some u
    → check_password h.bcrypt u.password_hash c.password ≡ true
    → (login h limiter req (some c) (clean t)).0
      ≡ ok (session_answer h req (view u) (link_base h.provider t.snapshot), counted limiter req c)
unfolding login ◌>>=◌ check_login try get_by_email call pure answer_login verification_on step
login_found h limiter c req t u passed there right = rw (passed, there, answer_login, right) refl

session_signed :
    (h : Handler) (req : Request) (status : ℕ) (u : User) (token : String)
    → issue h.tokenizer req.now u.id u.email u.role ≡ some token
    → open_session h req status u ≡ json status (session u token)
unfolding open_session
session_signed h req status u token signed = rw (open_session, signed) refl

module _ (h : Handler) (c : Credentials) (req : Request) (s : State) (hash : String)
    (welcome : IsWelcome h c s hash) where
  -- The row that the registration stores, and the state after it.
  abbrev row : Option (String × ℕ) → UserRow
  row token = new_user s.db.next_user c.email hash c.name req.lang token

  abbrev team : TeamRow
  team = record {
    id = s.db.next_team;
    name = if str_eq c.name "" then c.email else c.name;
    personal = true;
  }

  abbrev joined : Option (String × ℕ) → Db
  joined token = record s.db {
    users = row token ∷ s.db.users;
    next_user = s.db.next_user + 1;
    teams = team ∷ s.db.teams;
    members =
        record { team_id = s.db.next_team; user_id = s.db.next_user; role = "owner" }
        ∷ s.db.members;
    next_team = s.db.next_team + 1;
  }

  right_password : check_password h.bcrypt hash c.password ≡ true
  unfolding check_password
  right_password =
      rw welcome.short_enough (h.bcrypt.compare-generate s.entropy c.password hash welcome.hashes)

  listed :
      (token : Option (String × ℕ))
      → find (has_email c.email) (joined token).users ≡ some (row token)
  unfolding new_user
  listed token = rw (eq_refl c.email) refl

  module _ (token : String) (off : link_base h.provider s.snapshot ≡ none)
      (signed : issue h.tokenizer req.now s.db.next_user c.email "developer" ≡ some token) where
    abbrev after : State
    after = record s { db = joined none; entropy = s.entropy + 1 }

    registered :
        register h req (some c) (clean s)
        ≡ (ok (json 201 (session (view (row none)) token)), clean after)
    unfolding register ◌>>=◌ draw step hash_password register_hashed verification_on register_with
        try create_account call pure new_user answer_created open_session
    registered =
        rw
          (
            welcome.given, welcome.long_enough, welcome.short_enough, welcome.hashes, off,
            welcome.free, answer_created, open_session, signed,
          )
          refl

    -- If every call is answered, the address is given and free, the password has from 8 to 72 bytes and
    -- a hash, verification is off and the tokens of the two sessions are signed, then a registration
    -- answers with a session, and a login with the same address and password that the limiter, if
    -- there is one, lets pass answers with one.
    pub join_and_log_in :
        (limiter : Option RateLimiter) (later : Request) (token' : String)
        → IsAdmitted limiter later c
        → issue h.tokenizer later.now s.db.next_user c.email "developer" ≡ some token'
        → (let r = register h req (some c) (clean s) in
            (r.0 ≡ ok (json 201 (session (view (row none)) token)))
            × ((login h limiter later (some c) r.1).0
                ≡ ok (json 200 (session (view (row none)) token'), counted limiter later c)))
    unfolding session_answer new_user
    join_and_log_in limiter later token' passed signed' = (
      ap (λ (x : Result (Reply Body) × Run). x.0) registered,
      ap (λ (x : Result (Reply Body) × Run). (login h limiter later (some c) x.1).0) registered
          ∙ login_found h limiter c later after (row none) passed (listed none) right_password
          ∙ ap (λ (reply : Reply Body). ok (reply, counted limiter later c))
              (ap (session_answer h later (view (row none))) off
                ∙ session_signed h later 200 (view (row none)) token' signed'),
    )

  -- With verification on: the token that is mailed, and the state after the registration.
  module _ (url : String) (on : link_base h.provider s.snapshot ≡ some url)
      (nonempty : str_eq (h.gen_token (s.entropy + 1)) "" ≡ false)
      (in_time : ltb s.db.now (req.now + h.ttl) ≡ true) where
    abbrev mailed : String
    mailed = h.gen_token (s.entropy + 1)

    abbrev pending_row : UserRow
    pending_row = row (some (h.digest mailed, req.now + h.ttl))

    abbrev awaiting : State
    awaiting = record s {
      db = joined (some (h.digest mailed, req.now + h.ttl));
      entropy = s.entropy + 1 + 1;
      notices =
          verification req.lang c.email c.name
            (String.◌++◌ url (String.◌++◌ "/verify-email?token=" mailed))
          ∷ s.notices;
    }

    registered_pending :
        register h req (some c) (clean s)
        ≡ (ok (json 201 (pending (view pending_row))), clean awaiting)
    unfolding register ◌>>=◌ draw step hash_password register_hashed verification_on register_with
        try create_account call pure new_user answer_pending send_verification
    registered_pending =
        rw
          (
            welcome.given, welcome.long_enough, welcome.short_enough, welcome.hashes, on,
            welcome.free, answer_pending,
          )
          refl

    refused_yet :
        (limiter : Option RateLimiter) (early : Request)
        → IsAdmitted limiter early c
        → (login h limiter early (some c) (clean awaiting)).0
          ≡ ok (refusal 403 "auth.login.emailNotVerified", counted limiter early c)
    unfolding session_answer new_user
    refused_yet limiter early passed =
        login_found h limiter c early awaiting pending_row passed
          (listed (some (h.digest mailed, req.now + h.ttl))) right_password
        ∙ ap (λ (reply : Reply Body). ok (reply, counted limiter early c))
            (ap (session_answer h early (view pending_row)) on)

    abbrev confirmed : State
    confirmed = record awaiting {
      db = record awaiting.db {
        users =
            verified pending_row
            ∷ update_where (carries (h.digest mailed) s.db.now) verified s.db.users;
      };
    }

    confirmation :
        verify_email h (some mailed) (clean awaiting) ≡ (ok (header 204), clean confirmed)
    unfolding verify_email ◌>>=◌ verification_on step verify_with try verify_by_token_hash call pure
        new_user verify_answer
    confirmation = rw (on, nonempty, eq_refl (h.digest mailed), in_time) refl

    now_found : find (has_email c.email) confirmed.db.users ≡ some (verified pending_row)
    unfolding new_user
    now_found = rw (eq_refl c.email) refl

    -- If every call is answered, the address is given and free, the password has from 8 to 72 bytes and
    -- a hash, verification is on, the token that is drawn is not empty and not yet expired, the token of
    -- a session is signed, and the limiters of the two logins, if there are any, let them pass, then a
    -- registration answers without a session and mails to the address a link with the token, a login is
    -- refused, the token of the link verifies the address, and a login after that answers with a session.
    pub join_verify_log_in :
        (limiter limiter' : Option RateLimiter) (early later : Request) (token : String)
        → IsAdmitted limiter early c
        → IsAdmitted limiter' later c
        → issue h.tokenizer later.now s.db.next_user c.email "developer" ≡ some token
        → (let r = register h req (some c) (clean s) in
            let r' = verify_email h (some mailed) r.1 in
            (r.0 ≡ ok (json 201 (pending (view pending_row))))
            × (r.1.state.notices
                ≡ verification req.lang c.email c.name
                    (String.◌++◌ url (String.◌++◌ "/verify-email?token=" mailed))
                  ∷ s.notices)
            × ((login h limiter early (some c) r.1).0
                ≡ ok (refusal 403 "auth.login.emailNotVerified", counted limiter early c))
            × (r'.0 ≡ ok (header 204))
            × ((login h limiter' later (some c) r'.1).0
                ≡ ok (
                  json 200 (session (view (verified pending_row)) token),
                  counted limiter' later c,
                )))
    unfolding session_answer new_user
    join_verify_log_in limiter limiter' early later token passed passed' signed =
        let first = registered_pending in
        let second : verify_email h (some mailed) (register h req (some c) (clean s)).1
            ≡ (ok (header 204), clean confirmed) =
          ap (λ (x : Result (Reply Body) × Run). verify_email h (some mailed) x.1) first
          ∙ confirmation in
        (
          ap (λ (x : Result (Reply Body) × Run). x.0) first,
          ap (λ (x : Result (Reply Body) × Run). x.1.state.notices) first,
          ap (λ (x : Result (Reply Body) × Run). (login h limiter early (some c) x.1).0) first
              ∙ refused_yet limiter early passed,
          ap (λ (x : Result (Reply Body) × Run). x.0) second,
          ap (λ (x : Result (Reply Body) × Run). (login h limiter' later (some c) x.1).0) second
              ∙ login_found h limiter' c later confirmed (verified pending_row) passed' now_found
                  right_password
              ∙ ap (λ (reply : Reply Body). ok (reply, counted limiter' later c))
                  (ap (session_answer h later (view (verified pending_row))) on
                    ∙ session_signed h later 200 (view (verified pending_row)) token signed),
        )
