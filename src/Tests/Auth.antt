-- ===== src/Tests/Auth.antt =====
-- Eve registers and logs in; Ann is an administrator with an old token.
use mathlib.Core.List.Memᴰ.{head, tail}
use apisix_developer_portal.Common.{
  ℕ, ◌≤◌, ◌<◌, String, Bool, true, ◌&&◌, Option, none, some, [], ◌∷◌, Memᴰ, ◌≡◌, ◌≢◌, inl, inr,
  refl, sym, str_eq, eq_iff, ◌==◌, ltb, if◌then◌else◌, length, select, Bool-cases, arith,
}
use apisix_developer_portal.Common.Texts.{strip_prefix, to_lower}
use apisix_developer_portal.Db.{UserRow}
use apisix_developer_portal.Effects.{State, Run, verification, ok, call, pure, try, step, ◌>>=◌}
use apisix_developer_portal.Httpx.Respond.{refusal, json, header}
use apisix_developer_portal.Auth.Repo.{
  has_email, get_role, verify_by_token_hash, view, new_user, create_account, verified,
}
use apisix_developer_portal.Auth.Session.{
  Claims, Jwt, Bcrypt, issue, parse_token, key_for, hash_password, day,
}
use apisix_developer_portal.Auth.Handler.{
  Handler, Provider, static_provider, link_base, enabled, base_url, draw, register_hashed,
  register_with, answer_pending, send_verification, verification_on, Request, Credentials, session,
  pending, register, login, admit, verify_email, resend_verification,
}
use apisix_developer_portal.Auth.Middleware.{require_admin, read_bearer, pass_admin, pass_role}
use apisix_developer_portal.Auth.Disclosure.{login_discloses_nothing, resend_discloses_nothing}
use apisix_developer_portal.Auth.Gate.{IsEntitled, login_entitles, IsAdmin, require_admin-IsAdmin}
use apisix_developer_portal.Auth.Verifying.{operated, elsewhere, now as at_once, verify_burns}
use apisix_developer_portal.Httpx.RateLimit.{RateLimiter, allow, sweep, refill, spend}
use apisix_developer_portal.Tests.RateLimit.{two_a_second}
use apisix_developer_portal.Auth.Accounts.{
  IsSettled, operate, creating, speaking, promoting, operate-IsSettled,
}
use apisix_developer_portal.Auth.Joining.{
  IsWelcome, IsAdmitted, counted, join_and_log_in, join_verify_log_in,
}
use apisix_developer_portal.Tests.{label, opening}
use apisix_developer_portal.Tests.Teams.{opening-IsOwned}

-- A library that signs the claims `c` only.
abbrev is_claims : Claims → Claims → Bool
is_claims c d =
    c.user_id == d.user_id
    && str_eq c.email d.email
    && str_eq c.role d.role
    && c.expires_at == d.expires_at

is_claims_eq : (c d : Claims) → is_claims c d ≡ true → c ≡ d
is_claims_eq c d t = ground (arith, eq_iff c.email d.email, eq_iff c.role d.role)

abbrev signs : Claims → Claims → Option String
signs c d = if is_claims c d then some "signed" else none

abbrev reads : Claims → ℕ → String → Option Claims
reads c now token = if str_eq token "signed" && ltb now c.expires_at then some c else none

pub reads-signs :
    (c d : Claims) (now : ℕ) (token : String)
    → signs c d ≡ some token
    → now < d.expires_at
    → reads c now token ≡ some d
reads-signs c d now token signed in_time = elim (Bool-cases (is_claims c d)) [
  | inr f ↦
      let none_signed : ◌≡◌ {A = Option String} none (some token) = rw f at signed in absurd (cc)
  | inl t ↦
      let one_signed : ◌≡◌ {A = Option String} (some "signed") (some token) = rw t at signed in
      let named : ◌≡◌ {A = String} token "signed" = cc in
      let same : c ≡ d = is_claims_eq c d t in
      let valid : ltb now c.expires_at ≡ true = ground arith in rw (named, valid, same) refl
]

abbrev pub jwt_of : Claims → Jwt
jwt_of c = record {
  sign = λ secret d. signs c d;
  parse = λ now key token. reads c now token;
  parse-sign =
      λ now key secret token d signed known in_time. reads-signs c d now token signed in_time;
}

pub known_hash :
    (plain hash : String)
    → ◌≡◌ {A = Option String} (some (label plain)) (some hash)
    → str_eq hash (label plain) ≡ true
known_hash plain hash e = let same : hash ≡ label plain = cc in (eq_iff hash (label plain)).1 same

abbrev plain_bcrypt : Bcrypt
plain_bcrypt = record {
  generate = λ salt plain. some (label plain);
  compare = λ hash plain. str_eq hash (label plain);
  compare-generate = λ salt plain hash e. known_hash plain hash e;
}

abbrev eve_claims : Claims
eve_claims = record { user_id = 3; email = "eve@geo"; role = "developer"; expires_at = day }

abbrev desk : Option Provider → Handler
desk provider = record {
  tokenizer = record { jwt = jwt_of eve_claims; secret = "secret" };
  bcrypt = plain_bcrypt;
  provider = provider;
  ttl = day;
  gen_token = λ n. "token";
  digest = label;
}

abbrev eve : Credentials
eve = record { email = "eve@geo"; password = "sunshine"; name = "Eve" }

abbrev now : Request
now = record { now = 0; lang = "en" }

eve-IsWelcome :
    (provider : Option Provider) → IsWelcome (desk provider) eve opening (label "sunshine")
eve-IsWelcome provider = record {
  given = refl;
  free = refl;
  long_enough = refl;
  short_enough = refl;
  hashes = refl;
}

eve_signed : issue (desk none).tokenizer 0 3 "eve@geo" "developer" ≡ some "signed"
unfolding issue
eve_signed = refl

abbrev at_opening : Run
at_opening = record { state = opening; faults = [] }

abbrev after_register : Run
after_register = (register (desk none) now (some eve) at_opening).1

abbrev eve_row : Option (String × ℕ) → UserRow
eve_row token = new_user 3 "eve@geo" (label "sunshine") "Eve" "en" token

-- A limiter of logins that nobody has used.
abbrev limiter : Option RateLimiter
limiter = some two_a_second

eve-IsAdmitted : IsAdmitted limiter now eve
unfolding admit allow sweep refill spend to_lower
eve-IsAdmitted = refl

join_and_log_in_example :
    ((register (desk none) now (some eve) at_opening).0
      ≡ ok (json 201 (session (view (eve_row none)) "signed")))
    × ((login (desk none) limiter now (some eve) after_register).0
        ≡ ok (json 200 (session (view (eve_row none)) "signed"), counted limiter now eve))
unfolding link_base
join_and_log_in_example =
    join_and_log_in (desk none) eve now opening (label "sunshine") (eve-IsWelcome none) "signed"
      refl eve_signed limiter now "signed" eve-IsAdmitted eve_signed

login_entitles_example :
    IsEntitled (desk none) now eve after_register.state (view (eve_row none)) "signed"
login_entitles_example =
    login_entitles (desk none) limiter (counted limiter now eve) now eve after_register 200
      (view (eve_row none)) "signed" join_and_log_in_example.1

-- A portal without accounts.
abbrev at_empty : Run
at_empty = record { state = record opening { db = record opening.db { users = [] } }; faults = [] }

login_discloses_nothing_example :
    (login (desk none) none now (some eve) at_opening).0
    ≡ (login (desk none) none now (some eve) at_empty).0
login_discloses_nothing_example =
    login_discloses_nothing (desk none) none now eve at_opening at_empty (λ u there. absurd (cc))
      (λ u there. absurd (cc))

abbrev mailing : Handler
mailing = desk (some (static_provider "https://portal"))

resend_discloses_nothing_example :
    (resend_verification mailing none now (some "bob@geo") at_opening).0
    ≡ (resend_verification mailing none now (some "bob@geo") at_empty).0
resend_discloses_nothing_example =
    resend_discloses_nothing mailing none now (some "bob@geo") at_opening at_empty refl

abbrev after_pending : Run
after_pending = (register mailing now (some eve) at_opening).1

join_verify_log_in_example :
    ((register mailing now (some eve) at_opening).0
      ≡ ok (json 201 (pending (view (eve_row (some (label "token", day)))))))
    × (after_pending.state.notices
        ≡ verification "en" "eve@geo" "Eve" "https://portal/verify-email?token=token" ∷ [])
    × ((login mailing limiter now (some eve) after_pending).0
        ≡ ok (refusal 403 "auth.login.emailNotVerified", counted limiter now eve))
    × ((verify_email mailing (some "token") after_pending).0 ≡ ok (header 204))
    × ((login mailing limiter now
          (some eve)
          (verify_email mailing (some "token") after_pending).1).0
        ≡ ok (
          json 200 (session (view (verified (eve_row (some (label "token", day))))) "signed"),
          counted limiter now eve,
        ))
unfolding link_base enabled base_url
join_verify_log_in_example =
    join_verify_log_in mailing eve now opening (label "sunshine")
      (eve-IsWelcome (some (static_provider "https://portal"))) "https://portal" refl refl refl
      limiter limiter now now "signed" eve-IsAdmitted eve-IsAdmitted eve_signed

abbrev after_verify : Run
after_verify = (verify_by_token_hash (label "token") after_pending).1

-- A day later, after a change of language and the promotion of an administrator.
abbrev much_later : State
much_later =
    (operate (promoting "ann@geo") (record {
      state =
          (operate (speaking 3 "fr") (record {
            state = record after_verify.state { db = record after_verify.state.db { now = day } };
            faults = [];
          })).1.state;
      faults = [];
    })).1.state

verify_burns_example :
    (verify_by_token_hash (label "token") (record { state = much_later; faults = [] })).0 ≢ ok tt
unfolding verify_by_token_hash register ◌>>=◌ draw step hash_password register_hashed
    verification_on register_with try create_account call pure new_user answer_pending
    send_verification link_base enabled base_url
verify_burns_example = verify_burns (label "token") after_pending much_later [] refl (
    operated (promoting "ann@geo") [] tt
      (operated (speaking 3 "fr") [] tt (elsewhere _ refl (omega arith) at_once)))

abbrev pub ann_claims : Claims
ann_claims = record { user_id = 1; email = "ann@geo"; role = "developer"; expires_at = day }

require_admin-IsAdmin_example : IsAdmin opening 1 "admin"
unfolding require_admin read_bearer strip_prefix parse_token key_for pass_admin try get_role call
    pure pass_role ◌>>=◌
require_admin-IsAdmin_example =
    require_admin-IsAdmin (record { jwt = jwt_of ann_claims; secret = "secret" }) 0 "Bearer signed"
      at_opening 1 "admin" refl

opening-addresses : (email : String) → length (select (has_email email) opening.db.users) ≤ 1
opening-addresses email = elim (Bool-cases (str_eq "ann@geo" email)) [
  | inl e ↦
      let same : ◌≡◌ {A = String} "ann@geo" email = (eq_iff "ann@geo" email).0 e in
      rw (sym same) (omega arith)
  | inr e ↦ elim (Bool-cases (str_eq "bob@geo" email)) [
    | inl f ↦ rw (e, f) (omega arith)
    | inr f ↦ rw (e, f) (omega arith)
  ]
]

opening-users : (u : UserRow) → Memᴰ u opening.db.users → u.id < opening.db.next_user
opening-users u (head e) = rw e (omega arith)
opening-users u (tail (head e)) = rw e (omega arith)
opening-users u (tail (tail x)) = elim x [ ]

operate-IsSettled_example :
    IsSettled (operate (creating "eve@geo" "hash" "Eve" "en" none) at_opening).1.state
operate-IsSettled_example =
    operate-IsSettled (creating "eve@geo" "hash" "Eve" "en" none) at_opening (record {
      directory = record { addresses = opening-addresses; numbered = opening-users };
      owned = opening-IsOwned;
    })
