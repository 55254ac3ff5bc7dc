-- ===== src/Auth/Session.antt =====
-- internal/auth/token.go and user.go: signed tokens and passwords. The JWT library and bcrypt are
-- parameters, with the laws that their documentation gives.
use Prim.Native.String.{len}
use apisix_developer_portal.Common.{
  ℕ, ◌+◌, ◌<◌, String, Bool, true, false, Option, none, some, ltb, if◌then◌else◌, ◌≡◌,
}

pub record Claims : Type 0 where
  pub user_id : ℕ
  pub email : String
  pub role : String
  pub expires_at : ℕ

-- The method that a token says it is signed with.
pub data Method : Type 0 where
  hmac other : Method

-- `SignedString` of HS256, and `ParseWithClaims` at a time, with the function that picks the key.
pub record Jwt : Type 0 where
  pub sign : String → Claims → Option String
  pub parse : ℕ → (Method → Option String) → String → Option Claims
  pub parse-sign :
      (now : ℕ) (key : Method → Option String) (secret token : String) (c : Claims)
      → sign secret c ≡ some token
      → key hmac ≡ some secret
      → now < c.expires_at
      → parse now key token ≡ some c

-- A day, in nanoseconds.
abbrev pub day : ℕ
day = 86400000000000

-- `Tokenizer`
pub record Tokenizer : Type 0 where
  pub jwt : Jwt
  pub secret : String

-- `Issue`
unfoldable pub issue : Tokenizer → ℕ → ℕ → String → String → Option String
issue tk now uid email role =
    tk.jwt.sign tk.secret
      (record { user_id = uid; email = email; role = role; expires_at = now + day })

-- The key function of `Parse`.
unfoldable pub key_for : String → Method → Option String
key_for secret hmac = some secret
key_for secret other = none

-- `Parse`
unfoldable pub parse_token : Tokenizer → ℕ → String → Option Claims
unfolding key_for
parse_token tk now token = tk.jwt.parse now (key_for tk.secret) token

-- bcrypt: a hash with a salt, and the comparison.
pub record Bcrypt : Type 0 where
  pub generate : ℕ → String → Option String
  pub compare : String → String → Bool
  pub compare-generate :
      (salt : ℕ) (plain hash : String) → generate salt plain ≡ some hash → compare hash plain ≡ true

pub data Hashed : Type 0 where
  too_long : Hashed
  no_hash : Hashed
  hashed : String → Hashed

abbrev answered : Option String → Hashed
answered none = no_hash
answered (some hash) = hashed hash

-- `HashPassword`
unfoldable pub hash_password : Bcrypt → ℕ → String → Hashed
hash_password b salt plain =
    if ltb 72 (len plain) then too_long else answered (b.generate salt plain)

-- `CheckPassword`
unfoldable pub check_password : Bcrypt → String → String → Bool
check_password b hash plain = if ltb 72 (len plain) then false else b.compare hash plain
