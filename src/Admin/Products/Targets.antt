-- ===== src/Admin/Products/Targets.antt =====
-- internal/admin/product.go: the targets and the context paths that the checks of a product let
-- through.
use Prim.Native.Char.{code}
use apisix_developer_portal.Common.{
  ℕ, String, Bool, true, false, ◌&&◌, ◌||◌, not, Option, none, some, List, [], ◌∷◌, Memᴰ, ◌≡◌, ◌≢◌,
  ◌⊎◌, inl, inr, refl, sym, subst, str_eq, eq_iff, ◌==◌, ==_iff, &&-true, if◌then◌else◌, any-false,
  Bool-cases, arith,
}
use apisix_developer_portal.Common.Texts.{has_char}
use apisix_developer_portal.Apisix.ClientId.{all_chars}
use apisix_developer_portal.Admin.Plans.Forms.{is_blank}
use apisix_developer_portal.Db.{ProductRow}
use apisix_developer_portal.Admin.Products.Forms.{
  Net, fold, without_scheme, is_digit, is_private_ip, all_public, public_host, valid_target,
  valid_upstream, is_alnum, is_path_char, ends_alnum, ctx_path_re, valid_context_path, validate,
}

-- The conditions under which the gateway may call a host and a port.
pub record IsPublic {Ip : Type 0} (net : Net Ip) (upstream : String) : Type 0 where
  pub host : String
  pub port : String
  pub shape : net.split_host_port (without_scheme upstream) ≡ some (host, port)
  pub numeric : all_chars is_digit port ≡ true
  pub remote : fold host ≢ "localhost"
  pub literal : (ip : Ip) → net.parse_ip host ≡ some ip → is_private_ip net ip ≡ false
  pub resolved :
      net.parse_ip host ≡ none
      → (ips : List Ip) × (net.lookup_ip host ≡ some ips)
        × (ips ≢ [])
        × ((ip : Ip) → Memᴰ ip ips → is_private_ip net ip ≡ false)

-- A path with none of the characters that `ContextPathOverlaps` (repo.go) leaves as they are in its
-- patterns of LIKE. It may have the wildcard "_", which the query escapes.
pub record IsEscapable (path : String) : Type 0 where
  pub no_percent : has_char 37 path ≡ false
  pub no_backslash : has_char 92 path ≡ false

not-true : (b : Bool) → not b ≡ true → b ≡ false
not-true b h = ground arith

not-false : (b : Bool) → not b ≡ false → b ≡ true
not-false b h = ground arith

four :
    (a b c d : Bool) → (a && b && c && d) ≡ true → (a ≡ true) × (b ≡ true) × (c ≡ true) × (d ≡ true)
four a b c d h =
    let (abc, last) = &&-true (a && b && c) d h in
    let (ab, third) = &&-true (a && b) c abc in
    let (first, second) = &&-true a b ab in (first, second, third, last)

both-true : (a b : Bool) → a ≡ true → b ≡ true → (a && b) ≡ true
both-true a b h k = ground arith

either-true : (a b : Bool) → a ≡ true → (a || b) ≡ true
either-true a b h = ground arith

absent :
    (n : ℕ) (s : String)
    → is_path_char n ≡ false
    → all_chars is_path_char s ≡ true
    → has_char n s ≡ false
unfolding has_char
absent n String.[] outside all = refl
absent n (String.◌∷◌ c s) outside all =
    let (first, rest) = &&-true (is_path_char (code c)) (all_chars is_path_char s) all in
    elim (Bool-cases (code c == n)) [
      | inr f ↦ rw f (absent n s outside rest)
      | inl t ↦
          let same : code c ≡ n = (==_iff (code c) n).0 t in
          let k : is_path_char n ≡ true = subst (λ x. is_path_char x ≡ true) same first in
          absurd (cc)
    ]

alnum_path : (c : ℕ) → is_alnum c ≡ true → is_path_char c ≡ true
alnum_path c h = ground arith

shaped : (path : String) → ctx_path_re path ≡ true → all_chars is_path_char path ≡ true
unfolding ctx_path_re
shaped String.[] h = absurd (cc)
shaped (String.◌∷◌ a String.[]) h = absurd (cc)
shaped (String.◌∷◌ a (String.◌∷◌ c s)) h =
    let (slash, first, middle, last) =
      four (code a == 47) (is_alnum (code c)) (all_chars is_path_char s) (ends_alnum s) h in
    let lead : is_path_char (code a) ≡ true =
      subst (λ n. is_path_char n ≡ true) (sym ((==_iff (code a) 47).0 slash)) refl in
    both-true (is_path_char (code a)) (is_path_char (code c) && all_chars is_path_char s) lead (
      both-true (is_path_char (code c)) (all_chars is_path_char s) (alnum_path (code c) first)
        middle)

valid_context_path-IsEscapable : (path : String) → valid_context_path path ≡ true → IsEscapable path
unfolding valid_context_path
valid_context_path-IsEscapable path h =
    let chars = shaped path (&&-true _ (ctx_path_re path) h).1 in
    record { no_percent = absent 37 path refl chars; no_backslash = absent 92 path refl chars }

module _ {Ip : Type 0} (net : Net Ip) where
  addressed :
      (host : String) (found : Option Ip) (ip : Ip)
      → public_host net host found ≡ true
      → found ≡ some ip
      → is_private_ip net ip ≡ false
  unfolding public_host
  addressed host none ip h e = absurd (cc)
  addressed host (some ip') ip h e =
      let same : ip' ≡ ip = cc in subst (λ x. is_private_ip net x ≡ false) same (not-true _ h)

  all_public-IsPublic :
      (found : Option (List Ip))
      → all_public net found ≡ true
      → (ips : List Ip) × (found ≡ some ips)
        × (ips ≢ [])
        × ((ip : Ip) → Memᴰ ip ips → is_private_ip net ip ≡ false)
  unfolding all_public
  all_public-IsPublic none h = absurd (cc)
  all_public-IsPublic (some []) h = absurd (cc)
  all_public-IsPublic (some (ip ∷ ips)) h = (
    ip ∷ ips,
    refl,
    (λ e. cc),
    λ x there. any-false (is_private_ip net) (ip ∷ ips) (not-true _ h) there,
  )

  named :
      (host : String) (found : Option Ip)
      → public_host net host found ≡ true
      → found ≡ none
      → (ips : List Ip) × (net.lookup_ip host ≡ some ips)
        × (ips ≢ [])
        × ((ip : Ip) → Memᴰ ip ips → is_private_ip net ip ≡ false)
  unfolding public_host
  named host none h e =
      all_public-IsPublic (net.lookup_ip host) (&&-true _ (all_public net (net.lookup_ip host)) h).1
  named host (some ip) h e = absurd (cc)

  target-IsPublic :
      (upstream : String) (split : Option (String × String))
      → valid_target net false split ≡ true
      → net.split_host_port (without_scheme upstream) ≡ split
      → IsPublic net upstream
  unfolding valid_target
  target-IsPublic upstream none h is = absurd (cc)
  target-IsPublic upstream (some (host, port)) h is =
      let (has_host, has_port, numeric, allowed) =
        four (not (str_eq host "")) (not (str_eq port "")) (all_chars is_digit port)
          (not (str_eq (fold host) "localhost") && public_host net host (net.parse_ip host)) h in
      let (other, public) =
        &&-true (not (str_eq (fold host) "localhost")) (public_host net host (net.parse_ip host))
          allowed in
      record {
        host = host;
        port = port;
        shape = is;
        numeric = numeric;
        remote = λ local.
            let k = (eq_iff (fold host) "localhost").1 local in
            let f = not-true (str_eq (fold host) "localhost") other in cc;
        literal = λ ip e. addressed host (net.parse_ip host) ip public e;
        resolved = named host (net.parse_ip host) public;
      }

  upstream-IsPublic :
      (upstream : String) → valid_upstream net upstream false ≡ true → IsPublic net upstream
  unfolding valid_upstream
  upstream-IsPublic upstream h = target-IsPublic upstream _ h refl

  -- A check that passes, before a message.
  past :
      (b : Bool) (message rest : String)
      → message ≢ ""
      → (if b then message else rest) ≡ ""
      → (b ≡ false) × (rest ≡ "")
  past true message rest shown h = absurd (shown h)
  past false message rest shown h = (refl, h)

  target_given :
      (upstream : String)
      → (not (str_eq upstream "") && not (valid_upstream net upstream false)) ≡ false
      → (upstream ≡ "") ⊎ IsPublic net upstream
  target_given upstream h = elim (Bool-cases (str_eq upstream "")) [
    | inl t ↦ inl ((eq_iff upstream "").0 t)
    | inr f ↦
        let valid : not (valid_upstream net upstream false) ≡ false = rw f at h in
        inr (upstream-IsPublic upstream (not-false _ valid))
  ]

  -- Without the allowance for private targets, a product that passes the checks has upstreams that are
  -- empty or public: a host that is not localhost, whose address or whose every resolved address is
  -- not private, with at least one, and a numeric port. Its context path has neither a percent sign nor a
  -- backslash.
  pub validate-IsPublic :
      (parse_date : String → Bool) (p : ProductRow)
      → validate net parse_date false p ≡ ""
      → ((p.upstream_url ≡ "") ⊎ IsPublic net p.upstream_url)
        × ((p.sandbox_upstream_url ≡ "") ⊎ IsPublic net p.sandbox_upstream_url)
        × IsEscapable p.context_path
  unfolding validate
  validate-IsPublic parse_date p h =
      let (_, h1) = past (is_blank p.name) _ _ (λ e. cc) h in
      let (_, h2) = past (is_blank p.slug) _ _ (λ e. cc) h1 in
      let (_, h3) = past (is_blank p.category) _ _ (λ e. cc) h2 in
      let (_, h4) = past (is_blank p.context_path) _ _ (λ e. cc) h3 in
      let (path, h5) = past (not (valid_context_path p.context_path)) _ _ (λ e. cc) h4 in
      let (target, h6) =
        past (not (str_eq p.upstream_url "") && not (valid_upstream net p.upstream_url false)) _ _
          (λ e. cc) h5 in
      let (sandbox, h7) =
        past
          (not (str_eq p.sandbox_upstream_url "")
            && not (valid_upstream net p.sandbox_upstream_url false))
          _ _ (λ e. cc) h6 in
      (
        target_given p.upstream_url target,
        target_given p.sandbox_upstream_url sandbox,
        valid_context_path-IsEscapable p.context_path (not-false _ path),
      )
